-- ===== src/Base/Numerals.antt =====
-- Printing a number and parsing it back.
use Prim.Native.Nat.{ℕ, zero, suc, ◌+◌, ◌-◌, ◌*◌, ◌/◌, ◌%◌, ◌≤◌, ◌<◌}
use mathlib.Core.Path.{◌≡◌, refl, ap, ◌∙◌}
use mathlib.Core.Logic.{◌≢◌, inl, inr}
use mathlib.Core.Bool.{true}
use mathlib.Core.Option.{Option, some}
use mathlib.Core.List.{[], ◌∷◌, ◌++◌, Memᴰ}
use mathlib.Core.List.Memᴰ
use native.Mathlib.Omega.{arith}
use smrt.Base.Tests.{ltb, Bool-cases}
use smrt.Base.Strings.{Text, u64_mod, is_digit, parse_digits, parse_u64, show_from, show}

parse_digits-concat :
    (acc : ℕ) (s : Text) (d n : ℕ)
    → parse_digits acc s ≡ some n
    → d < 10
    → n * 10 + d < u64_mod
    → parse_digits acc (s ++ ((b'0' + d) ∷ [])) ≡ some (n * 10 + d)
unfolding parse_digits is_digit
parse_digits-concat acc [] d n h lt bound = ground arith
parse_digits-concat acc (c ∷ s) d n h lt bound =
    ground (arith, parse_digits-concat (acc * 10 + (c - b'0')) s d n)

parse_digits-show_from : (f n : ℕ) → n < f → n < u64_mod → parse_digits 0 (show_from f n) ≡ some n
unfolding show_from
parse_digits-show_from zero n h bound = absurd (omega arith)
parse_digits-show_from (suc f) n h bound = elim (Bool-cases (ltb n 10)) [
  | inl small ↦ rw small (
      parse_digits-concat 0 [] n 0 (unfold parse_digits in refl) (ground arith) (omega arith)
      ∙ ap {B = Option ℕ} some (omega arith))
  | inr big ↦
      let ten : 10 ≤ n = ground arith in
      rw big (
        parse_digits-concat 0 (show_from f (n / 10)) (n % 10) (n / 10)
          (parse_digits-show_from f (n / 10) (omega arith) (omega arith)) (omega arith)
          (omega arith)
        ∙ ap {B = Option ℕ} some (omega arith))
]

-- a printed number is not empty, and a text of digits has no sign
parse_u64-of_digits : (s : Text) (n : ℕ) → s ≢ [] → parse_digits 0 s ≡ some n → parse_u64 s ≡ some n
unfolding parse_u64 parse_digits is_digit
parse_u64-of_digits [] n ne h = absurd (ne refl)
parse_u64-of_digits (c ∷ []) n ne h = h
parse_u64-of_digits (c ∷ d ∷ s) n ne h = ground arith

show_from-ne_nil : (f n : ℕ) → show_from (suc f) n ≢ []
unfolding show_from
show_from-ne_nil f n h = elim (Bool-cases (ltb n 10)) [
  | inl small ↦ cc (rw small at h)
  | inr big ↦ snoc_ne_nil (show_from f (n / 10)) (b'0' + n % 10) (rw big at h)
]
  where
    snoc_ne_nil : (s : Text) (c : ℕ) → (s ++ (c ∷ [])) ≢ []
    snoc_ne_nil [] c e = cc
    snoc_ne_nil (x ∷ s) c e = cc

pub parse_digits-show : (n : ℕ) → n < u64_mod → parse_digits 0 (show n) ≡ some n
unfolding show
parse_digits-show n h = parse_digits-show_from (suc n) n (omega arith) h

-- A 64-bit number that is printed in decimal is parsed back.
pub parse_u64-show : (n : ℕ) → n < u64_mod → parse_u64 (show n) ≡ some n
unfolding show
parse_u64-show n h =
    parse_u64-of_digits (show_from (suc n) n) n (show_from-ne_nil n n)
      (parse_digits-show_from (suc n) n (omega arith) h)

show_from-digits : (f n : ℕ) → (c : ℕ) → Memᴰ c (show_from f n) → is_digit c ≡ true
unfolding show_from is_digit
show_from-digits zero n c m = absurd (Memᴰ.not-nil m)
show_from-digits (suc f) n c m = elim (Bool-cases (ltb n 10)) [
  | inl small ↦ let e = Memᴰ.eq_of_singleton (rw small at m) in rw e (ground arith)
  | inr big ↦ elim (Memᴰ.append_cases (show_from f (n / 10)) (rw big at m)) [
    | inl front ↦ show_from-digits f (n / 10) c front
    | inr last ↦ let e = Memᴰ.eq_of_singleton last in rw e (ground arith)
  ]
]

-- a printed number is made of digits, and is not empty
pub show-digits : (n : ℕ) → (show n ≢ []) × ((c : ℕ) → Memᴰ c (show n) → is_digit c ≡ true)
unfolding show
show-digits n = (show_from-ne_nil n n, show_from-digits (suc n) n)
