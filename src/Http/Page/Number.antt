-- ===== src/Http/Page/Number.antt =====
-- A number as the one part of a cursor of src/http/page.rs.
use smrt.Base.{
  ℕ, ◌^◌, ◌<◌, ◌≡◌, refl, ◌≢◌, Bool, true, not, some, [], ◌∷◌, arith, nat_eq, ℕ-Eq, all, Memᴰ, Text,
  split, show, is_digit, parse_digits, pos, parse_i64,
}
use smrt.Base.Numerals.{parse_digits-show, show-digits}
use smrt.Base.Splits.{split-none}

-- a number that is printed holds no separator, and reads back
all_of : (p : ℕ → Bool) (s : Text) → ((c : ℕ) → Memᴰ c s → p c ≡ true) → all p s ≡ true
all_of p [] h = refl
all_of p (c ∷ s) h =
    let now = h c (Memᴰ.head refl) in
    let rest = all_of p s (λ d m. h d (Memᴰ.tail m)) in ground arith

pub split-show : (n : ℕ) → split (λ c. nat_eq c 31) (show n) ≡ show n ∷ []
split-show n =
    split-none (λ c. nat_eq c 31) (show n)
      (all_of (λ c. not (nat_eq c 31)) (show n)
        (λ c m.
          let digit : is_digit c ≡ true = (show-digits n).1 c m in unfold is_digit in ground arith))

parse_i64-of_digits :
    (s : Text) (n : ℕ)
    → s ≢ []
    → ((c : ℕ) → Memᴰ c s → is_digit c ≡ true)
    → parse_digits 0 s ≡ some n
    → n < 2 ^ 63
    → parse_i64 s ≡ some (pos n)
unfolding parse_i64 is_digit
parse_i64-of_digits [] n ne d h b = absurd (ne refl)
parse_i64-of_digits (c ∷ []) n ne d h b = rw h (ground arith)
parse_i64-of_digits (c ∷ e ∷ s) n ne d h b = let front = d c (Memᴰ.head refl) in rw h (ground arith)

pub parse_i64-show : (n : ℕ) → n < 2 ^ 63 → parse_i64 (show n) ≡ some (pos n)
parse_i64-show n b =
    parse_i64-of_digits (show n) n (show-digits n).0 (show-digits n).1
      (parse_digits-show n (omega arith)) b
