-- ===== src/Base/Splits.antt =====
-- Taking texts apart and putting them together again.
use Prim.Native.Nat.{ℕ}
use mathlib.Core.Path.{◌≡◌, refl, ap}
use mathlib.Core.Logic.{inl, inr}
use mathlib.Core.Bool.{Bool, true, not}
use mathlib.Core.List.{List, [], ◌∷◌, ◌++◌}
use mathlib.Core.Option.{some}
use native.Mathlib.Omega.{arith}
use smrt.Base.Tests.{Bool-cases}
use smrt.Base.Lists.{all}
use smrt.Base.Strings.{Text, strip_prefix, split_once, split, prepend}

pub strip_prefix-some : (p s r : Text) → strip_prefix p s ≡ some r → s ≡ p ++ r
unfolding strip_prefix
strip_prefix-some [] s r h = ground arith
strip_prefix-some (c ∷ p) [] r h = cc
strip_prefix-some (c ∷ p) (d ∷ s) r h = ground (arith, strip_prefix-some p s r)

pub strip_prefix-append : (p r : Text) → strip_prefix p (p ++ r) ≡ some r
unfolding strip_prefix
strip_prefix-append [] r = refl
strip_prefix-append (c ∷ p) r = ground (arith, strip_prefix-append p r)

pub split_once-some :
    (c : ℕ) (s t : Text) → (split_once c s).1 ≡ some t → s ≡ (split_once c s).0 ++ (c ∷ t)
unfolding split_once
split_once-some c [] t h = cc
split_once-some c (d ∷ s) t h = ground (arith, split_once-some c s t)

prepend-append :
    (c : ℕ) (xs ys : List Text) (x : Text) → prepend c ((x ∷ xs) ++ ys) ≡ prepend c (x ∷ xs) ++ ys
prepend-append c xs ys x = refl

pub split-cons :
    (sep : ℕ → Bool) (s : Text) → (x : Text) × (xs : List Text) × (split sep s ≡ x ∷ xs)
unfolding split
split-cons sep [] = ([], [], refl)
split-cons sep (c ∷ s) = elim (Bool-cases (sep c)) [
  | inl e ↦ rw e ([], split sep s, refl)
  | inr e ↦ let (x, xs, h) = split-cons sep s in rw (e, h) (c ∷ x, xs, refl)
]

pub split-append :
    (sep : ℕ → Bool) (a b : Text) (c : ℕ)
    → sep c ≡ true
    → split sep (a ++ (c ∷ b)) ≡ split sep a ++ split sep b
unfolding split
split-append sep [] b c h = rw h refl
split-append sep (d ∷ a) b c h = elim (Bool-cases (sep d)) [
  | inl e ↦ rw e (ap (λ l. [] ∷ l) (split-append sep a b c h))
  | inr e ↦ let (x, xs, f) = split-cons sep a in rw (e, split-append sep a b c h, f) refl
]

pub split-none :
    (sep : ℕ → Bool) (s : Text) → all (λ c. not (sep c)) s ≡ true → split sep s ≡ s ∷ []
unfolding split
split-none sep [] h = refl
split-none sep (c ∷ s) h = elim (Bool-cases (sep c)) [
  | inl e ↦ cc (rw e at h)
  | inr e ↦ rw (e, split-none sep s (rw e at h)) refl
]
