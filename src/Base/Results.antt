-- ===== src/Base/Results.antt =====
-- Rust's `Result` with an error of text, and `?` on it.
use mathlib.Core.Path.{◌≡◌, refl}
use mathlib.Core.Logic.{◌⊎◌, inl, inr}
use mathlib.Core.Bool.{Bool, true, false}
use smrt.Base.Tests.{if◌then◌else◌}
use smrt.Base.Strings.{Text}

pub data Result {ℓ} (A : Type ℓ) : Type ℓ where
  err : (message : Text) → Result A
  ok : (value : A) → Result A

-- what `do` blocks of fallible steps stand for
infixl 5 ◌>>=◌
abbrev pub ◌>>=◌ {ℓ κ} : {T : Type ℓ} {U : Type κ} → Result T → (T → Result U) → Result U
err message >>= next = err message
ok value >>= next = next value

pub Result-cases {ℓ} :
    {A : Type ℓ} (r : Result A) → ((m : Text) × (r ≡ err m)) ⊎ ((a : A) × (r ≡ ok a))
Result-cases (err m) = inl (m, refl)
Result-cases (ok a) = inr (a, refl)

pub ok_inj {ℓ} : {A : Type ℓ} (x y : A) → ok x ≡ ok y → x ≡ y
ok_inj x y h = cc

-- what a guard that returns early leaves of an answer
pub guard-ok {ℓ} :
    {A : Type ℓ} (refused : Bool) (message : Text) (x y : A)
    → (if refused then err message else ok x) ≡ ok y
    → (refused ≡ false) × (x ≡ y)
guard-ok true message x y h = cc
guard-ok false message x y h = (refl, ok_inj x y h)
