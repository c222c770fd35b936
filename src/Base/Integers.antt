-- ===== src/Base/Integers.antt =====
-- Rust's `i64` as an integer over the native numbers, with equality and parsing.
use Prim.Native.Nat.{ℕ, zero, suc, ◌^◌}
use mathlib.Core.Path.{◌≡◌}
use mathlib.Core.Logic.{◌↔◌}
use mathlib.Core.Bool.{Bool, true, false}
use mathlib.Core.List.{[], ◌∷◌}
use mathlib.Core.Option.{Option, none, some}
use native.Mathlib.Omega.{arith}
use smrt.Base.Tests.{ltb, nat_eq, if◌then◌else◌, Eq}
use smrt.Base.Strings.{Text, parse_digits, show}

pub data ℤ : Type 0 where
  pos : ℕ → ℤ
  negsuc : ℕ → ℤ

unfoldable pub int_eq : ℤ → ℤ → Bool
int_eq (pos m) (pos n) = nat_eq m n
int_eq (negsuc m) (negsuc n) = nat_eq m n
int_eq _ _ = false

pub int_eq_iff : (a b : ℤ) → (int_eq a b ≡ true) ↔ (a ≡ b)
unfolding int_eq
int_eq_iff (pos m) (pos n) = ground arith
int_eq_iff (negsuc m) (negsuc n) = ground arith
int_eq_iff (pos m) (negsuc n) = ground arith
int_eq_iff (negsuc m) (pos n) = ground arith

instance abbrev pub ℤ-Eq : Eq ℤ
ℤ-Eq = record { same = int_eq; same_iff = int_eq_iff }

-- `i64::MAX` and `i64::MIN` bound what is read
abbrev positive : Option ℕ → Option ℤ
positive none = none
positive (some n) = if ltb n (2 ^ 63) then some (pos n) else none

abbrev negative : Option ℕ → Option ℤ
negative none = none
negative (some zero) = some (pos 0)
negative (some (suc n)) = if ltb n (2 ^ 63) then some (negsuc n) else none

-- `str::parse::<i64>`: one or more digits behind an optional sign
unfoldable pub parse_i64 : Text → Option ℤ
unfolding parse_digits
parse_i64 [] = none
parse_i64 (c ∷ []) = positive (parse_digits 0 (c ∷ []))
parse_i64 (c ∷ d ∷ s) =
    if nat_eq c b'-'
    then negative (parse_digits 0 (d ∷ s))
    else if nat_eq c b'+'
    then positive (parse_digits 0 (d ∷ s))
    else positive (parse_digits 0 (c ∷ d ∷ s))

-- `Display` of an `i64`
unfoldable pub show_int : ℤ → Text
show_int (pos n) = show n
show_int (negsuc n) = b'-' ∷ show (suc n)
