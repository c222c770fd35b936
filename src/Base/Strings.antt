-- ===== src/Base/Strings.antt =====
-- Rust's `String` and `str` as lists of code points, with the methods that the program calls.
use Prim.Native.Nat.{ℕ, zero, suc, ◌+◌, ◌-◌, ◌*◌, ◌/◌, ◌%◌, ◌^◌}
use Prim.Native.Char.{code}
use Prim.Native.String.{String}
use mathlib.Core.Path.{◌≡◌, refl}
use mathlib.Core.Logic.{◌↔◌}
use mathlib.Core.Bool.{Bool, true, false, ◌&&◌, ◌||◌}
use mathlib.Core.List.{List, [], ◌∷◌, ◌++◌, reverse}
use mathlib.Core.Option.{Option, none, some}
use native.Mathlib.Omega.{arith}
use smrt.Base.Tests.{ltb, leb, nat_eq, if◌then◌else◌, Eq, ℕ-Eq}

abbrev pub Text : Type 0
Text = List ℕ

-- The code points of a literal.
unfoldable pub txt : String → Text
txt String.[] = []
txt (String.◌∷◌ c s) = code c ∷ txt s

unfoldable pub text_eq : Text → Text → Bool
text_eq [] [] = true
text_eq (a ∷ s) (b ∷ t) = nat_eq a b && text_eq s t
text_eq _ _ = false

pub text_eq_iff : (s t : Text) → (text_eq s t ≡ true) ↔ (s ≡ t)
unfolding text_eq
text_eq_iff [] [] = (λ h. refl, λ h. refl)
text_eq_iff [] (b ∷ t) = ground arith
text_eq_iff (a ∷ s) [] = ground arith
text_eq_iff (a ∷ s) (b ∷ t) = ground (arith, text_eq_iff s t)

instance abbrev pub Text-Eq : Eq Text
Text-Eq = record { same = text_eq; same_iff = text_eq_iff }

pub append-cancel : (p s t : Text) → (p ++ s ≡ p ++ t) → s ≡ t
append-cancel [] s t h = h
append-cancel (c ∷ p) s t h = append-cancel p s t (cc)

pub code_ne : (a b : ℕ) (s t : Text) → nat_eq a b ≡ false → ¬ (a ∷ s ≡ b ∷ t)
code_ne a b s t h e = ground arith

-- `char::is_whitespace`: the code points with the property White_Space.
unfoldable pub is_whitespace : ℕ → Bool
is_whitespace c =
    (leb 9 c && leb c 13)
    || nat_eq c 32
    || nat_eq c 133
    || nat_eq c 160
    || nat_eq c 5760
    || (leb 8192 c && leb c 8202)
    || nat_eq c 8232
    || nat_eq c 8233
    || nat_eq c 8239
    || nat_eq c 8287
    || nat_eq c 12288

unfoldable pub trim_start : Text → Text
trim_start [] = []
trim_start (c ∷ s) = let rest = trim_start s in if is_whitespace c then rest else c ∷ s

unfoldable pub trim : Text → Text
unfolding trim_start
trim s = reverse (trim_start (reverse (trim_start s)))

unfoldable pub strip_prefix : Text → Text → Option Text
strip_prefix [] s = some s
strip_prefix (p ∷ ps) [] = none
strip_prefix (p ∷ ps) (c ∷ s) = let rest = strip_prefix ps s in if nat_eq p c then rest else none

-- `split_once`: what stands before the first `sep`, and what stands behind it.
unfoldable pub split_once : ℕ → Text → Text × Option Text
split_once sep [] = ([], none)
split_once sep (c ∷ s) =
    let rest = split_once sep s in if nat_eq c sep then ([], some s) else (c ∷ rest.0, rest.1)

-- A piece in front of the pieces of the rest, where `c` goes on the first of them.
abbrev pub prepend : ℕ → List Text → List Text
prepend c [] = (c ∷ []) ∷ []
prepend c (piece ∷ pieces) = (c ∷ piece) ∷ pieces

-- `str::split` at each code point that passes the test: n separators make n + 1 pieces.
unfoldable pub split : (ℕ → Bool) → Text → List Text
split sep [] = [] ∷ []
split sep (c ∷ s) = let rest = split sep s in if sep c then [] ∷ rest else prepend c rest

unfoldable pub is_digit : ℕ → Bool
is_digit c = leb b'0' c && leb c b'9'

abbrev pub u64_mod : ℕ
u64_mod = 2 ^ 64

-- the loop of `u64::from_str`, which stops at a code point that is no digit and at an overflow
unfoldable pub parse_digits : ℕ → Text → Option ℕ
parse_digits acc [] = some acc
parse_digits acc (c ∷ s) = elim (is_digit c && ltb (acc * 10 + (c - b'0')) u64_mod) [
  | true ↦ parse_digits (acc * 10 + (c - b'0')) s
  | false ↦ none
]

-- `str::parse::<u64>`: one or more digits behind an optional `+`, below 2^64.
unfoldable pub parse_u64 : Text → Option ℕ
unfolding parse_digits
parse_u64 [] = none
parse_u64 (c ∷ []) = parse_digits 0 (c ∷ [])
parse_u64 (c ∷ d ∷ s) = if nat_eq c b'+' then parse_digits 0 (d ∷ s) else parse_digits 0 (c ∷ d ∷ s)

-- `Display` of an unsigned number.
unfoldable pub show_from : ℕ → ℕ → Text
show_from zero n = []
show_from (suc f) n =
    let rest = show_from f (n / 10) in
    if ltb n 10 then (b'0' + n) ∷ [] else rest ++ ((b'0' + n % 10) ∷ [])

unfoldable pub show : ℕ → Text
unfolding show_from
show n = show_from (suc n) n

-- `Ord` of strings: lexicographic by code points, as by UTF-8 bytes.
unfoldable pub text_lt : Text → Text → Bool
text_lt [] [] = false
text_lt [] (b ∷ t) = true
text_lt (a ∷ s) [] = false
text_lt (a ∷ s) (b ∷ t) = ltb a b || (nat_eq a b && text_lt s t)
