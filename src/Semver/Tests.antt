-- ===== src/Semver/Tests.antt =====
-- Cases of the unit tests in src/registry/semver.rs, and the theorems at concrete versions.
use smrt.Base.{
  List, ℕ, Ordering, ◌≡◌, refl, ◌↔◌, true, false, none, some, [], ◌∷◌, ℕ-Eq, txt, text_eq, Text-Eq,
  is_whitespace, trim_start, trim, strip_prefix, split_once, split, is_digit, parse_digits,
  parse_u64, parse_digits,
}
use smrt.Semver.{
  cmp, cmp_parts, cmp_from, parse, drop_v, collect, in_range, interval, inner, above, below,
  split_op, holds, to_ascii_lower,
}
use smrt.Semver.Order.{cmp_trans}
use smrt.Semver.Window.{in_range-window_iff, window, IsAbove, IsBelow}

maven_intervals :
    (in_range (txt "2.0") (txt "[1.0,2.0)") ≡ some false)
    × (in_range (txt "2.0") (txt "[1.0, 2.0]") ≡ some true)
    × (in_range (txt "1.5") (txt "(,2.0]") ≡ some true)
    × (in_range (txt "1.1") (txt "[1.0]") ≡ some false)
    × (in_range (txt "1.2.0") (txt ">=1.0.0") ≡ some true)
    × (in_range (txt "1.1") (txt "1.2") ≡ some false)
    × (in_range (txt "9.9.9") (txt "~1.2.0") ≡ some true)
    × (in_range (txt "1.0") (txt " Any") ≡ none)
    × (in_range (txt "1.12.2-4.1.0") (txt "[4.0,)") ≡ none)
    × (in_range (txt "0.6.13+mc1.21.1") (txt "[0.8.12+mc1.21.1,)") ≡ some false)
unfolding in_range interval inner above below split_op holds to_ascii_lower cmp cmp_parts cmp_from
    parse drop_v collect txt trim trim_start split_once split parse_u64 parse_digits strip_prefix
    is_digit is_whitespace text_eq
maven_intervals = (refl, refl, refl, refl, refl, refl, refl, refl, refl, refl)

cmp_trans_example : cmp (txt "1.0") (txt "1.2") ≡ some Ordering.lt
unfolding cmp cmp_parts cmp_from parse drop_v collect txt trim trim_start split_once split parse_u64
    parse_digits strip_prefix is_digit is_whitespace
cmp_trans_example = cmp_trans (txt "1.0") (txt "1.1") (txt "1.2") Ordering.lt refl refl

abbrev one_zero : List ℕ
one_zero = 1 ∷ 0 ∷ []

abbrev one : List ℕ
one = 1 ∷ []

in_range-window_iff_example :
    (in_range (txt "1.5") (window true (txt "1.0") (txt " 2.0") false) ≡ some true)
    ↔ (IsAbove true (txt "1.5") (trim (txt "1.0")) × IsBelow false (txt "1.5") (trim (txt " 2.0")))
unfolding txt
in_range-window_iff_example =
    in_range-window_iff (txt "1.5") (txt "1.0") (txt " 2.0") true false refl
