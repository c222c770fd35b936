-- ===== src/Domain/Version.antt =====
-- src/domain/version.rs: the release channels, and the order of pack versions.
pub mod Order
pub mod Channel
use smrt.Base.{
  ℕ, zero, suc, ◌-◌, ◌/◌, max, compare, Ordering, ap, Bool, Option, none, some, List, [], ◌∷◌, map,
  if◌then◌else◌, ◌==◌, ℕ-Eq, is_some, length, Text, txt, Text-Eq, strip_prefix, split, parse_u64,
}

pub data VersionChannel : Type 0 where
  release beta alpha : VersionChannel

unfoldable pub channel_str : VersionChannel → Text
channel_str release = txt "release"
channel_str beta = txt "beta"
channel_str alpha = txt "alpha"

unfoldable pub parse_channel : Text → Option VersionChannel
parse_channel s =
    if s == txt "release"
    then some release
    else if s == txt "beta"
    then some beta
    else if s == txt "alpha"
    then some alpha
    else none

unfoldable pub legacy_version_channel : Text → VersionChannel
legacy_version_channel version =
    if is_some (strip_prefix (txt "SNAPSHOT-") version) then beta else release

abbrev pub is_dot : ℕ → Bool
is_dot c = c == b'.'

-- a segment that is no number degrades to 0
unfoldable pub segment : Text → ℕ
segment seg = elim (parse_u64 seg) [ some n ↦ n | none ↦ 0 ]

unfoldable pub pack_version_tuple : Text → List ℕ
pack_version_tuple version = map segment (split is_dot version)

-- `Vec::resize`
unfoldable pub resize : ℕ → ℕ → List ℕ → List ℕ
resize zero v xs = []
resize (suc n) v [] = v ∷ resize n v []
resize (suc n) v (x ∷ xs) = x ∷ resize n v xs

-- `Ord` of vectors: lexicographic, and a proper prefix comes first
unfoldable pub vec_cmp : List ℕ → List ℕ → Ordering
vec_cmp [] [] = Ordering.eq
vec_cmp [] (y ∷ ys) = Ordering.lt
vec_cmp (x ∷ xs) [] = Ordering.gt
vec_cmp (x ∷ xs) (y ∷ ys) =
    let rest = vec_cmp xs ys in elim (compare x y) [ Ordering.eq ↦ rest | ord ↦ ord ]

unfoldable pub compare_tuples : List ℕ → List ℕ → Ordering
compare_tuples at bt =
    let n = max (length at) (length bt) in vec_cmp (resize n 0 at) (resize n 0 bt)

unfoldable pub compare_pack_versions : Text → Text → Ordering
compare_pack_versions a b = compare_tuples (pack_version_tuple a) (pack_version_tuple b)
