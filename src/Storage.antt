-- ===== src/Storage.antt =====
-- src/storage.rs: which names from a URL may reach the filesystem, and the paths that are built of them.
pub mod Paths
mod Tests
use smrt.Base.{
  ℕ, ◌+◌, ◌-◌, ◌/◌, ap, Bool, true, false, not, ◌&&◌, ◌||◌, Option, none, some, [], ◌∷◌, ◌++◌, ltb,
  leb, nat_eq, if◌then◌else◌, ◌==◌, ℕ-Eq, is_some, length, all, contains, Text, txt, Text-Eq,
  strip_prefix, split_once, split, is_digit, ℤ-Eq, as_bytes,
}
use smrt.Http.{bad_request, Reply, fail, done}

abbrev between : ℕ → ℕ → ℕ → Bool
between low high c = leb low c && leb c high

-- `char::is_ascii_alphanumeric`
unfoldable pub is_alphanumeric : ℕ → Bool
is_alphanumeric c = between 48 57 c || between 65 90 c || between 97 122 c

-- `char::is_ascii_hexdigit`
unfoldable pub is_hexdigit : ℕ → Bool
is_hexdigit c = between 48 57 c || between 65 70 c || between 97 102 c

abbrev pub is_empty : Text → Bool
is_empty [] = true
is_empty (c ∷ s) = false

-- `str::len`, in bytes
unfoldable pub len : Text → ℕ
unfolding as_bytes
len s = length (as_bytes s)

abbrev pub starts_with : ℕ → Text → Bool
starts_with c [] = false
starts_with c (d ∷ s) = nat_eq d c

unfoldable pub is_hex : Text → Bool
unfolding is_hexdigit
is_hex s = not (is_empty s) && all is_hexdigit s

unfoldable pub is_safe_job_id : Text → Bool
unfolding is_hexdigit len
is_safe_job_id s =
    not (is_empty s)
    && leb (len s) 64
    && all (λ c. (is_hexdigit c && not (between 65 90 c)) || nat_eq c b'-') s

abbrev pub is_id_char : ℕ → Bool
is_id_char c = is_alphanumeric c || nat_eq c b'-' || nat_eq c b'_' || nat_eq c b'.'

unfoldable pub is_flat_id : Text → Bool
unfolding is_alphanumeric len
is_flat_id s = not (is_empty s) && leb (len s) 64 && not (starts_with b'.' s) && all is_id_char s

abbrev pub community : Text × Option Text → Bool
community (uid, none) = false
community (uid, some pack) = not (is_empty uid) && all is_digit uid && is_flat_id pack

abbrev pub namespaced : Text → Option Text → Bool
namespaced s none = not (s == txt "u") && is_flat_id s
namespaced s (some rest) = community (split_once b'/' rest)

unfoldable pub is_safe_id : Text → Bool
unfolding is_flat_id split_once strip_prefix is_digit
is_safe_id s = namespaced s (strip_prefix (txt "u/") s)

unfoldable pub is_safe_version : Text → Bool
unfolding is_safe_id
is_safe_version s = is_safe_id s

unfoldable pub is_commit_id : Text → Bool
unfolding is_hexdigit len
is_commit_id s = nat_eq (len s) 40 && all is_hexdigit s

abbrev pub is_segment_char : ℕ → Bool
is_segment_char c = is_alphanumeric c || contains (txt "-_. ()+,[]") c

abbrev pub is_segment : Text → Bool
is_segment segment =
    not (is_empty segment) && not (starts_with b'.' segment) && all is_segment_char segment

unfoldable pub is_safe_rel_path : Text → Bool
unfolding is_alphanumeric len split
is_safe_rel_path rel =
    if is_empty rel || ltb 512 (len rel)
    then false
    else if starts_with b'/' rel || contains rel b'\\'
    then false
    else all is_segment (split (λ c. nat_eq c b'/') rel)

unfoldable pub validate_rel_path : Text → Reply Text
unfolding is_safe_rel_path
validate_rel_path rel =
    if is_safe_rel_path rel then done rel else fail (bad_request (txt "invalid rel_path"))

-- `Path::join`: an absolute path replaces what it is joined to
unfoldable pub join_path : Text → Text → Text
join_path root name = if starts_with b'/' name then name else root ++ (b'/' ∷ name)

unfoldable pub pack_static_path : Text → Text → Text → Reply Text
unfolding is_safe_id validate_rel_path join_path
pack_static_path root pack_id rel_path =
    if not (is_safe_id pack_id)
    then fail (bad_request (txt "invalid pack id"))
    else elim (validate_rel_path rel_path) [
      | fail error ↦ fail error
      | done safe ↦ done (
          join_path (join_path (join_path (join_path root (txt "packs")) pack_id) (txt "static"))
            safe)
    ]

-- `sha1.get(..2).unwrap_or(sha1)`
unfoldable pub sha1_shard : Text → Text
sha1_shard [] = []
sha1_shard (a ∷ []) = a ∷ []
sha1_shard (a ∷ b ∷ rest) = a ∷ b ∷ []

unfoldable pub cache_jar_path_in : Text → Text → Option Text
unfolding is_hex len join_path sha1_shard
cache_jar_path_in root sha1 =
    if not (nat_eq (len sha1) 40) || not (is_hex sha1)
    then none
    else some (
        join_path (join_path (join_path root (txt "cache")) (sha1_shard sha1)) (sha1 ++ txt ".jar"))

abbrev or_bad : Text → Option Text → Reply Text
or_bad message none = fail (bad_request message)
or_bad message (some path) = done path

unfoldable pub cache_jar_path : Text → Text → Text → Reply Text
unfolding is_hex len cache_jar_path_in strip_prefix
cache_jar_path root prefix sha1 =
    if not (is_hex prefix) || not (nat_eq (len prefix) 2)
    then fail (bad_request (txt "invalid sha1 prefix"))
    else if not (is_some (strip_prefix prefix sha1))
    then fail (bad_request (txt "prefix does not match sha1"))
    else or_bad (txt "invalid sha1") (cache_jar_path_in root sha1)
