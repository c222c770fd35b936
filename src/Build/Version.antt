-- ===== src/Build/Version.antt =====
-- The build number and the version check of src/authoring/build.rs.
pub mod Next
pub mod Check
pub mod File
use smrt.Base.{
  ℕ, ◌+◌, ◌-◌, ◌/◌, ◌%◌, max, ap, Bool, true, false, not, ◌||◌, Option, none, some, List, [], ◌∷◌,
  ◌++◌, map, reverse, filter_map, if◌then◌else◌, ◌==◌, ℕ-Eq, ◌>>=◌, all, Text, txt, Text-Eq,
  strip_prefix, split, is_digit, u64_mod, parse_u64, show,
}
use smrt.Base.Results.{Result, ok, err}
use smrt.Domain.Pack.{PackConfig}

-- the counter of a version that was published for this base
unfoldable pub counter : Text → Text → Option ℕ
counter base v = do
  rest ← strip_prefix base v
  digits ← strip_prefix (txt ".") rest
  parse_u64 digits

-- `Iterator::max`
unfoldable pub max_of : List ℕ → Option ℕ
max_of [] = none
max_of (n ∷ ns) = elim (max_of ns) [ none ↦ some n | some m ↦ some (max n m) ]

-- `n + 1` wraps in a release build.
unfoldable pub next_counter : Text → List Text → ℕ
next_counter base existing = elim (max_of (filter_map (counter base) existing)) [
  | none ↦ 0
  | some n ↦ (n + 1) % u64_mod
]

unfoldable pub next_auto_version : Text → List Text → Text
next_auto_version base existing = base ++ (txt "." ++ show (next_counter base existing))

-- the three refusals of `validate_pack_version`
pub data VersionError : Type 0 where
  empty : VersionError
  empty_body : (version : Text) → VersionError
  bad_segment : (segment : Text) → VersionError

abbrev pub is_separator : ℕ → Bool
is_separator c = c == b'-' || c == b'.'

abbrev pub is_nil : Text → Bool
is_nil [] = true
is_nil (c ∷ s) = false

unfoldable pub check_segments : List Text → Option VersionError
check_segments [] = none
check_segments (seg ∷ segs) =
    let rest = check_segments segs in
    if is_nil seg || not (all is_digit seg) then some (bad_segment seg) else rest

abbrev body_from : Text → Option Text → Text
body_from v none = v
body_from v (some body) = body

unfoldable pub body_of : Text → Text
body_of v = body_from v (strip_prefix (txt "SNAPSHOT-") v)

-- `none` is `Ok(())`
unfoldable pub validate_pack_version : Text → Option VersionError
validate_pack_version v =
    if is_nil v
    then some empty
    else if is_nil (body_of v)
    then some (empty_body v)
    else check_segments (split is_separator (body_of v))

-- `str::strip_suffix`
unfoldable pub strip_suffix : Text → Text → Option Text
strip_suffix suffix s = do rest ← strip_prefix (reverse suffix) (reverse s); some (reverse rest)

-- the version that a file of the manifest directory publishes
unfoldable pub published_version : Text → Option Text
published_version name = do
  stem ← strip_suffix (txt ".json") name
  if stem == txt "latest" then none else some stem

-- What `read_dir` answers, and then `next_entry`, one answer after another: an error, or the name of a
-- file, where it is UTF-8. The loop ends at the first error.
unfoldable pub read_names : List (Result (Option Text)) → List Text
read_names [] = []
read_names (err message ∷ entries) = []
read_names (ok none ∷ entries) = read_names entries
read_names (ok (some name) ∷ entries) = name ∷ read_names entries

unfoldable pub existing_versions : Result (List (Result (Option Text))) → List Text
unfolding read_names
existing_versions (err message) = []
existing_versions (ok entries) = filter_map published_version (read_names entries)

pub data Resolved : Type 0 where
  version : Text → Resolved
  refused : VersionError → Resolved

abbrev pub base_of : Option Text → Text
base_of none = txt "0.0"
base_of (some v) = v

-- `existing` is what the directory of manifests lists
unfoldable pub resolve_auto_version : PackConfig → List Text → Resolved
resolve_auto_version cfg existing =
    let resolved = next_auto_version (base_of cfg.version) existing in
    elim (validate_pack_version resolved) [ some e ↦ refused e | none ↦ version resolved ]
