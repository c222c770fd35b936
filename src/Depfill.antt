-- ===== src/Depfill.antt =====
-- src/authoring/depfill.rs: the dependencies that a save of a pack config pulls in, and those that
-- it keeps and drops.
pub mod Merge
pub mod Revision
pub mod Prune
pub mod Fill
mod Tests
use smrt.Base.{
  ℕ, ◌+◌, ◌-◌, ◌/◌, min, ap, Bool, false, not, ◌&&◌, ◌||◌, Option, none, some, List, [], ◌∷◌, ◌++◌,
  map, if◌then◌else◌, ◌==◌, ℕ-Eq, length, drop, retain, any, all, contains, Text, txt, Text-Eq,
  text_lt,
}
use smrt.Keyed.{last_with}
use smrt.Worklist.{push_all, drain, load}
use smrt.Domain.Manifest.{Requirement, Display, default_display}
use smrt.Domain.Pack.{SourceDecl, modrinth, smrt_cache, smrt_static, DeclaredMod, PackConfig}

-- `MissingTarget` and `DepFillPlan` of src/authoring/resolve.rs
pub record MissingTarget : Type 0 where
  pub selector : Text
  pub version_range : Option Text
  pub pinned_version : Option Text

pub record DepFillPlan : Type 0 where
  pub missing : List MissingTarget
  pub requires : List (Text × Text)
  pub suggested : List Text

unfoldable pub source_identity : SourceDecl → Text
source_identity (modrinth project_id _) = txt "m:" ++ project_id
source_identity (smrt_cache sha1) = txt "c:" ++ sha1
source_identity (smrt_static rel_path) = txt "s:" ++ rel_path

abbrev pub file_key : DeclaredMod → Text
file_key m = txt "f:" ++ m.filename

-- the keys that `merge_pulled` inserts for the mods of the incoming config
unfoldable pub present_keys : List DeclaredMod → List Text
present_keys [] = []
present_keys (m ∷ ms) = source_identity m.source ∷ file_key m ∷ present_keys ms

unfoldable pub is_missing : List Text → DeclaredMod → Bool
is_missing present m =
    not (contains present (source_identity m.source)) && not (contains present (file_key m))

abbrev pub is_pulled : DeclaredMod → Bool
is_pulled m = m.pulled

unfoldable pub merge_pulled : PackConfig → PackConfig → PackConfig
merge_pulled saved incoming = record incoming {
  mods =
      incoming.mods
      ++ retain (is_missing (present_keys incoming.mods)) (retain is_pulled saved.mods);
}

abbrev pub has_project : Text → SourceDecl → Bool
has_project project_id (modrinth p _) = p == project_id
has_project project_id _ = false

abbrev has_sha1 : Text → SourceDecl → Bool
has_sha1 sha1 (smrt_cache s) = s == sha1
has_sha1 sha1 _ = false

abbrev same_source : List DeclaredMod → SourceDecl → Bool
same_source mods (modrinth project_id _) = any (λ m. has_project project_id m.source) mods
same_source mods (smrt_cache sha1) = any (λ m. has_sha1 sha1 m.source) mods
same_source mods (smrt_static rel_path) = false

unfoldable pub already_present : PackConfig → DeclaredMod → Bool
already_present cfg decl =
    any (λ (m : DeclaredMod). m.filename == decl.filename) cfg.mods
    || same_source cfg.mods decl.source

-- `sort` of strings, by insertion
unfoldable pub insert_sorted : Text → List Text → List Text
insert_sorted x [] = x ∷ []
insert_sorted x (y ∷ ys) =
    let rest = insert_sorted x ys in if text_lt y x then y ∷ rest else x ∷ y ∷ ys

unfoldable pub sort : List Text → List Text
sort [] = []
sort (x ∷ xs) = insert_sorted x (sort xs)

-- `dedup`: it drops an entry that equals the one before it
unfoldable pub dedup_after : Text → List Text → List Text
dedup_after x [] = []
dedup_after x (y ∷ ys) = let rest = dedup_after y ys in if y == x then rest else y ∷ rest

unfoldable pub dedup : List Text → List Text
dedup [] = []
dedup (x ∷ xs) = x ∷ dedup_after x xs

-- the dependencies of one mod, in the order of the edges
unfoldable pub deps_from : List (Text × Text) → Text → List Text
deps_from [] filename = []
deps_from ((from, dep) ∷ rest) filename =
    let deps = deps_from rest filename in if from == filename then dep ∷ deps else deps

abbrev pub requirement : Text → Requirement
requirement f = record { filename = f; version_range = none; optional = false }

abbrev display_or_default : Option Display → Display
display_or_default none = default_display
display_or_default (some d) = d

unfoldable pub set_requires : List Text → Option Display → Option Display
set_requires [] none = none
set_requires [] (some d) = some (record d { requires = [] })
set_requires (f ∷ fs) display =
    some (record (display_or_default display) { requires = map requirement (f ∷ fs) })

unfoldable pub with_requires : List (Text × Text) → DeclaredMod → DeclaredMod
with_requires requires m = record m {
  display = set_requires (dedup (sort (deps_from requires m.filename))) m.display;
}

unfoldable pub apply_requires : PackConfig → List (Text × Text) → PackConfig
apply_requires cfg requires = record cfg { mods = map (with_requires requires) cfg.mods }

abbrev pub is_hard : Requirement → Bool
is_hard r = not r.optional

abbrev pub name_of : Requirement → Text
name_of r = r.filename

abbrev pub hard_of : Option Display → List Text
hard_of none = []
hard_of (some d) = map name_of (retain is_hard d.requires)

abbrev pub filename_of : DeclaredMod → Text
filename_of m = m.filename

abbrev targets_of : Option DeclaredMod → List Text
targets_of none = []
targets_of (some m) = hard_of m.display

-- `hard_edges`, by the filename of a mod
unfoldable pub hard_edges : List DeclaredMod → Text → List Text
hard_edges mods f = targets_of (last_with filename_of f mods)

abbrev pub declared : DeclaredMod → Bool
declared m = not m.pulled

-- the filenames that no save pulled in
unfoldable pub roots : List DeclaredMod → List Text
roots mods = map filename_of (retain declared mods)

-- a bound on the rounds of the worklist loop
unfoldable pub prune_fuel : List DeclaredMod → ℕ
prune_fuel mods =
    length (push_all (roots mods) []) + load (hard_edges mods) [] (map filename_of mods)

unfoldable pub reachable : List DeclaredMod → Option (List Text)
reachable mods = drain (hard_edges mods) (prune_fuel mods) [] (push_all (roots mods) [])

unfoldable pub prune_orphaned_pulled : PackConfig → Option PackConfig
prune_orphaned_pulled cfg = elim (reachable cfg.mods) [
  | some set ↦
      some (record cfg { mods = retain (λ m. not m.pulled || contains set m.filename) cfg.mods })
  | none ↦ none
]
