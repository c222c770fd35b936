-- ===== src/Gate.antt =====
-- src/authoring/gate.rs: what a build is allowed to publish, and the parts of the resolve report
-- (src/authoring/resolve.rs) that it judges.
pub mod Verdict
mod Tests
use smrt.Base.{
  ◌+◌, ◌-◌, ◌/◌, ap, Bool, false, not, ◌||◌, Option, none, some, List, [], ◌∷◌, ◌++◌, map,
  if◌then◌else◌, ◌==◌, ℕ-Eq, length, retain, all, Text, txt, Text-Eq, show,
}
use smrt.Domain.Manifest.{BuildChecks}

pub record MissingDep : Type 0 where
  pub target : Text
  pub needed_by : List Text
  pub version_range : Option Text
  pub source : Text
  pub reason : Option Text

pub record ActiveConflict : Type 0 where
  pub a : Text
  pub b : Text
  pub hard : Bool
  pub source : Text

pub record MixinGap : Type 0 where
  pub filename : Text
  pub config : Text
  pub needed : Text
  pub owner : Text

pub record VersionIssue : Type 0 where
  pub target : Text
  pub filename : Text
  pub present_version : Text
  pub required_range : Text
  pub needed_by : List Text

pub record LoaderVersionIssue : Type 0 where
  pub filename : Text
  pub loader : Text
  pub pack_version : Text
  pub required_range : Text

pub record LoaderMismatch : Type 0 where
  pub filename : Text
  pub artifact_loaders : List Text
  pub pack_loader : Text
  pub bridged_by : Option Text

pub record ForcedClientEdge : Type 0 where
  pub filename : Text
  pub needed_by : List Text
  pub source : Text

-- the fields of the report that `check` reads
pub record ResolveReport : Type 0 where
  pub missing : List MissingDep
  pub conflicts : List ActiveConflict
  pub optional_conflicts : List ActiveConflict
  pub version_issues : List VersionIssue
  pub loader_version_issues : List LoaderVersionIssue
  pub loader_mismatch : List LoaderMismatch
  pub mixin_gaps : List MixinGap
  pub unresolved : List Text
  pub forced_client_attempts : List ForcedClientEdge

-- `[String]::join`
unfoldable pub join : Text → List Text → Text
join sep [] = []
join sep (x ∷ []) = x
join sep (x ∷ y ∷ xs) = x ++ (sep ++ join sep (y ∷ xs))

-- `format!`: the pieces of a line, one after another
abbrev pub concat : List Text → Text
concat [] = []
concat (x ∷ xs) = x ++ concat xs

unfoldable pub declared : Text → Bool
declared source = not (source == txt "inferred" || source == txt "harvested")

abbrev window_of : Option Text → Text
window_of none = []
window_of (some r) = txt " " ++ r

abbrev reason_of : Option Text → Text
reason_of none = []
reason_of (some r) =
    if r == txt "external" then txt " (it lives outside both Modrinth and the mirror)" else []

unfoldable pub missing_line : MissingDep → Text
missing_line m = concat (
    txt "unmet hard dependency: "
    ∷ m.target
    ∷ window_of m.version_range
    ∷ txt " -- required by "
    ∷ join (txt ", ") m.needed_by
    ∷ txt " ("
    ∷ m.source
    ∷ txt ")"
    ∷ reason_of m.reason
    ∷ [])

unfoldable pub inferred_line : MissingDep → Text
inferred_line m =
    missing_line m
    ++ txt "; derived from bytecode, so it may be an optional integration rather than a dependency"

unfoldable pub mismatch_line : LoaderMismatch → Text
mismatch_line l = concat (
    l.filename
    ∷ txt " is built for "
    ∷ join (txt "/") l.artifact_loaders
    ∷ txt " -- this pack runs "
    ∷ l.pack_loader
    ∷ txt " and nothing present bridges it"
    ∷ [])

unfoldable pub mixin_line : MixinGap → Text
mixin_line g = concat (
    g.filename
    ∷ txt " patches "
    ∷ g.needed
    ∷ txt ", which the "
    ∷ g.owner
    ∷ txt " in this pack no longer has ("
    ∷ g.config
    ∷ txt ")"
    ∷ [])

abbrev severity_of : Bool → Text
severity_of hard = if hard then txt "incompatible" else txt "discouraged together"

unfoldable pub conflict_line : Text → ActiveConflict → Text
conflict_line ending c = concat (
    c.a
    ∷ txt " and "
    ∷ c.b
    ∷ txt " are marked "
    ∷ severity_of c.hard
    ∷ txt " ("
    ∷ c.source
    ∷ ending
    ∷ [])

unfoldable pub version_line : VersionIssue → Text
version_line v = concat (
    v.filename
    ∷ txt " ships "
    ∷ v.present_version
    ∷ txt " for "
    ∷ v.target
    ∷ txt ", outside the "
    ∷ v.required_range
    ∷ txt " that "
    ∷ join (txt ", ") v.needed_by
    ∷ txt " declares"
    ∷ [])

unfoldable pub loader_line : LoaderVersionIssue → Text
loader_line l = concat (
    l.filename
    ∷ txt " needs "
    ∷ l.loader
    ∷ txt " "
    ∷ l.required_range
    ∷ txt ", and this pack pins "
    ∷ l.pack_version
    ∷ [])

unfoldable pub forced_line : ForcedClientEdge → Text
forced_line f = concat (
    f.filename
    ∷ txt " is client-side, and "
    ∷ join (txt ", ") f.needed_by
    ∷ txt " declares a hard dependency on it ("
    ∷ f.source
    ∷ txt ") -- a client mod is never force-installed, so that dependency is not enforced"
    ∷ [])

unfoldable pub unresolved_lines : List Text → List Text
unresolved_lines [] = []
unresolved_lines (f ∷ fs) =
    concat (
      txt "not identified in the registry, so nothing above was checked for "
      ∷ show (length (f ∷ fs))
      ∷ txt ": "
      ∷ join (txt ", ") (f ∷ fs)
      ∷ [])
    ∷ []

abbrev is_declared : MissingDep → Bool
is_declared m = declared m.source

abbrev is_inferred : MissingDep → Bool
is_inferred m = not (declared m.source)

-- the two lists, in the order in which the loops push onto them
unfoldable pub check : ResolveReport → BuildChecks
check report = record {
  blocking =
      map missing_line (retain is_declared report.missing)
      ++ (map mismatch_line report.loader_mismatch
          ++ (map mixin_line report.mixin_gaps
              ++ (map version_line report.version_issues
                  ++ map loader_line report.loader_version_issues)));
  advisory =
      map inferred_line (retain is_inferred report.missing)
      ++ (map (conflict_line (txt "), and both are enabled by default")) report.conflicts
          ++ (map
                (conflict_line
                  (txt "); one ships opted out, so it only bites if that one is enabled"))
                report.optional_conflicts
              ++ (map forced_line report.forced_client_attempts
                  ++ unresolved_lines report.unresolved)));
  overridden = false;
}
