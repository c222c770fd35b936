-- ===== src/Gate/Tests.antt =====
-- The theorems on src/authoring/gate.rs at a report with an inferred and a declared dependency.
use smrt.Base.{◌≡◌, ◌↔◌, none, [], ◌∷◌, Memᴰ, ℕ-Eq, txt, Text-Eq}
use Prim.Native.String.{String}
use smrt.Gate.{MissingDep, ResolveReport, check}
use smrt.Gate.Verdict.{IsDerived, check_clear_iff}

abbrev missing : String → MissingDep
missing source = record {
  target = txt "architectury";
  needed_by = txt "app.jar" ∷ [];
  version_range = none;
  source = txt source;
  reason = none;
}

abbrev report : ResolveReport
report = record {
  missing = missing "inferred" ∷ missing "modrinth" ∷ [];
  conflicts = [];
  optional_conflicts = [];
  version_issues = [];
  loader_version_issues = [];
  loader_mismatch = [];
  mixin_gaps = [];
  unresolved = txt "odd.jar" ∷ txt "even.jar" ∷ [];
  forced_client_attempts = [];
}

check_clear_iff_example : ((check report).blocking ≡ []) ↔ (
    ((m : MissingDep) → Memᴰ m report.missing → IsDerived m)
    × (report.loader_mismatch ≡ [])
    × (report.mixin_gaps ≡ [])
    × (report.version_issues ≡ [])
    × (report.loader_version_issues ≡ []))
check_clear_iff_example = check_clear_iff report
