-- ===== src/Jobs/Tests.antt =====
-- The theorems on src/jobs.rs at concrete jobs and at a build whose services all answer.
use smrt.Base.{some, refl, true, false, none, [], ◌∷◌, Memᴰ, ℕ-Eq, txt, Text-Eq, ℤ-Eq}
use mathlib.Core.List.Memᴰ
use smrt.Base.Results.{ok}
use smrt.Domain.Version.{beta}
use smrt.Domain.Manifest.{PackManifest}
use smrt.Domain.Pack.{PackConfig, official, draft}
use smrt.Gate.{ResolveReport}
use smrt.Jobs.{Job, running, create}
use smrt.Jobs.Tail.{create-running_stays}
use smrt.Jobs.Publish.{BuildRequest, BuildState, Services}

abbrev first_job : Job {0} Unit
first_job = record {
  id = txt "job";
  kind = txt "build";
  pack_id = txt "industrial";
  log = [];
  status = running;
  result = none;
  blocked = [];
}

create-running_stays_example :
    Memᴰ first_job (create (first_job ∷ []) (txt "job2") (txt "build") (txt "industrial"))
unfolding txt
create-running_stays_example =
    create-running_stays (first_job ∷ []) (txt "job2") (txt "build") (txt "industrial") first_job
      (λ y m. absurd (Memᴰ.not-nil m), tt) (Memᴰ.head refl) refl (λ e. cc)

abbrev config : PackConfig
config = record {
  pack_id = txt "industrial";
  display_name = txt "Industrial";
  tagline = [];
  minecraft_version = txt "1.12.2";
  loader = record { name = txt "forge"; version = txt "14.23.5.2860" };
  java_major = 8;
  version = none;
  tags = [];
  featured = false;
  mods = [];
  assets = [];
  auth = none;
  pack_meta = record {
    icon_url = none;
    banner_url = none;
    gallery_urls = [];
    description_md = none;
  };
  owner = 0;
  tier = official;
  visibility = draft;
  fork_of = none;
}

abbrev clean : ResolveReport
clean = record {
  missing = [];
  conflicts = [];
  optional_conflicts = [];
  version_issues = [];
  loader_version_issues = [];
  loader_mismatch = [];
  mixin_gaps = [];
  unresolved = [];
  forced_client_attempts = [];
}

abbrev manifest : PackManifest
manifest = record {
  schema_version = 2;
  pack_id = txt "industrial";
  pack_version = txt "0.1.0";
  channel = none;
  changelog = none;
  changelog_i18n = none;
  generated_at = [];
  fingerprint = none;
  checks = none;
  built_from = none;
  minecraft = record { version = txt "1.12.2" };
  loader = record { name = txt "forge"; version = txt "14.23.5.2860" };
  java = record { major = 8 };
  auth = none;
  mods = [];
  assets = [];
}

abbrev answering : Services {0} Unit
answering = record {
  load_commit_config = λ p c. ok config;
  load_pack_config = λ p. ok config;
  enrich_from_mcmod_info = λ c. ok c;
  infer_requires_from_mcmod_info = λ c. ok c;
  registry_check = λ c. ok (ok (tt, clean));
  modrinth = ok tt;
  loader_windows = λ c r. (r, some []);
  build_manifest = λ c r k. ok (manifest, []);
  write = λ ws w. ok tt;
}

abbrev request : BuildRequest
request = record {
  dry_run = true;
  pack_version = none;
  channel = beta;
  changelog = none;
  changelog_i18n = none;
  override_checks = false;
  overwrite_version = false;
  from_commit = none;
  actor = none;
}

abbrev begun : BuildState
begun = record { pack_id = txt "industrial"; log = []; blocked = []; result = none; writes = [] }

abbrev publishing : BuildRequest
publishing = record request { dry_run = false }
