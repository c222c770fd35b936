-- ===== src/Jobs/Publish.antt =====
-- src/jobs.rs: `run_build`, from the authoring config to the published manifest, and make_pack_summary of
-- src/authoring/build.rs. The services that it calls are the operations of `Services`, each of which may
-- fail; what they do is the business of other modules. The state is what the job logs and holds, and
-- what has been written to the storage, the registry and the audit trail, the last write last.
pub mod Order
pub mod Gate
pub mod Cleared
use smrt.Base.Results.{Result, err, ok}
use smrt.Accounts.{Identity}
use smrt.Domain.Version.{VersionChannel}
use smrt.Domain.Manifest.{PackManifest, BuildChecks, checks_is_empty}
use smrt.Domain.Pack.{PackConfig, PackSummary}
use smrt.Gate.{ResolveReport, check, join, concat}
use smrt.Base.{
  suc, ◌+◌, ◌-◌, ◌/◌, min, ap, Bool, true, not, Option, none, some, List, [], ◌∷◌, ◌++◌, map,
  if◌then◌else◌, ℕ-Eq, length, any, all, Text, txt, Text-Eq, show, ℤ-Eq,
}

unfoldable pub make_pack_summary : PackConfig → Text → PackSummary
make_pack_summary cfg pack_version = record {
  pack_id = cfg.pack_id;
  display_name = cfg.display_name;
  tagline = cfg.tagline;
  minecraft_version = cfg.minecraft_version;
  latest_pack_version = pack_version;
  tags = cfg.tags;
  featured = cfg.featured;
  icon_url = cfg.pack_meta.icon_url;
  banner_url = cfg.pack_meta.banner_url;
  gallery_urls = cfg.pack_meta.gallery_urls;
  description_md = cfg.pack_meta.description_md;
  owner = cfg.owner;
  tier = cfg.tier;
  visibility = cfg.visibility;
  fork_of = cfg.fork_of;
  latest_built_at = none;
  latest_channel = none;
}

pub record DryRun : Type 0 where
  pub manifest : PackManifest
  pub summary : PackSummary

pub record BuildRequest : Type 0 where
  pub dry_run : Bool
  pub pack_version : Option Text
  pub channel : VersionChannel
  pub changelog : Option Text
  pub changelog_i18n : Option (List (Text × Text))
  pub override_checks : Bool
  pub overwrite_version : Bool
  pub from_commit : Option Text
  pub actor : Option Identity

-- the requirements on the loader that were read out of artifacts, by the artifact's key
abbrev pub Learned : Type 0
Learned = List (Text × List (Text × Text))

-- What a build writes outside of its job. The first is the registry's, by the check of the loader
-- windows.
pub data Write : Type 0 where
  set_artifact_loader_reqs : (learned : Learned) → Write
  save_manifest : (pack_id : Text) → (manifest : PackManifest) → (overwrite : Bool) → Write
  set_latest_manifest : (pack_id : Text) → (version : Text) → Write
  save_pack_summary : (summary : PackSummary) → Write
  record_audit : (actor : Option Identity) → (pack_id : Text) → (detail : Text) → Write

-- The services, for classifications of any type. `registry_check` fails in its task or in the check;
-- `loader_windows` answers the report with its own findings in it, and what it read out of artifacts
-- that the registry did not know, which it stores there; `write` answers for one more write after those
-- that were made.
pub record Services {ℓ} (K : Type ℓ) : Type ℓ where
  pub load_commit_config : Text → Text → Result PackConfig
  pub load_pack_config : Text → Result PackConfig
  pub enrich_from_mcmod_info : PackConfig → Result PackConfig
  pub infer_requires_from_mcmod_info : PackConfig → Result PackConfig
  pub registry_check : PackConfig → Result (Result (K × ResolveReport))
  pub modrinth : Result {0} Unit
  pub loader_windows : PackConfig → ResolveReport → ResolveReport × Option Learned
  pub build_manifest : PackConfig → BuildRequest → K → Result (PackManifest × List Text)
  pub write : List Write → Write → Result {0} Unit

pub record BuildState : Type 0 where
  pub pack_id : Text
  pub log : List Text
  pub blocked : List Text
  pub result : Option DryRun
  pub writes : List Write

-- a step of the build, which may end it with an error
abbrev pub Step {ℓ} : Type ℓ → Type ℓ
Step A = BuildState → BuildState × Result A

abbrev pub proceed {ℓ κ} :
    {A : Type ℓ} {B : Type κ} → (A → Step B) → BuildState → Result A → BuildState × Result B
proceed f t (err message) = (t, err message)
proceed f t (ok a) = f a t

infixl 5 ◌>>=◌
unfoldable pub ◌>>=◌ {ℓ κ} : {A : Type ℓ} {B : Type κ} → Step A → (A → Step B) → Step B
◌>>=◌ m f s = proceed f (m s).0 (m s).1

abbrev pub pure {ℓ} : {A : Type ℓ} → A → Step A
pure a s = (s, ok a)

abbrev pub say : Text → Step {0} Unit
say text s = (record s { log = s.log ++ (text ∷ []) }, ok tt)

abbrev pub say_all : Text → List Text → Step {0} Unit
say_all before [] = pure tt
say_all before (text ∷ texts) = say (before ++ text) >>= λ u. say_all before texts

-- `map_err(|e| format!("...: {e}"))?`
unfoldable pub attempt {ℓ} : {A : Type ℓ} → Text → Result A → Step A
attempt before (err message) s = (s, err (before ++ message))
attempt before (ok a) s = (s, ok a)

abbrev pub set_blocked : List Text → Step {0} Unit
set_blocked blocked s = (record s { blocked = blocked }, ok tt)

abbrev pub set_result : DryRun → Step {0} Unit
set_result result s = (record s { result = some result }, ok tt)

unfoldable pub actor_name : Option Identity → Text
actor_name none = txt "an unattributed caller"
actor_name (some i) = i.login

module _ {ℓ} {K : Type ℓ} (services : Services K) where
  abbrev pub put : Write → Step {0} Unit
  put w s = elim (services.write s.writes w) [
    | err message ↦ (s, err message)
    | ok u ↦ (record s { writes = s.writes ++ (w ∷ []) }, ok tt)
  ]

  -- a write that is logged and given up where it fails
  abbrev pub put_best_effort : Write → Step {0} Unit
  put_best_effort w s = elim (services.write s.writes w) [
    | err message ↦ (s, ok tt)
    | ok u ↦ (record s { writes = s.writes ++ (w ∷ []) }, ok tt)
  ]

  abbrev pub load_config : Text → Option Text → Step PackConfig
  load_config pack_id none =
      attempt (txt "no authoring config: ") (services.load_pack_config pack_id)
  load_config pack_id (some id) = do
    u ← say (txt "building from commit " ++ id)
    attempt (txt "no such commit: ") (services.load_commit_config pack_id id)

  abbrev pub registry_pass : Result (Result (K × ResolveReport)) → Step (K × ResolveReport)
  registry_pass (err task) = attempt (txt "registry task: ") (err task)
  registry_pass (ok checked) = attempt (txt "registry check failed: ") checked

  -- `store` of src/authoring/loaderreq.rs
  abbrev pub remember : Option Learned → Step {0} Unit
  remember none = pure tt
  remember (some learned) = put_best_effort (set_artifact_loader_reqs learned)

  abbrev pub loader_pass : PackConfig → ResolveReport → Result {0} Unit → Step ResolveReport
  loader_pass cfg report (ok u) = do
    u ← remember (services.loader_windows cfg report).1
    pure (services.loader_windows cfg report).0
  loader_pass cfg report (err message) = do
    u ← say (
        txt "no http client for the loader-window check ("
        ++ (message ++ txt "); the pinned build stays unchecked"))
    pure report

  -- the verdict on what blocks, for a preview, a refusal and an override
  unfoldable pub judge : BuildRequest → BuildChecks → Step BuildChecks
  unfolding actor_name
  judge req checks = elim checks.blocking [
    | [] ↦ pure checks
    | first ∷ more ↦
        let count : Text = show (length checks.blocking) in
        if req.dry_run
        then (say (count ++ txt " problem(s) would stop a real build of this pack") >>= λ u.
            pure checks)
        else if not req.override_checks
        then (λ s. (
          s,
          err (
              count
              ++ txt
                  " problem(s) would keep this pack from starting -- fix them, or build again over the check"),
        ))
        else (say (
              concat (
                txt "publishing over "
                ∷ count
                ∷ txt " blocking problem(s), at "
                ∷ actor_name req.actor
                ∷ txt "'s explicit request"
                ∷ []))
            >>= λ u. pure (record checks { overridden = true }))
  ]

  -- the gate on a report
  abbrev pub judged :
      BuildRequest → ResolveReport → PackConfig → K → Step (PackConfig × K × BuildChecks)
  judged req report cfg classifications = do
    u ← say_all (txt "blocking: ") (check report).blocking
    u ← say_all (txt "noted: ") (check report).advisory
    u ← set_blocked (check report).blocking
    checks ← judge req (check report)
    pure (cfg, classifications, checks)

  -- up to the gate: the enriched config, its classifications, and the checks as they stand on the build
  unfoldable pub inspect : BuildRequest → Text → Step (PackConfig × K × BuildChecks)
  unfolding judge
  inspect req pack_id = do
    u ← say (txt "build " ++ (pack_id ++ txt ": loading authoring inputs"))
    loaded ← load_config pack_id req.from_commit
    u ← say (
        concat (
          txt "config: "
          ∷ show (length loaded.mods)
          ∷ txt " mods, "
          ∷ show (length loaded.assets)
          ∷ txt " assets"
          ∷ []))
    u ← say (txt "running enrichment passes (enrich-mcmod / infer-requires)")
    enriched ← attempt (txt "enrich-mcmod failed: ") (services.enrich_from_mcmod_info loaded)
    cfg ← attempt (txt "infer-requires failed: ") (services.infer_requires_from_mcmod_info enriched)
    u ← say (txt "classifying mods and checking the pack against the registry")
    pass ← registry_pass (services.registry_check cfg)
    u ← say (txt "checking the pinned loader build against what the mods declare")
    report ← loader_pass cfg pass.1 services.modrinth
    judged req report cfg pass.0

  -- the manifest with what was known about the build on it
  abbrev pub stamped : BuildRequest → BuildChecks → PackManifest → PackManifest
  stamped req checks manifest = record manifest {
    checks = if checks_is_empty checks then none else some checks;
    built_from = req.from_commit;
  }

  abbrev pub fell_back : List Text → Step {0} Unit
  fell_back [] = pure tt
  fell_back (name ∷ names) = say (
      concat (
        txt "Modrinth unreachable for "
        ∷ show (length (name ∷ names))
        ∷ txt " mod(s); resolved from the registry: "
        ∷ join (txt ", ") (name ∷ names)
        ∷ []))

  unfoldable pub assemble : BuildRequest → PackConfig → K → BuildChecks → Step PackManifest
  assemble req cfg classifications checks = do
    u ← say (txt "resolving sources (Modrinth lookups + cache reads)")
    built ← attempt (txt "resolve failed: ") (services.build_manifest cfg req classifications)
    u ← fell_back built.1
    pure (stamped req checks built.0)

  abbrev sizes : PackManifest → Text
  sizes manifest = concat (
      manifest.pack_version
      ∷ txt " ("
      ∷ show (length manifest.mods)
      ∷ txt " mods, "
      ∷ show (length manifest.assets)
      ∷ txt " assets)"
      ∷ [])

  abbrev pub override_detail : PackManifest → BuildChecks → Text
  override_detail manifest checks = concat (
      manifest.pack_version
      ∷ txt " published over "
      ∷ show (length checks.blocking)
      ∷ txt " blocking check(s)"
      ∷ [])

  -- behind the preview: manifest, latest pointer, summary, and the audit of an override
  unfoldable pub publish :
      BuildRequest → Text → PackConfig → BuildChecks → PackManifest → Step {0} Unit
  unfolding make_pack_summary
  publish req pack_id cfg checks manifest = do
    u ←
        if req.overwrite_version
        then say (
            concat (
              txt "publishing over "
              ∷ manifest.pack_version
              ∷ txt
                  " if it already exists, as asked -- anyone holding that version keeps what they downloaded until they refetch"
              ∷ []))
        else pure tt
    u ← say (txt "writing manifest " ++ sizes manifest)
    u ← put (save_manifest pack_id manifest req.overwrite_version)
    u ← put (set_latest_manifest pack_id manifest.pack_version)
    u ← put (save_pack_summary (make_pack_summary cfg manifest.pack_version))
    u ←
        if checks.overridden
        then put_best_effort (record_audit req.actor pack_id (override_detail manifest checks))
        else pure tt
    say (concat (txt "build complete: " ∷ pack_id ∷ txt " is now " ∷ manifest.pack_version ∷ []))

  unfoldable pub preview : PackConfig → PackManifest → Step {0} Unit
  unfolding make_pack_summary
  preview cfg manifest = do
    u ← say (txt "dry run: resolved " ++ (sizes manifest ++ txt " -- not publishing"))
    set_result
        (record { manifest = manifest; summary = make_pack_summary cfg manifest.pack_version })

  -- a preview stops here, and a build publishes
  abbrev pub conclude :
      BuildRequest → Text → PackConfig → BuildChecks → PackManifest → Step {0} Unit
  conclude req pack_id cfg checks manifest =
      if req.dry_run then preview cfg manifest else publish req pack_id cfg checks manifest

  abbrev pub behind_gate : BuildRequest → Text → PackConfig × K × BuildChecks → Step {0} Unit
  behind_gate req pack_id ready = do
    manifest ← assemble req ready.0 ready.1 ready.2
    conclude req pack_id ready.0 ready.2 manifest

  unfoldable pub run_build : BuildRequest → Text → Step {0} Unit
  unfolding inspect assemble preview publish
  run_build req pack_id = do ready ← inspect req pack_id; behind_gate req pack_id ready
