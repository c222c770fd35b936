-- ===== src/Jobs/Publish/Gate.antt =====
-- The order of the writes of src/jobs.rs, and what a manifest that it publishes says of the gate.
use smrt.Base.{
  ◌≡◌, ◌⊎◌, Bool, true, false, List, [], ◌∷◌, ◌++◌, if◌then◌else◌, ℕ-Eq, Text, Text-Eq, ℤ-Eq,
}
use smrt.Base.Results.{Result, err}
use smrt.Domain.Manifest.{PackManifest, BuildChecks}
use smrt.Domain.Pack.{PackConfig}
use smrt.Jobs.Publish.{
  BuildRequest, BuildState, Write, save_manifest, set_latest_manifest, save_pack_summary,
  record_audit, Services, Step, make_pack_summary, override_detail,
}
use smrt.Jobs.Publish.Cleared.{IsJudged, IsStamped}
use smrt.Jobs.Publish.Order.{IsLearned}

-- From some writes to others, a beginning of the plan was written, with all that must be where the step
-- succeeded.
abbrev pub Wrote {ℓ} :
    {A : Type ℓ} → List Write → List Write → Result A → List Write → List Write → Type ℓ
Wrote {A = A} before now r must plan =
    (ws : List Write) × (rest : List Write) × (now ≡ before ++ ws)
    × (ws ++ rest ≡ plan)
    × (((message : Text) × (r ≡ err message)) ⊎ ((more : List Write) × (ws ≡ must ++ more)))

record Follows {ℓ} {A : Type ℓ} (m : Step A) (must plan : List Write) : Type ℓ where
  follows : (s : BuildState) → Wrote s.writes (m s).0.writes (m s).1 must plan

module _ {K : Type 0} (services : Services K) where
  abbrev audit : Bool → Write → List Write
  audit overridden w = if overridden then w ∷ [] else []

  -- What a published build writes, in this order: the manifest, the latest pointer, the summary, and the
  -- audit row of an override.
  abbrev pub must_write : BuildRequest → Text → PackConfig → PackManifest → List Write
  must_write req pack_id cfg manifest =
      save_manifest pack_id manifest req.overwrite_version
      ∷ set_latest_manifest pack_id manifest.pack_version
      ∷ save_pack_summary (make_pack_summary cfg manifest.pack_version)
      ∷ []

  abbrev pub may_write : BuildRequest → Text → BuildChecks → PackManifest → List Write
  may_write req pack_id checks manifest =
      audit checks.overridden
        (record_audit req.actor pack_id (override_detail services manifest checks))

  -- how a build ends, as to what it wrote behind the writes that stood before its gate
  abbrev pub Ended : BuildRequest → Text → List Write → BuildState × Result {0} Unit → Type 0
  Ended req pack_id before (t, r) =
      ((t.writes ≡ before) × ((req.dry_run ≡ true) ⊎ ((message : Text) × (r ≡ err message))))
      ⊎ ((cfg : PackConfig) × (k : K) × (checks : BuildChecks) × (manifest : PackManifest)
          × (req.dry_run ≡ false)
          × IsJudged services req pack_id (cfg, k, checks)
          × IsStamped services req cfg k checks manifest
          × Wrote before t.writes r (must_write req pack_id cfg manifest)
              (must_write req pack_id cfg manifest ++ may_write req pack_id checks manifest))

  -- with what the check of the loader windows has learned in front of it
  abbrev pub Outcome : BuildRequest → Text → List Write → BuildState × Result {0} Unit → Type 0
  Outcome req pack_id before end =
      (learned : List Write) × IsLearned learned × Ended req pack_id (before ++ learned) end
