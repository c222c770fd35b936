-- ===== src/Jobs/Publish/Cleared.antt =====
-- What the checks are like behind the gate of src/jobs.rs.
use smrt.Base.{
  ◌≡◌, refl, sym, ap, ◌∙◌, ◌≢◌, ◌⊎◌, inl, inr, true, false, Option, none, some, List, [], ◌∷◌,
  if◌then◌else◌, ℕ-Eq, Bool-cases, Text, Text-Eq, ℤ-Eq,
}
use smrt.Base.Results.{Result, err, ok, ok_inj}
use mathlib.Core.Path.{subst}
use smrt.Domain.Manifest.{PackManifest, BuildChecks, checks_is_empty}
use smrt.Domain.Pack.{PackConfig}
use smrt.Gate.{ResolveReport, check}
use smrt.Jobs.Publish.{
  BuildRequest, BuildState, Services, Step, ◌>>=◌, proceed, pure, attempt, load_config,
  registry_pass, loader_pass, judge, inspect, assemble,
}

-- A step whose value, where it has one, has the property.
pub record Gives {ℓ} {A : Type ℓ} (m : Step A) (P : A → Type 0) : Type ℓ where
  pub gives : (s : BuildState) (a : A) → (m s).1 ≡ ok a → P a

proceed-gives {ℓ κ} :
    {A : Type ℓ} {B : Type κ} (P : A → Type 0) (Q : B → Type 0) (f : A → Step B) (t : BuildState)
    (r : Result A) (b : B)
    → ((a : A) → r ≡ ok a → P a)
    → ((a : A) → P a → Gives (f a) Q)
    → (proceed f t r).1 ≡ ok b
    → Q b
proceed-gives P Q f t (err message) b h k e = cc
proceed-gives P Q f t (ok a) b h k e = (k a (h a refl)).gives t b e

-- the value of a chain is that of its end
bind-Gives {ℓ κ} :
    {A : Type ℓ} {B : Type κ} (m : Step A) {f : A → Step B} {Q : B → Type 0}
    → ((a : A) → Gives (f a) Q)
    → Gives (m >>= f) Q
unfolding ◌>>=◌
bind-Gives m {f = f} {Q = Q} h = record {
  gives = λ s b e. proceed-gives (λ a. Unit) Q f (m s).0 (m s).1 b (λ a q. tt) (λ a u. h a) e;
}

then-Gives {ℓ κ} :
    {A : Type ℓ} {B : Type κ} {m : Step A} {f : A → Step B} {P : A → Type 0} {Q : B → Type 0}
    → Gives m P
    → ((a : A) → P a → Gives (f a) Q)
    → Gives (m >>= f) Q
unfolding ◌>>=◌
then-Gives {m = m} {f = f} {P = P} {Q = Q} g h = record {
  gives = λ s b e. proceed-gives P Q f (m s).0 (m s).1 b (g.gives s) h e;
}

pure-Gives {ℓ} : {A : Type ℓ} {P : A → Type 0} {a : A} → P a → Gives (pure a) P
pure-Gives {P = P} h = record { gives = λ s b e. subst P (ok_inj _ _ e) h }

-- Nothing blocks, or somebody asked to publish over what does and it is marked so, and in a preview
-- neither matters.
abbrev pub IsCleared : BuildRequest → BuildChecks → Type 0
IsCleared req checks =
    (req.dry_run ≡ true)
    ⊎ ((checks.blocking ≡ []) × (checks.overridden ≡ false))
    ⊎ ((checks.blocking ≢ []) × (req.override_checks ≡ true) × (checks.overridden ≡ true))

module _ {K : Type 0} (services : Services K) where
  -- the config that is asked for: that of a commit, or the stored one
  abbrev pub config_of : Text → Option Text → Result PackConfig
  config_of pack_id none = services.load_pack_config pack_id
  config_of pack_id (some id) = services.load_commit_config pack_id id

  -- the registry's report, with what is known of the loader windows where there is a client
  abbrev report_by : PackConfig → ResolveReport → Result {0} Unit → ResolveReport
  report_by cfg found (ok u) = (services.loader_windows cfg found).0
  report_by cfg found (err message) = found

  abbrev pub report_of : PackConfig → ResolveReport → ResolveReport
  report_of cfg found = report_by cfg found services.modrinth

  -- The config went through the passes, the registry answered for it, and the checks are what the gate
  -- finds in the registry's report.
  abbrev pub IsJudged : BuildRequest → Text → PackConfig × K × BuildChecks → Type 0
  IsJudged req pack_id (cfg, k, checks) =
      (loaded : PackConfig) × (enriched : PackConfig) × (found : ResolveReport) × (config_of pack_id
          req.from_commit
        ≡ ok loaded)
      × (services.enrich_from_mcmod_info loaded ≡ ok enriched)
      × (services.infer_requires_from_mcmod_info enriched ≡ ok cfg)
      × (services.registry_check cfg ≡ ok (ok (k, found)))
      × (checks.blocking ≡ (check (report_of cfg found)).blocking)
      × (checks.advisory ≡ (check (report_of cfg found)).advisory)
      × IsCleared req checks

  -- the manifest is the built one, with the findings on it, and the commit
  abbrev pub IsStamped : BuildRequest → PackConfig → K → BuildChecks → PackManifest → Type 0
  IsStamped req cfg k checks manifest =
      (built : PackManifest × List Text) × (services.build_manifest cfg req k ≡ ok built)
      × (manifest ≡ record built.0 {
        checks = if checks_is_empty checks then none else some checks;
        built_from = req.from_commit;
      })

  judge-IsCleared :
      (req : BuildRequest) (blocking advisory : List Text) (s : BuildState) (c : BuildChecks)
      → (judge services req
          (record { blocking = blocking; advisory = advisory; overridden = false })
          s).1
        ≡ ok c
      → (c.blocking ≡ blocking) × (c.advisory ≡ advisory) × IsCleared req c
  unfolding judge ◌>>=◌
  judge-IsCleared req [] advisory s c e =
      let same = sym (ok_inj _ _ e) in
      (
        ap (λ x. x.blocking) same,
        ap (λ x. x.advisory) same,
        inr (inl (ap (λ x. x.blocking) same, ap (λ x. x.overridden) same)),
      )
  judge-IsCleared req (line ∷ lines) advisory s c e = elim (Bool-cases req.dry_run) [
    | inl d ↦
        let same = sym (ok_inj _ _ (rw (d, judge) at e)) in
        (ap (λ x. x.blocking) same, ap (λ x. x.advisory) same, inl d)
    | inr d ↦ elim (Bool-cases req.override_checks) [
      | inl o ↦
          let same = sym (ok_inj _ _ (rw (d, o, judge) at e)) in
          let lists = ap (λ x. x.blocking) same in
          (
            lists,
            ap (λ x. x.advisory) same,
            inr (inr (λ nil. cc (lists, nil), o, ap (λ x. x.overridden) same)),
          )
      | inr o ↦ cc (rw (d, o, judge) at e)
    ]
  ]

  -- what the gate finds is not overridden yet
  check-overridden : (report : ResolveReport) → (check report).overridden ≡ false
  unfolding check
  check-overridden report = refl

  judge-Gives :
      (req : BuildRequest) (checks : BuildChecks)
      → checks.overridden ≡ false
      → Gives
          (judge services req checks)
          (λ c. (c.blocking ≡ checks.blocking) × (c.advisory ≡ checks.advisory) × IsCleared req c)
  judge-Gives req checks new = record {
    gives = λ s c e.
        judge-IsCleared req checks.blocking checks.advisory s c
          (ap (λ b. (judge services req (record checks { overridden = b }) s).1) (sym new) ∙ e);
  }

  attempt-gives {ℓ} :
      {A : Type ℓ} (before : Text) (r : Result A) (s : BuildState) (a : A)
      → (attempt before r s).1 ≡ ok a
      → r ≡ ok a
  unfolding attempt
  attempt-gives before (err message) s a e = cc
  attempt-gives before (ok b) s a e = e

  attempt-Gives :
      {A : Type 0} (before : Text) (r : Result A) → Gives (attempt before r) (λ a. r ≡ ok a)
  attempt-Gives before r = record { gives = λ s a e. attempt-gives before r s a e }

  load_config-Gives :
      (pack_id : Text) (commit : Option Text)
      → Gives (load_config services pack_id commit) (λ cfg. config_of pack_id commit ≡ ok cfg)
  load_config-Gives pack_id none = attempt-Gives _ _
  load_config-Gives pack_id (some id) = bind-Gives _ (λ u. attempt-Gives _ _)

  registry_pass-Gives :
      (r : Result (Result (K × ResolveReport)))
      → Gives (registry_pass services r) (λ pass. r ≡ ok (ok pass))
  registry_pass-Gives (err task) = record {
    gives = λ s a e. cc (attempt-gives {A = K × ResolveReport} _ (err task) s a e);
  }
  registry_pass-Gives (ok r) = record {
    gives = λ s a e. ap {B = Result (Result (K × ResolveReport))} ok (attempt-gives _ r s a e);
  }

  loader_pass-Gives :
      (cfg : PackConfig) (found : ResolveReport) (r : Result {0} Unit)
      → Gives (loader_pass services cfg found r) (λ report. report ≡ report_by cfg found r)
  loader_pass-Gives cfg found (ok u) = bind-Gives _ (λ u. pure-Gives refl)
  loader_pass-Gives cfg found (err message) = bind-Gives _ (λ u. pure-Gives refl)

  pub inspect-Gives :
      (req : BuildRequest) (pack_id : Text)
      → Gives (inspect services req pack_id) (IsJudged req pack_id)
  unfolding inspect
  inspect-Gives req pack_id = bind-Gives _ (λ u.
      then-Gives (load_config-Gives pack_id req.from_commit) (λ loaded h. bind-Gives _ (λ u.
        bind-Gives _ (λ u. then-Gives (attempt-Gives _ _) (λ enriched i.
          then-Gives (attempt-Gives _ _) (λ cfg j. bind-Gives _ (λ u.
            then-Gives (registry_pass-Gives _) (λ pass p. bind-Gives _ (λ u.
              then-Gives (loader_pass-Gives cfg pass.1 services.modrinth) (λ report q.
                bind-Gives _ (λ u. bind-Gives _ (λ u. bind-Gives _ (λ u.
                  then-Gives (judge-Gives req _ (check-overridden report)) (λ checks c. pure-Gives (
                    loaded,
                    enriched,
                    pass.1,
                    h,
                    i,
                    j,
                    p,
                    c.0 ∙ ap (λ x. (check x).blocking) q,
                    c.1 ∙ ap (λ x. (check x).advisory) q,
                    c.2,
                  )))))))))))))))

  pub assemble-Gives :
      (req : BuildRequest) (cfg : PackConfig) (k : K) (checks : BuildChecks)
      → Gives (assemble services req cfg k checks) (IsStamped req cfg k checks)
  unfolding assemble
  assemble-Gives req cfg k checks = bind-Gives _ (λ u.
      then-Gives (attempt-Gives _ _) (λ built h. bind-Gives _ (λ u. pure-Gives (built, h, refl))))
