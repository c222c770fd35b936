-- ===== src/Jobs/Publish/Order.antt =====
-- Which steps of a build of src/jobs.rs write, and which do not.
use smrt.Base.{
  arith, ◌≡◌, refl, sym, ap, ◌∙◌, ◌⊎◌, inl, inr, ◌++◌, List, [], ◌∷◌, ℕ-Eq, Text, Text-Eq, ℤ-Eq,
}
use smrt.Base.Results.{Result, err, ok, Result-cases}
use mathlib.Core.Option.{Option, none, some}
use smrt.Domain.Manifest.{PackManifest, BuildChecks}
use smrt.Domain.Pack.{PackConfig}
use smrt.Gate.{ResolveReport}
use smrt.Jobs.Publish.{
  BuildRequest, BuildState, Services, Step, ◌>>=◌, proceed, load_config, registry_pass, loader_pass,
  fell_back, pure, say, say_all, attempt, set_blocked, judge, judged, inspect, assemble, preview,
  Write, set_artifact_loader_reqs, Learned, remember, put_best_effort,
}

-- A step that writes nothing, however it ends.
pub record IsQuiet {ℓ} {A : Type ℓ} (m : Step A) : Type 0 where
  pub quiet : (s : BuildState) → (m s).0.writes ≡ s.writes

proceed-quiet {ℓ κ} :
    {A : Type ℓ} {B : Type κ} (f : A → Step B) (t : BuildState) (r : Result A)
    → ((a : A) → IsQuiet (f a))
    → (proceed f t r).0.writes ≡ t.writes
proceed-quiet f t (err message) h = refl
proceed-quiet f t (ok a) h = (h a).quiet t

pub bind-IsQuiet {ℓ κ} :
    {A : Type ℓ} {B : Type κ} {m : Step A} {f : A → Step B}
    → IsQuiet m
    → ((a : A) → IsQuiet (f a))
    → IsQuiet (m >>= f)
unfolding ◌>>=◌
bind-IsQuiet {m = m} {f = f} h k = record {
  quiet = λ s. proceed-quiet f (m s).0 (m s).1 k ∙ h.quiet s;
}

pub say-IsQuiet : {text : Text} → IsQuiet (say text)
say-IsQuiet = record { quiet = λ s. refl }

pub pure-IsQuiet {ℓ} : {A : Type ℓ} {a : A} → IsQuiet (pure a)
pure-IsQuiet = record { quiet = λ s. refl }

attempt-quiet {ℓ} :
    {A : Type ℓ} (before : Text) (r : Result A) (s : BuildState)
    → (attempt before r s).0.writes ≡ s.writes
unfolding attempt
attempt-quiet before (err message) s = refl
attempt-quiet before (ok a) s = refl

pub attempt-IsQuiet {ℓ} : {A : Type ℓ} (before : Text) (r : Result A) → IsQuiet (attempt before r)
attempt-IsQuiet before r = record { quiet = attempt-quiet before r }

pub say_all-IsQuiet : (before : Text) (texts : List Text) → IsQuiet (say_all before texts)
say_all-IsQuiet before [] = pure-IsQuiet
say_all-IsQuiet before (text ∷ texts) = bind-IsQuiet say-IsQuiet (λ u. say_all-IsQuiet before texts)

pub load_config-IsQuiet {ℓ} :
    {K : Type ℓ} (services : Services K) (pack_id : Text) (commit : Option Text)
    → IsQuiet (load_config services pack_id commit)
load_config-IsQuiet services pack_id none = (attempt-IsQuiet _ _)
load_config-IsQuiet services pack_id (some id) =
    bind-IsQuiet say-IsQuiet (λ u. (attempt-IsQuiet _ _))

pub registry_pass-IsQuiet {ℓ} :
    {K : Type ℓ} (services : Services K) (r : Result (Result (K × ResolveReport)))
    → IsQuiet (registry_pass services r)
registry_pass-IsQuiet services (err message) = (attempt-IsQuiet _ _)
registry_pass-IsQuiet services (ok r) = (attempt-IsQuiet _ _)

pub append_nil {ℓ} : {A : Type ℓ} (xs : List A) → xs ++ [] ≡ xs
append_nil [] = refl
append_nil (x ∷ xs) = ap (λ l. x ∷ l) (append_nil xs)

-- What the check of the loader windows may have written: nothing, or what it learned.
abbrev pub IsLearned : List Write → Type 0
IsLearned ws = (ws ≡ []) ⊎ ((learned : Learned) × (ws ≡ set_artifact_loader_reqs learned ∷ []))

-- A step that writes nothing else, however it ends.
pub record IsLearning {ℓ} {A : Type ℓ} (m : Step A) : Type 0 where
  pub learns :
      (s : BuildState) → (ws : List Write) × IsLearned ws × ((m s).0.writes ≡ s.writes ++ ws)

quiet-IsLearning {ℓ} : {A : Type ℓ} {m : Step A} → IsQuiet m → IsLearning m
quiet-IsLearning h = record { learns = λ s. ([], inl refl, h.quiet s ∙ sym (append_nil s.writes)) }

proceed-learns {ℓ κ} :
    {A : Type ℓ} {B : Type κ} (f : A → Step B) (t : BuildState) (r : Result A) (before : List Write)
    → t.writes ≡ before
    → ((a : A) → IsLearning (f a))
    → (ws : List Write) × IsLearned ws × ((proceed f t r).0.writes ≡ before ++ ws)
proceed-learns f t (err message) before e h = ([], inl refl, e ∙ sym (append_nil before))
proceed-learns f t (ok a) before e h =
    let (ws, l, w) = (h a).learns t in (ws, l, w ∙ ap (λ b. b ++ ws) e)

pub then-IsLearning {ℓ κ} :
    {A : Type ℓ} {B : Type κ} {m : Step A} {f : A → Step B}
    → IsQuiet m
    → ((a : A) → IsLearning (f a))
    → IsLearning (m >>= f)
unfolding ◌>>=◌
then-IsLearning {m = m} {f = f} h k = record {
  learns = λ s. proceed-learns f (m s).0 (m s).1 s.writes (h.quiet s) k;
}

pub learn-IsLearning {ℓ κ} :
    {A : Type ℓ} {B : Type κ} {m : Step A} {f : A → Step B}
    → IsLearning m
    → ((a : A) → IsQuiet (f a))
    → IsLearning (m >>= f)
unfolding ◌>>=◌
learn-IsLearning {m = m} {f = f} h k = record {
  learns = λ s. let (ws, l, w) = h.learns s in (ws, l, proceed-quiet f (m s).0 (m s).1 k ∙ w);
}

pub remember-IsLearning {ℓ} :
    {K : Type ℓ} (services : Services K) (learned : Option Learned)
    → IsLearning (remember services learned)
remember-IsLearning services none = quiet-IsLearning pure-IsQuiet
remember-IsLearning services (some learned) = record {
  learns = λ s. elim (Result-cases (services.write s.writes (set_artifact_loader_reqs learned))) [
    | inl (message, e) ↦ rw (e, put_best_effort) ([], inl refl, sym (append_nil s.writes))
    | inr (u, e) ↦
        rw (e, put_best_effort) (set_artifact_loader_reqs learned ∷ [], inr (learned, refl), refl)
  ];
}

pub loader_pass-IsLearning {ℓ} :
    {K : Type ℓ} (services : Services K) (cfg : PackConfig) (report : ResolveReport)
    (r : Result {0} Unit)
    → IsLearning (loader_pass services cfg report r)
loader_pass-IsLearning services cfg report (ok u) =
    learn-IsLearning (remember-IsLearning services _) (λ u. pure-IsQuiet)
loader_pass-IsLearning services cfg report (err message) =
    quiet-IsLearning (bind-IsQuiet say-IsQuiet (λ u. pure-IsQuiet))

module _ {ℓ} {K : Type ℓ} (services : Services K) where
  judge-quiet :
      (req : BuildRequest) (checks : BuildChecks) (s : BuildState)
      → (judge services req checks s).0.writes ≡ s.writes
  unfolding judge ◌>>=◌
  judge-quiet req checks s = ground arith

  pub judge-IsQuiet :
      (req : BuildRequest) (checks : BuildChecks) → IsQuiet (judge services req checks)
  judge-IsQuiet req checks = record { quiet = judge-quiet req checks }

  pub set_blocked-IsQuiet : {lines : List Text} → IsQuiet (set_blocked lines)
  set_blocked-IsQuiet = record { quiet = λ s. refl }

  -- from the loader windows on
  judged-IsQuiet :
      (req : BuildRequest) (report : ResolveReport) (cfg : PackConfig) (k : K)
      → IsQuiet (judged services req report cfg k)
  judged-IsQuiet req report cfg k = bind-IsQuiet (say_all-IsQuiet _ _) (λ u.
      bind-IsQuiet (say_all-IsQuiet _ _) (λ u.
        bind-IsQuiet set_blocked-IsQuiet
          (λ u. bind-IsQuiet (judge-IsQuiet req _) (λ checks. pure-IsQuiet))))

  pub inspect-IsLearning :
      (req : BuildRequest) (pack_id : Text) → IsLearning (inspect services req pack_id)
  unfolding inspect
  inspect-IsLearning req pack_id = then-IsLearning say-IsQuiet (λ u.
      then-IsLearning (load_config-IsQuiet services pack_id req.from_commit) (λ loaded.
        then-IsLearning say-IsQuiet (λ u. then-IsLearning say-IsQuiet (λ u.
          then-IsLearning (attempt-IsQuiet _ _) (λ enriched.
            then-IsLearning (attempt-IsQuiet _ _) (λ cfg. then-IsLearning say-IsQuiet (λ u.
              then-IsLearning (registry_pass-IsQuiet services _) (λ pass.
                then-IsLearning say-IsQuiet (λ u.
                  learn-IsLearning (loader_pass-IsLearning services _ _ _)
                    (λ report. judged-IsQuiet req report cfg pass.0))))))))))

  fell_back-IsQuiet : (names : List Text) → IsQuiet (fell_back services names)
  fell_back-IsQuiet [] = pure-IsQuiet
  fell_back-IsQuiet (name ∷ names) = say-IsQuiet

  pub assemble-IsQuiet :
      (req : BuildRequest) (cfg : PackConfig) (k : K) (checks : BuildChecks)
      → IsQuiet (assemble services req cfg k checks)
  unfolding assemble
  assemble-IsQuiet req cfg k checks = bind-IsQuiet say-IsQuiet (λ u.
      bind-IsQuiet (attempt-IsQuiet _ _)
        (λ built. bind-IsQuiet (fell_back-IsQuiet built.1) (λ u. pure-IsQuiet)))

  pub preview-IsQuiet :
      (cfg : PackConfig) (manifest : PackManifest) → IsQuiet (preview services cfg manifest)
  unfolding preview
  preview-IsQuiet cfg manifest = bind-IsQuiet say-IsQuiet (λ u. record { quiet = λ s. refl })
