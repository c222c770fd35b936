-- ===== src/Jobs/Tail.antt =====
-- What a client of src/jobs.rs may rely on: a job that runs is not dropped, and a log that is read piece by
-- piece is read in full.
use smrt.Base.{
  ◌≡◌, refl, sym, ap, ◌∙◌, inl, inr, false, not, some, List, [], ◌∷◌, ◌++◌, Memᴰ, arith, ltb, ◌==◌,
  ℕ-Eq, Bool-cases, Option-cases, length, drop, Memᴰ-retain, Text, text_eq_iff, Text-Eq, text_lt,
  ℤ-Eq,
}
use mathlib.Core.List.Memᴰ
use mathlib.Core.Option.{some_inj}
use mathlib.Core.Path.{subst}
use smrt.Keyed.{HasKeys, last_with, last_with-own}
use smrt.Jobs.{Job, running, is_running, line, since, victim, remove_job, new_job, create}

append_nil {ℓ} : {A : Type ℓ} (xs : List A) → (xs ++ []) ≡ xs
append_nil [] = refl
append_nil (x ∷ xs) = ap (λ l. x ∷ l) (append_nil xs)

append_assoc {ℓ} : {A : Type ℓ} (xs ys zs : List A) → ((xs ++ ys) ++ zs) ≡ (xs ++ (ys ++ zs))
append_assoc [] ys zs = refl
append_assoc (x ∷ xs) ys zs = ap (λ l. x ∷ l) (append_assoc xs ys zs)

drop-append {ℓ} : {A : Type ℓ} (xs ys : List A) → drop (length xs) (xs ++ ys) ≡ ys
drop-append [] ys = refl
drop-append (x ∷ xs) ys = drop-append xs ys

module _ {ℓ} {R : Type ℓ} where
  -- the job to drop is one that has ended
  victim-mem :
      (jobs : List (Job R)) (id : Text)
      → victim jobs ≡ some id
      → (j : Job R) × Memᴰ j jobs × (j.id ≡ id) × (is_running j.status ≡ false)
  unfolding victim
  victim-mem [] id h = cc
  victim-mem (j ∷ jobs) id h = elim (Bool-cases (is_running j.status)) [
    | inl e ↦ let (k, m, q, s) = victim-mem jobs id (rw e at h) in (k, Memᴰ.tail m, q, s)
    | inr e ↦ elim (Option-cases (victim jobs)) [
      | inl f ↦ (j, Memᴰ.head refl, some_inj.0 (rw (e, f) at h), e)
      | inr (least, f) ↦ elim (Bool-cases (text_lt least j.id)) [
        | inl g ↦
            let (k, m, q, s) = victim-mem jobs least f in
            (k, Memᴰ.tail m, q ∙ some_inj.0 (rw (e, f, g) at h), s)
        | inr g ↦ (j, Memᴰ.head refl, some_inj.0 (rw (e, f, g) at h), e)
      ]
    ]
  ]

  HasKeys-unique :
      (jobs : List (Job R)) (j k : Job R)
      → HasKeys (λ x. x.id) jobs
      → Memᴰ j jobs
      → Memᴰ k jobs
      → j.id ≡ k.id
      → j ≡ k
  HasKeys-unique jobs j k keys m n e = some_inj.0 (
      sym (last_with-own (λ x. x.id) j jobs keys m)
      ∙ subst (λ i. last_with (λ x. x.id) i jobs ≡ some k) (sym e)
          (last_with-own (λ x. x.id) k jobs keys n))

  kept-mem :
      (jobs : List (Job R)) (id : Text) (j : Job R)
      → Memᴰ j jobs
      → ¬ (j.id ≡ id)
      → Memᴰ j (remove_job id jobs)
  unfolding remove_job
  kept-mem jobs id j m ne =
      (Memᴰ-retain (λ x. not (x.id == id)) j jobs).1 (m, ground (arith, text_eq_iff j.id id))

  stored : (jobs : List (Job R)) (id : Text) (j : Job R) → Memᴰ j (remove_job id jobs) → Memᴰ j jobs
  unfolding remove_job
  stored jobs id j m = ((Memᴰ-retain (λ x. not (x.id == id)) j jobs).0 m).0

  -- A running job stays in the registry when another job is created under an id of its own, however
  -- full the registry is, where the registry holds no id twice.
  pub create-running_stays :
      (jobs : List (Job R)) (id kind pack_id : Text) (j : Job R)
      → HasKeys (λ x. x.id) jobs
      → Memᴰ j jobs
      → j.status ≡ running
      → ¬ (j.id ≡ id)
      → Memᴰ j (create jobs id kind pack_id)
  unfolding create
  create-running_stays jobs id kind pack_id j keys m r ne =
      let kept = Memᴰ.tail (kept-mem jobs id j m ne) in
      elim (Bool-cases (ltb 50 (length (new_job id kind pack_id ∷ remove_job id jobs)))) [
        | inl e ↦ elim (Option-cases (victim (new_job id kind pack_id ∷ remove_job id jobs))) [
          | inl f ↦ rw (e, f) kept
          | inr (v, f) ↦
              rw (e, f)
                (kept-mem _ v j kept (λ same.
                  let (k, n, q, ended) =
                    victim-mem (new_job id kind pack_id ∷ remove_job id jobs) v f in
                  elim (Memᴰ.cases_cons n) [
                    | inl first ↦ cc (ended, first)
                    | inr rest ↦
                        let one =
                          HasKeys-unique jobs j k keys m (stored jobs id k rest) (same ∙ sym q) in
                        cc (ended, ap (λ x. is_running x.status) one, ap is_running r)
                  ]))
        ]
        | inr e ↦ rw e kept
      ]

  -- one line after another
  abbrev pub lines : List Text → Job R → Job R
  lines [] job = job
  lines (text ∷ texts) job = lines texts (line text job)

  lines-log : (texts : List Text) (job : Job R) → (lines texts job).log ≡ job.log ++ texts
  unfolding line
  lines-log [] job = sym (append_nil job.log)
  lines-log (text ∷ texts) job =
      lines-log texts (line text job) ∙ append_assoc job.log (text ∷ []) texts

  -- A client that reads the log up to some line and later from there on has read what the log holds
  -- then, in order and each line once, whatever was logged in between.
  pub since-line :
      (job : Job R) (texts : List Text)
      → (since 0 job).0 ++ (since (length (since 0 job).0) (lines texts job)).0
        ≡ (since 0 (lines texts job)).0
  unfolding since
  since-line job texts =
      let whole = lines-log texts job in
      ap (λ l. job.log ++ drop (length job.log) l) whole
      ∙ ap (λ l. job.log ++ l) (drop-append job.log texts)
      ∙ sym whole
