-- ===== src/HarvestSched/Settle.antt =====
-- What becomes of a request for a harvest in src/authoring/harvest_sched.rs, over all interleavings.
use smrt.Base.{
  ◌+◌, ◌<◌, ◌≡◌, refl, sym, ap, ◌∙◌, ◌⊎◌, inl, inr, Bool, true, false, not, ◌&&◌, ◌||◌, Option,
  none, some, List, [], ◌∷◌, arith, ltb, if◌then◌else◌, ℕ-Eq, Option-cases, all, Text-Eq, ℤ-Eq,
}
use smrt.Base.Results.{err, ok}
use mathlib.Core.Option.{some_inj}
use mathlib.Core.Path.{subst}
use smrt.HarvestSched.{
  Phase, waiting, woken, settling, woken_again, ready, started, executing, HarvestScheduler, Action,
  poke, force, set_force, notify_one, notified, swap, slept, start, observe, finish, fresh, step,
  run, is_unsettled, settle_status,
}

-- the worker has taken a wake that no run has observed yet
abbrev pub is_awake : Phase → Bool
is_awake waiting = false
is_awake executing = false
is_awake _ = true

abbrev pub is_swapping : Phase → Bool
is_swapping woken = true
is_swapping woken_again = true
is_swapping _ = false

abbrev pub is_running : Phase → Bool
is_running started = true
is_running executing = true
is_running _ = false

abbrev is_executing : Phase → Bool
is_executing executing = true
is_executing _ = false

executing_eq : (p : Phase) → is_executing p ≡ true → p ≡ executing
executing_eq waiting h = cc
executing_eq woken h = cc
executing_eq settling h = cc
executing_eq woken_again h = cc
executing_eq ready h = cc
executing_eq started h = cc
executing_eq executing h = refl

abbrev implies : Bool → Bool → Bool
implies a b = not a || b

abbrev same : Bool → Bool → Bool
same a b = if a then b else not b

module _ {ℓ} {R : Type ℓ} where
  -- What holds between any two steps: a request that no run has observed has left a wake, is about to
  -- leave one, or has the worker up; so has a forced one, until the worker has read the flag; and the
  -- status says `running` while the worker runs a harvest.
  abbrev pub is_sound : HarvestScheduler R → Bool
  is_sound s =
      implies s.dirty (s.permit || ltb 0 s.forcing || ltb 0 s.notifying || is_awake s.phase)
      && implies s.force_now (s.permit || ltb 0 s.notifying || is_swapping s.phase)
      && same s.status.running (is_running s.phase)

  abbrev pub after : Option (HarvestScheduler R) → Bool
  after none = true
  after (some t) = is_sound t

  pub step_sound :
      (a : Action R) (s : HarvestScheduler R) → is_sound s ≡ true → after (step a s) ≡ true
  unfolding step settle_status
  step_sound poke s h = ground arith
  step_sound force s h = ground arith
  step_sound set_force s h = ground arith
  step_sound notify_one s h = ground arith
  step_sound notified s h = ground arith
  step_sound swap s h = ground arith
  step_sound slept s h = ground arith
  step_sound start s h = ground arith
  step_sound observe s h = ground arith
  step_sound (finish (ok (ok report)) now) s h = ground arith
  step_sound (finish (ok (err message)) now) s h = ground arith
  step_sound (finish (err join) now) s h = ground arith

  pub run_sound :
      (actions : List (Action R)) (s t : HarvestScheduler R)
      → is_sound s ≡ true
      → run actions s ≡ some t
      → is_sound t ≡ true
  unfolding run
  run_sound [] s t h k = subst (λ x. is_sound x ≡ true) (some_inj.0 k) h
  run_sound (a ∷ actions) s t h k = elim (Option-cases (step a s)) [
    | inl e ↦ cc (rw e at k)
    | inr (u, e) ↦ run_sound actions u t (rw e at (step_sound a s h)) (rw e at k)
  ]

  -- From the start, whatever the callers and the worker do and in whatever order: while a request is
  -- waiting for a run to observe it, there is a stored wake, a call that is about to leave one, or a
  -- worker that is up and has yet to observe it; and the status says that a harvest is running
  -- exactly in the phases in which one is.
  pub poke_is_kept :
      (actions : List (Action R)) (s : HarvestScheduler R)
      → run actions fresh ≡ some s
      → ((s.dirty ≡ false)
          ⊎ (s.permit ≡ true)
          ⊎ (0 < s.forcing + s.notifying)
          ⊎ (is_awake s.phase ≡ true))
        × (s.status.running ≡ is_running s.phase)
  poke_is_kept actions s h =
      let sound = run_sound actions fresh s (unfold fresh in refl) h in ground arith

  abbrev is_observe : Action R → Bool
  is_observe observe = true
  is_observe _ = false

  abbrev still_dirty : Option (HarvestScheduler R) → Bool
  still_dirty none = true
  still_dirty (some t) = t.dirty

  step-dirty :
      (a : Action R) (s : HarvestScheduler R)
      → s.dirty ≡ true
      → is_observe a ≡ false
      → still_dirty (step a s) ≡ true
  unfolding step
  step-dirty poke s h n = refl
  step-dirty force s h n = refl
  step-dirty set_force s h n = ground arith
  step-dirty notify_one s h n = ground arith
  step-dirty notified s h n = ground arith
  step-dirty swap s h n = ground arith
  step-dirty slept s h n = ground arith
  step-dirty start s h n = ground arith
  step-dirty observe s h n = cc
  step-dirty (finish result now) s h n = ground arith

  run-dirty :
      (actions : List (Action R)) (s t : HarvestScheduler R)
      → s.dirty ≡ true
      → all (λ a. not (is_observe a)) actions ≡ true
      → run actions s ≡ some t
      → t.dirty ≡ true
  unfolding run
  run-dirty [] s t h n k = ap (λ x. x.dirty) (sym (some_inj.0 k)) ∙ h
  run-dirty (a ∷ actions) s t h n k = elim (Option-cases (step a s)) [
    | inl e ↦ cc (rw e at k)
    | inr (u, e) ↦
        run-dirty actions u t (rw e at (step-dirty a s h (ground arith))) (ground arith) (rw e at k)
  ]

  -- From a poke until a run observes it the registry counts as unsettled.
  pub poke-is_unsettled :
      (actions : List (Action R)) (s t u : HarvestScheduler R)
      → step poke s ≡ some t
      → run actions t ≡ some u
      → all (λ a. not (is_observe a)) actions ≡ true
      → is_unsettled u ≡ true
  unfolding is_unsettled
  poke-is_unsettled actions s t u h k n =
      let dirty : t.dirty ≡ true = unfold step in ap (λ x. x.dirty) (sym (some_inj.0 h)) in
      let still = run-dirty actions t u dirty n k in ground arith
