-- ===== src/HarvestSched/Served.antt =====
-- What the worker of src/authoring/harvest_sched.rs comes to on its own, whichever of its steps it takes.
use smrt.Base.{
  ℕ, ◌≤◌, ◌<◌, ◌≡◌, refl, sym, ap, ◌∙◌, inl, inr, Bool, true, false, not, ◌&&◌, Option, none, some,
  List, [], ◌∷◌, ◌++◌, arith, ltb, leb, if◌then◌else◌, ℕ-Eq, Bool-cases, Option-cases, length, all,
  Text-Eq, ℤ-Eq,
}
use smrt.Base.Results.{err, ok}
use mathlib.Core.Option.{some_inj}
use smrt.HarvestSched.{
  Phase, waiting, woken, settling, woken_again, ready, started, executing, HarvestScheduler, Action,
  poke, force, set_force, notify_one, notified, swap, slept, start, observe, finish, fresh, step,
  run, settle_status,
}
use smrt.HarvestSched.Settle.{is_sound, run_sound}

module _ {ℓ} {R : Type ℓ} where
  -- the steps that the worker takes, the end of its run with any result among them
  abbrev pub is_worker : Action R → Bool
  is_worker poke = false
  is_worker force = false
  is_worker set_force = false
  is_worker notify_one = false
  is_worker _ = true

  abbrev is_observe : Action R → Bool
  is_observe observe = true
  is_observe _ = false

  -- a request is waiting, and nobody is about to notify
  abbrev is_waiting : HarvestScheduler R → Bool
  is_waiting s = is_sound s && s.dirty && leb s.forcing 0 && leb s.notifying 0

  -- how many steps there are at most to the next observation; a wake that is stored costs two more
  abbrev left : HarvestScheduler R → ℕ
  left s = elim s.phase [
    | waiting ↦ 5
    | woken ↦ if s.permit then 6 else 4
    | settling ↦ if s.permit then 5 else 3
    | woken_again ↦ if s.permit then 6 else 4
    | ready ↦ 2
    | started ↦ 1
    | executing ↦ 6
  ]

  abbrev nearer : HarvestScheduler R → Option (HarvestScheduler R) → Bool
  nearer s none = true
  nearer s (some t) = is_waiting t && ltb (left t) (left s)

  abbrev seen : Option (HarvestScheduler R) → Bool
  seen none = true
  seen (some t) = not t.dirty

  step-nearer :
      (a : Action R) (s : HarvestScheduler R)
      → is_worker a ≡ true
      → is_observe a ≡ false
      → is_waiting s ≡ true
      → nearer s (step a s) ≡ true
  unfolding step settle_status
  step-nearer notified s w n h = ground arith
  step-nearer swap s w n h = ground arith
  step-nearer slept s w n h = ground arith
  step-nearer start s w n h = ground arith
  step-nearer (finish (ok (ok report)) now) s w n h = ground arith
  step-nearer (finish (ok (err message)) now) s w n h = ground arith
  step-nearer (finish (err join) now) s w n h = ground arith
  step-nearer observe s w n h = cc
  step-nearer poke s w n h = cc
  step-nearer force s w n h = cc
  step-nearer set_force s w n h = cc
  step-nearer notify_one s w n h = cc

  step_observe :
      (s t : HarvestScheduler R)
      → step observe s ≡ some t
      → (t.dirty ≡ false) × (t.phase ≡ executing)
  unfolding step
  step_observe s t h = observed s.phase h
    where
      observed :
          (p : Phase)
          → (elim p as (λ q. Option (HarvestScheduler R)) [
            | started ↦ some (record s { dirty = false; phase = executing })
            | _ ↦ none
          ])
            ≡ some t
          → (t.dirty ≡ false) × (t.phase ≡ executing)
      observed started k =
          let same = some_inj.0 k in (sym (ap (λ x. x.dirty) same), sym (ap (λ x. x.phase) same))
      observed waiting k = cc
      observed woken k = cc
      observed settling k = cc
      observed woken_again k = cc
      observed ready k = cc
      observed executing k = cc

  is_observe_eq : (a : Action R) → is_observe a ≡ true → a ≡ observe
  is_observe_eq observe h = refl
  is_observe_eq poke h = cc
  is_observe_eq force h = cc
  is_observe_eq set_force h = cc
  is_observe_eq notify_one h = cc
  is_observe_eq notified h = cc
  is_observe_eq swap h = cc
  is_observe_eq slept h = cc
  is_observe_eq start h = cc
  is_observe_eq (finish result now) h = cc

  left_pos : (s : HarvestScheduler R) → 0 < left s
  left_pos s = ground arith

  left_bound : (s : HarvestScheduler R) → left s ≤ 6
  left_bound s = ground arith

  -- Among the steps there is one that observes all requests, with fewer than so many in front of it.
  abbrev pub HasObserved : List (Action R) → HarvestScheduler R → ℕ → Type ℓ
  HasObserved steps s bound =
      (before : List (Action R)) × (rest : List (Action R)) × (steps ≡ before ++ (observe ∷ rest))
      × (length before < bound)
      × (u : HarvestScheduler R) × (run (before ++ (observe ∷ [])) s ≡ some u)
      × (u.dirty ≡ false)
      × (u.phase ≡ executing)

  observed_first :
      (a : Action R) (rest : List (Action R)) (s u : HarvestScheduler R)
      → is_observe a ≡ true
      → step a s ≡ some u
      → HasObserved (a ∷ rest) s (left s)
  unfolding run
  observed_first a rest s u o e =
      let same = is_observe_eq a o in
      let taken : step observe s ≡ some u = ap (λ b. step b s) (sym same) ∙ e in
      (
        [],
        rest,
        ap (λ b. b ∷ rest) same,
        left_pos s,
        u,
        rw taken refl,
        (step_observe s u taken).0,
        (step_observe s u taken).1,
      )

  observed_later :
      (a : Action R) (rest : List (Action R)) (s u : HarvestScheduler R)
      → step a s ≡ some u
      → left u < left s
      → HasObserved rest u (left u)
      → HasObserved (a ∷ rest) s (left s)
  unfolding run
  observed_later a rest s u e near (before, behind, split, short, t, ran, clean, up) = (
    a ∷ before,
    behind,
    ap (λ l. a ∷ l) split,
    omega (arith, short, near),
    t,
    rw e ran,
    clean,
    up,
  )

  observes :
      (steps : List (Action R)) (s t : HarvestScheduler R)
      → is_waiting s ≡ true
      → all is_worker steps ≡ true
      → run steps s ≡ some t
      → left s ≤ length steps
      → HasObserved steps s (left s)
  unfolding run
  observes [] s t w all_worker r long = absurd (omega (arith, left_pos s, long))
  observes (a ∷ steps) s t w all_worker r long = elim (Option-cases (step a s)) [
    | inl e ↦ cc (rw e at r)
    | inr (u, e) ↦ elim (Bool-cases (is_observe a)) [
      | inl o ↦ observed_first a steps s u o e
      | inr n ↦
          let both : nearer s (some u) ≡ true =
            ap (nearer s) (sym e) ∙ step-nearer a s (ground arith) n w in
          let near : left u < left s = ground arith in
          observed_later a steps s u e near (
            observes steps u t (ground arith) (ground arith) (rw e at r)
              (omega (arith, near, long)))
    ]
  ]

  abbrev next : HarvestScheduler R → Action R
  next s = elim s.phase [
    | waiting ↦ notified
    | woken ↦ swap
    | settling ↦ slept
    | woken_again ↦ swap
    | ready ↦ start
    | started ↦ observe
    | executing ↦ finish (err []) []
  ]

  abbrev is_taken : Option (HarvestScheduler R) → Bool
  is_taken none = false
  is_taken (some t) = true

  next_taken : (s : HarvestScheduler R) → is_waiting s ≡ true → is_taken (step (next s) s) ≡ true
  unfolding step
  next_taken s h = ground arith

  next-is_worker : (s : HarvestScheduler R) → is_worker (next s) ≡ true
  next-is_worker s = ground arith

  waiting_now :
      (actions : List (Action R)) (s : HarvestScheduler R)
      → run actions fresh ≡ some s
      → s.dirty ≡ true
      → s.forcing ≡ 0
      → s.notifying ≡ 0
      → is_waiting s ≡ true
  waiting_now actions s h dirty f n =
      let sound = run_sound actions fresh s (unfold fresh in refl) h in ground arith

  -- A request is served whatever the worker does: in a state that was come to from the start, where a
  -- request is waiting and no call is under way, any six steps that the worker can take one after
  -- another have among them one that observes every request and begins a run.
  pub poke_is_served :
      (actions steps : List (Action R)) (s t : HarvestScheduler R)
      → run actions fresh ≡ some s
      → s.dirty ≡ true
      → s.forcing ≡ 0
      → s.notifying ≡ 0
      → all is_worker steps ≡ true
      → run steps s ≡ some t
      → 6 ≤ length steps
      → HasObserved steps s 6
  poke_is_served actions steps s t h dirty f n by_worker r long =
      let bound = left_bound s in
      let (before, behind, split, short, u, ran, clean, up) =
        observes steps s t (waiting_now actions s h dirty f n) by_worker r
          (omega (arith, bound, long)) in
      (before, behind, split, omega (arith, short, bound), u, ran, clean, up)

  -- The worker is never stuck on a request: in a state that was come to from the start, where a request
  -- is waiting and no call is under way, there is a step that it can take.
  pub worker_goes_on :
      (actions : List (Action R)) (s : HarvestScheduler R)
      → run actions fresh ≡ some s
      → s.dirty ≡ true
      → s.forcing ≡ 0
      → s.notifying ≡ 0
      → (a : Action R) × (t : HarvestScheduler R) × (is_worker a ≡ true) × (step a s ≡ some t)
  worker_goes_on actions s h dirty f n =
      let taken = next_taken s (waiting_now actions s h dirty f n) in
      elim (Option-cases (step (next s) s)) [
        | inl e ↦ cc (taken, ap is_taken e)
        | inr (t, e) ↦ (next s, t, next-is_worker s, e)
      ]
