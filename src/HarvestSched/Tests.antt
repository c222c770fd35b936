-- ===== src/HarvestSched/Tests.antt =====
-- The theorems on src/authoring/harvest_sched.rs at concrete runs of its worker and its callers.
use smrt.Base.{
  arith, List, txt, ◌+◌, ◌<◌, ◌≡◌, refl, ◌⊎◌, true, false, none, some, [], ◌∷◌, ℕ-Eq, Text, Text-Eq,
  ℤ-Eq,
}
use smrt.Base.Results.{err}
use smrt.HarvestSched.{
  HarvestScheduler, Action, waiting, poke, notify_one, notified, swap, slept, start, observe,
  finish, fresh, step, run, is_unsettled, settle_status,
}
use smrt.HarvestSched.Served.{is_worker, HasObserved, poke_is_served, worker_goes_on}
use smrt.HarvestSched.Settle.{is_awake, is_running, poke_is_kept, poke-is_unsettled}

abbrev poked : HarvestScheduler Text
poked = record {
  dirty = true;
  force_now = false;
  permit = false;
  forcing = 0;
  notifying = 1;
  phase = waiting;
  status = record { running = false; last_report = none; last_error = none; last_finished = none };
}

abbrev announced : HarvestScheduler Text
announced = record poked { permit = true; notifying = 0 }

poke_is_kept_example :
    ((true ≡ false) ⊎ (false ≡ true) ⊎ (0 < 0 + 1) ⊎ (is_awake waiting ≡ true))
    × (false ≡ is_running waiting)
unfolding run step fresh
poke_is_kept_example = poke_is_kept (poke ∷ []) poked refl

poke-is_unsettled_example : is_unsettled announced ≡ true
unfolding step run fresh
poke-is_unsettled_example = poke-is_unsettled (notify_one ∷ []) fresh poked announced refl refl refl

-- the state behind a wake, a window that runs out, and a run that ends
abbrev served : HarvestScheduler Text
served = record {
  dirty = false;
  force_now = false;
  permit = false;
  forcing = 0;
  notifying = 0;
  phase = waiting;
  status = record {
    running = false;
    last_report = none;
    last_error = some (txt "harvest task crashed: ");
    last_finished = some [];
  };
}

abbrev worker_steps : List (Action Text)
worker_steps = notified ∷ swap ∷ slept ∷ start ∷ observe ∷ finish (err []) [] ∷ []

poke_is_served_example : HasObserved worker_steps announced 6
unfolding run step fresh settle_status txt
poke_is_served_example =
    poke_is_served (poke ∷ notify_one ∷ []) worker_steps announced served refl refl refl refl refl
      refl (omega arith)

worker_goes_on_example :
    (a : Action Text) × (t : HarvestScheduler Text) × (is_worker a ≡ true)
    × (step a announced ≡ some t)
unfolding run step fresh
worker_goes_on_example = worker_goes_on (poke ∷ notify_one ∷ []) announced refl refl refl refl
