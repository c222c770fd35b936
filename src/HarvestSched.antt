-- ===== src/HarvestSched.antt =====
-- src/authoring/harvest_sched.rs: the background harvester, as the steps that its worker and the callers
-- of `poke` and `force` take one at a time, in any order. A report is of any type, and the harvest
-- itself is what its step says it answered.
pub mod Settle
pub mod Served
mod Tests
use smrt.Base.{
  ℕ, zero, suc, ◌+◌, ◌-◌, ◌/◌, ap, Bool, true, false, not, ◌||◌, Option, none, some, List, [], ◌∷◌,
  ◌++◌, if◌then◌else◌, ℕ-Eq, ◌>>=◌, any, all, Text, txt, Text-Eq, ℤ-Eq,
}
use smrt.Base.Results.{Result, err, ok}

-- where the worker of `spawn` stands
pub data Phase : Type 0 where
  waiting : Phase
  woken : Phase
  settling : Phase
  woken_again : Phase
  ready : Phase
  started : Phase
  executing : Phase

pub record HarvestStatus {ℓ} (R : Type ℓ) : Type ℓ where
  pub running : Bool
  pub last_report : Option R
  pub last_error : Option Text
  pub last_finished : Option Text

-- `permit` is the wake that `Notify` stores; `forcing` and `notifying` count the calls that are under
-- way: those of `force` that have yet to set the flag, and those that have yet to notify.
pub record HarvestScheduler {ℓ} (R : Type ℓ) : Type ℓ where
  pub dirty : Bool
  pub force_now : Bool
  pub permit : Bool
  pub forcing : ℕ
  pub notifying : ℕ
  pub phase : Phase
  pub status : HarvestStatus R

pub data Action {ℓ} (R : Type ℓ) : Type ℓ where
  -- `dirty.store(true)` in `poke` and in `force`, `force_now.store(true)`, `wake.notify_one()`
  poke : Action R
  force : Action R
  set_force : Action R
  notify_one : Action R
  -- `wake.notified().await` and `force_now.swap(false)`, in front of the settle loop and in it
  notified : Action R
  swap : Action R
  -- `sleep(DEBOUNCE)` runs out
  slept : Action R
  -- `running = true`, `dirty.store(false)`, and the end of the run
  start : Action R
  observe : Action R
  finish : (result : Result (Result R)) → (now : Text) → Action R

module _ {ℓ} {R : Type ℓ} where
  abbrev pub with_running : Bool → HarvestStatus R → HarvestStatus R
  with_running b st = record {
    running = b;
    last_report = st.last_report;
    last_error = st.last_error;
    last_finished = st.last_finished;
  }

  -- what the run leaves in the status: its report, its error, or that its task crashed
  unfoldable pub settle_status : Result (Result R) → Text → HarvestStatus R → HarvestStatus R
  settle_status (ok (ok report)) now st = record {
    running = false;
    last_report = some report;
    last_error = none;
    last_finished = some now;
  }
  settle_status (ok (err message)) now st = record {
    running = false;
    last_report = st.last_report;
    last_error = some message;
    last_finished = some now;
  }
  settle_status (err join) now st = record {
    running = false;
    last_report = st.last_report;
    last_error = some (txt "harvest task crashed: " ++ join);
    last_finished = some now;
  }

  unfoldable pub is_unsettled : HarvestScheduler R → Bool
  is_unsettled s = s.dirty || s.status.running

  unfoldable pub fresh : HarvestScheduler R
  fresh = record {
    dirty = false;
    force_now = false;
    permit = false;
    forcing = 0;
    notifying = 0;
    phase = waiting;
    status = record {
      running = false;
      last_report = none;
      last_error = none;
      last_finished = none;
    };
  }

  abbrev at_phase : Phase → HarvestScheduler R → HarvestScheduler R
  at_phase phase s = record s { phase = phase }

  -- One step, or `none` where it cannot be taken.
  unfoldable pub step : Action R → HarvestScheduler R → Option (HarvestScheduler R)
  unfolding settle_status
  step poke s = some (record s { dirty = true; notifying = suc s.notifying })
  step force s = some (record s { dirty = true; forcing = suc s.forcing })
  step set_force s = elim s.forcing [
    | zero ↦ none
    | suc n ↦ some (record s { force_now = true; forcing = n; notifying = suc s.notifying })
  ]
  step notify_one s = elim s.notifying [
    | zero ↦ none
    | suc n ↦ some (record s { permit = true; notifying = n })
  ]
  step notified s = elim s.phase [
    | waiting ↦ if s.permit then some (record s { permit = false; phase = woken }) else none
    | settling ↦ if s.permit then some (record s { permit = false; phase = woken_again }) else none
    | _ ↦ none
  ]
  step swap s = elim s.phase [
    | woken ↦ some (record s { force_now = false; phase = if s.force_now then ready else settling })
    | woken_again ↦
        some (record s { force_now = false; phase = if s.force_now then ready else settling })
    | _ ↦ none
  ]
  step slept s = elim s.phase [ settling ↦ some (at_phase ready s) | _ ↦ none ]
  step start s = elim s.phase [
    | ready ↦ some (record s { phase = started; status = with_running true s.status })
    | _ ↦ none
  ]
  step observe s = elim s.phase [
    | started ↦ some (record s { dirty = false; phase = executing })
    | _ ↦ none
  ]
  step (finish result now) s = elim s.phase [
    | executing ↦ some (record s { phase = waiting; status = settle_status result now s.status })
    | _ ↦ none
  ]

  unfoldable pub run : List (Action R) → HarvestScheduler R → Option (HarvestScheduler R)
  unfolding step
  run [] s = some s
  run (a ∷ actions) s = step a s >>= λ t. run actions t
