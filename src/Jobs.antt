-- ===== src/Jobs.antt =====
-- src/jobs.rs: background jobs, what they log, and how many of them are kept.
pub mod Tail
pub mod Publish
mod Tests
use smrt.Base.{
  ℕ, ◌+◌, ◌-◌, ◌/◌, min, ap, Bool, true, false, not, Option, none, some, List, [], ◌∷◌, ◌++◌, ltb,
  if◌then◌else◌, ◌==◌, ℕ-Eq, length, drop, retain, any, Text, Text-Eq, text_lt, ℤ-Eq,
}

pub data Status : Type 0 where
  running : Status
  finished : Status
  failed : Status

abbrev pub is_running : Status → Bool
is_running running = true
is_running finished = false
is_running failed = false

-- a `Job` with its `Inner`, whose result is of any type
pub record Job {ℓ} (R : Type ℓ) : Type ℓ where
  pub id : Text
  pub kind : Text
  pub pack_id : Text
  pub log : List Text
  pub status : Status
  pub result : Option R
  pub blocked : List Text

abbrev keep_min : Text → Option Text → Text
keep_min id none = id
keep_min id (some least) = if text_lt least id then least else id

module _ {ℓ} {R : Type ℓ} where
  unfoldable pub line : Text → Job R → Job R
  line text job = record job { log = job.log ++ (text ∷ []) }

  unfoldable pub finish : Status → Job R → Job R
  finish status job = record job { status = status }

  unfoldable pub set_result : R → Job R → Job R
  set_result result job = record job { result = some result }

  unfoldable pub set_blocked : List Text → Job R → Job R
  set_blocked blocked job = record job { blocked = blocked }

  -- `log.get(from..)`, which is nothing behind the end
  unfoldable pub since : ℕ → Job R → List Text × Status
  since start job = (drop start job.log, job.status)

  -- the least id of a job that is not running
  unfoldable pub victim : List (Job R) → Option Text
  victim [] = none
  victim (j ∷ jobs) =
      let rest = victim jobs in if is_running j.status then rest else some (keep_min j.id rest)

  unfoldable pub remove_job : Text → List (Job R) → List (Job R)
  remove_job id jobs = retain (λ j. not (j.id == id)) jobs

  abbrev evict : Option Text → List (Job R) → List (Job R)
  evict none jobs = jobs
  evict (some id) jobs = remove_job id jobs

  abbrev pub new_job : Text → Text → Text → Job R
  new_job id kind pack_id = record {
    id = id;
    kind = kind;
    pack_id = pack_id;
    log = [];
    status = running;
    result = none;
    blocked = [];
  }

  -- `JobRegistry::create`, with the id that it mints; `HashMap::insert` replaces the job of that id
  unfoldable pub create : List (Job R) → Text → Text → Text → List (Job R)
  unfolding victim remove_job
  create jobs id kind pack_id =
      let inserted : List (Job R) = new_job id kind pack_id ∷ remove_job id jobs in
      if ltb 50 (length inserted) then evict (victim inserted) inserted else inserted
