-- ===== src/ScheduledRuns.antt =====
-- packages/api/src/api/services/scheduled_runs.py: the rows of `scheduled_task_runs`, and the writes
-- that launch, start and end a run. The settling of runs at startup is that of services/scheduler.py.
pub mod Launches
pub mod Counts
pub mod Guards
pub mod Invariant
pub mod Writes
pub mod Slots
pub mod Kept
pub mod Replies
mod Tests
use agents_universe.Prelude.{
  ℕ, suc, ◌+◌, Bool, true, false, ◌&&◌, ◌||◌, not, Option, none, some, List, [], ◌∷◌, ◌++◌, leb,
  if◌then◌else◌, take,
}
use agents_universe.Prelude.Text.{Text, codes}
use agents_universe.Prelude.TextSet.{same}

pub data RunStatus : Type 0 where
  pending running completed failed skipped : RunStatus

-- status in ("pending", "running")
unfoldable pub is_active : RunStatus → Bool
is_active pending = true
is_active running = true
is_active completed = false
is_active failed = false
is_active skipped = false

-- status in ("completed", "failed", "skipped")
unfoldable pub is_over : RunStatus → Bool
is_over pending = false
is_over running = false
is_over completed = true
is_over failed = true
is_over skipped = true

pub data Trigger : Type 0 where
  schedule manual : Trigger

pub record ScheduledRun : Type 0 where
  pub run_id : Text
  pub schedule_id : Text
  pub trigger : Trigger
  pub status : RunStatus
  pub script_run_id : Option Text
  pub summary : Option Text
  pub error : Option Text
  pub started_at : ℕ
  pub completed_at : Option ℕ

-- What the runs read and write of a task's row.
pub record Task : Type 0 where
  pub schedule_id : Text
  pub notify : Bool
  pub last_run_at : Option ℕ
  pub last_status : Option RunStatus

abbrev pub max_background_runs : ℕ
max_background_runs = 64

abbrev pub text_cap : ℕ
text_cap = 2000

-- _new_skipped_run()
unfoldable pub new_skipped_run : Text → Text → Trigger → Text → ℕ → ScheduledRun
new_skipped_run run_id schedule_id trigger error now = record {
  run_id = run_id;
  schedule_id = schedule_id;
  trigger = trigger;
  status = skipped;
  script_run_id = none;
  summary = none;
  error = some error;
  started_at = now;
  completed_at = some now;
}

unfoldable pub new_pending_run : Text → Text → Trigger → ℕ → ScheduledRun
new_pending_run run_id schedule_id trigger now = record {
  run_id = run_id;
  schedule_id = schedule_id;
  trigger = trigger;
  status = pending;
  script_run_id = none;
  summary = none;
  error = none;
  started_at = now;
  completed_at = none;
}

-- The query of spawn_run() for a run of the schedule that is not over.
unfoldable pub has_active : Text → List ScheduledRun → Bool
has_active id [] = false
has_active id (r ∷ runs) = (is_active r.status && same r.schedule_id id) || has_active id runs

-- What spawn_run() does once it has the answer of that query: it raises ScheduleBusy, writes a skipped
-- run, or reserves a slot.
pub data Decision : Type 0 where
  busy : Text → Decision
  skip : Text → Decision
  reserve : Decision

unfoldable pub decide : Trigger → Bool → ℕ → Decision
decide manual true slots = busy (codes "This task already has a run in progress")
decide schedule true slots = skip (codes "Previous run still in progress")
decide manual false slots =
    if leb max_background_runs slots
    then busy (codes "Background execution queue is full")
    else reserve
decide schedule false slots =
    if leb max_background_runs slots
    then skip (codes "Background execution queue is full")
    else reserve

-- `select(...).where(run_id == ...)`
unfoldable pub find_run : Text → List ScheduledRun → Option ScheduledRun
find_run id [] = none
find_run id (r ∷ runs) = if same r.run_id id then some r else find_run id runs

unfoldable pub find_task : Text → List Task → Option Task
find_task id [] = none
find_task id (t ∷ tasks) = if same t.schedule_id id then some t else find_task id tasks

-- The row of the run, written back.
unfoldable pub update_run :
    Text → (ScheduledRun → ScheduledRun) → List ScheduledRun → List ScheduledRun
update_run id f [] = []
update_run id f (r ∷ runs) = (if same r.run_id id then f r else r) ∷ update_run id f runs

unfoldable pub update_task : Text → (Task → Task) → List Task → List Task
update_task id f [] = []
update_task id f (t ∷ tasks) = (if same t.schedule_id id then f t else t) ∷ update_task id f tasks

-- The start of execute_run().

unfoldable pub is_skipped : RunStatus → Bool
is_skipped skipped = true
is_skipped pending = false
is_skipped running = false
is_skipped completed = false
is_skipped failed = false

unfoldable pub orphan : ℕ → ScheduledRun → ScheduledRun
orphan now r = record r {
  status = failed;
  error = some (codes "Scheduled task was deleted before the run started");
  completed_at = some now;
}

unfoldable pub start : ℕ → ScheduledRun → ScheduledRun
start now r = record r { status = running; started_at = now }

-- The rows behind it and, where the run goes on, the `notify` of its target.
unfoldable pub begin_run :
    Text → ℕ → List Task → List ScheduledRun → List ScheduledRun × Option Bool
begin_run id now tasks runs = elim (find_run id runs) [
  | none ↦ (runs, none)
  | some r ↦ if is_skipped r.status then (runs, none) else (elim (find_task r.schedule_id tasks) [
    | none ↦ (update_run id (orphan now) runs, none)
    | some t ↦ (update_run id (start now) runs, some t.notify)
  ])
]

-- The ends of a target: `_Outcome`.
pub data Ended : Type 0 where
  completes fails skips : Ended

unfoldable pub status_of : Ended → RunStatus
status_of completes = completed
status_of fails = failed
status_of skips = skipped

pub record Outcome : Type 0 where
  pub status : Ended
  pub summary : Option Text
  pub error : Option Text
  pub script_run_id : Option Text
  pub reply_persisted : Bool

-- `(text or "")[:cap] or None`
unfoldable pub capped : Option Text → Option Text
capped none = none
capped (some []) = none
capped (some (c ∷ t)) = some (take text_cap (c ∷ t))

-- `if outcome.script_run_id`
unfoldable pub next_script_run : Option Text → Option Text → Option Text
next_script_run none old = old
next_script_run (some []) old = old
next_script_run (some (c ∷ t)) old = some (c ∷ t)

unfoldable pub finish : Outcome → ℕ → ScheduledRun → ScheduledRun
finish o now r = record r {
  status = status_of o.status;
  summary = capped o.summary;
  error = capped o.error;
  script_run_id = next_script_run o.script_run_id r.script_run_id;
  completed_at = some now;
}

unfoldable pub is_told : Ended → Bool
is_told completes = true
is_told fails = true
is_told skips = false

-- _finalize(): the rows behind it, and whether the result is delivered.
unfoldable pub finalize :
    Text → Outcome → Bool → ℕ → List Task → List ScheduledRun → List Task × List ScheduledRun × Bool
finalize id o notify now tasks runs = elim (find_run id runs) [
  | none ↦ (tasks, runs, false)
  | some r ↦ (
    update_task r.schedule_id
        (λ t. record t { last_run_at = some now; last_status = some (status_of o.status) }) tasks,
    update_run id (finish o now) runs,
    notify && is_told o.status,
  )
]

-- _finalize_failure()
unfoldable pub fail : Text → ℕ → ScheduledRun → ScheduledRun
fail message now r =
    if is_over r.status
    then r
    else record r { status = failed; error = some (take text_cap message); completed_at = some now }

unfoldable pub finalize_failure : Text → Text → ℕ → List ScheduledRun → List ScheduledRun
finalize_failure id message now runs = update_run id (fail message now) runs

-- The first write of startup_sweep(), with its `rowcount`.
unfoldable pub settle_runs : ℕ → List ScheduledRun → List ScheduledRun × ℕ
settle_runs now [] = ([], 0)
settle_runs now (r ∷ runs) =
    let (rest, n) = settle_runs now runs in
    if is_active r.status
    then (
      record r {
        status = failed;
        error = some (codes "Interrupted by server restart");
        completed_at = some now;
      }
          ∷ rest,
      suc n,
    )
    else (r ∷ rest, n)
