-- ===== src/ScheduledRuns/Launches.antt =====
-- The launches and the background tasks of one process, as steps between two waits. A launch holds the
-- lock of its schedule from its first step to its last one.
use agents_universe.Prelude.{
  ℕ, suc, ◌+◌, ◌-◌, ◌≡◌, ◌⊎◌, Bool, true, false, not, Option, none, some, List, [], ◌∷◌, ◌++◌, map,
  length, keep,
}
use agents_universe.Prelude.Text.{Text}
use agents_universe.Prelude.TextSet.{same, elem}
use agents_universe.ScheduledRuns.{
  ScheduledRun, Task, Trigger, busy, skip, reserve, Outcome, new_skipped_run, new_pending_run,
  has_active, decide, find_task, begin_run, finalize, finalize_failure,
}

pub data Phase : Type 0 where
  -- the lock is taken, and the task's row was found
  locked : Phase
  -- the answer of the query for an active run
  looked : Bool → Phase
  -- a skipped run is to be written
  skipping : Text → Phase
  -- a slot is reserved
  storing : Phase

pub record Launch : Type 0 where
  pub schedule_id : Text
  pub trigger : Trigger
  pub phase : Phase

pub data Stage : Type 0 where
  queued : Stage
  working : Bool → Stage
  delivering : Stage
  failing : Text → Stage

-- A task of `_background_tasks`.
pub record Work : Type 0 where
  pub run_id : Text
  pub stage : Stage

pub record Service : Type 0 where
  pub tasks : List Task
  pub runs : List ScheduledRun
  pub launches : List Launch
  pub work : List Work
  pub reserved : ℕ

unfoldable pub slots : Service → ℕ
slots s = length s.work + s.reserved

-- A launch goes on with the answer of its query.
unfoldable pub resume : Service → List Launch → Launch → Bool → List Launch → Service
resume s before l active after = elim (decide l.trigger active (slots s)) [
  | busy error ↦ record s { launches = before ++ after }
  | skip error ↦ record s { launches = before ++ record l { phase = skipping error } ∷ after }
  | reserve ↦ record s {
    launches = before ++ record l { phase = storing } ∷ after;
    reserved = suc s.reserved;
  }
]

-- The row is committed, and `create_task(execute_run(...))` gives the slot back. The session is closed
-- between the two, which changes neither the state nor the number of slots.
unfoldable pub launch : Service → List Launch → Launch → Text → ℕ → List Launch → Service
launch s before l run_id now after = record s {
  runs = s.runs ++ new_pending_run run_id l.schedule_id l.trigger now ∷ [];
  launches = before ++ after;
  work = record { run_id = run_id; stage = queued } ∷ s.work;
  reserved = s.reserved - 1;
}

unfoldable pub go_on : List Work → Text → Option Bool → List Work → List Work
go_on before id none after = before ++ after
go_on before id (some notify) after =
    before ++ record { run_id = id; stage = working notify } ∷ after

unfoldable pub begin : Service → List Work → Text → ℕ → List Work → Service
begin s before id now after =
    let (runs, notify) = begin_run id now s.tasks s.runs in
    record s { runs = runs; work = go_on before id notify after }

unfoldable pub deliver_or_end : List Work → Text → Bool → List Work → List Work
deliver_or_end before id true after = before ++ record { run_id = id; stage = delivering } ∷ after
deliver_or_end before id false after = before ++ after

unfoldable pub end : Service → List Work → Text → Bool → Outcome → ℕ → List Work → Service
end s before id notify o now after =
    let (tasks, runs, told) = finalize id o notify now s.tasks s.runs in
    record s { tasks = tasks; runs = runs; work = deliver_or_end before id told after }

unfoldable pub run_ids : List ScheduledRun → List Text
run_ids = map (λ r. r.run_id)

unfoldable pub work_ids : List Work → List Text
work_ids = map (λ w. w.run_id)

unfoldable pub lock_ids : List Launch → List Text
lock_ids = map (λ l. l.schedule_id)

-- The row of a task goes with those of its runs.
unfoldable pub delete_task : Service → Text → Service
delete_task s id = record s {
  tasks = keep (λ t. not (same t.schedule_id id)) s.tasks;
  runs = keep (λ r. not (same r.schedule_id id)) s.runs;
}

-- An id that no run has had.
pub record IsFresh (s : Service) (id : Text) : Type 0 where
  pub no_row : elem id (run_ids s.runs) ≡ false
  pub no_work : elem id (work_ids s.work) ≡ false

pub data Step : Service → Service → Type 0 where
  locks :
      (s : Service) (id : Text) (trigger : Trigger) (t : Task)
      → elem id (lock_ids s.launches) ≡ false
      → find_task id s.tasks ≡ some t
      → Step s (record s {
        launches = record { schedule_id = id; trigger = trigger; phase = locked } ∷ s.launches;
      })
  looks :
      (s : Service) (before after : List Launch) (l : Launch)
      → s.launches ≡ before ++ l ∷ after
      → l.phase ≡ locked
      → Step s (record s {
        launches = before ++ record l { phase = looked (has_active l.schedule_id s.runs) } ∷ after;
      })
  resumes :
      (s : Service) (before after : List Launch) (l : Launch) (active : Bool)
      → s.launches ≡ before ++ l ∷ after
      → l.phase ≡ looked active
      → Step s (resume s before l active after)
  skips :
      (s : Service) (before after : List Launch) (l : Launch) (error run_id : Text) (now : ℕ)
      → s.launches ≡ before ++ l ∷ after
      → l.phase ≡ skipping error
      → IsFresh s run_id
      → Step s (record s {
        runs = s.runs ++ new_skipped_run run_id l.schedule_id l.trigger error now ∷ [];
        launches = before ++ after;
      })
  stores :
      (s : Service) (before after : List Launch) (l : Launch) (run_id : Text) (now : ℕ)
      → s.launches ≡ before ++ l ∷ after
      → l.phase ≡ storing
      → IsFresh s run_id
      → Step s (launch s before l run_id now after)
  -- an exception of the database, with no slot reserved
  gives_up :
      (s : Service) (before after : List Launch) (l : Launch)
      → s.launches ≡ before ++ l ∷ after
      → (l.phase ≡ locked) ⊎ ((error : Text) × (l.phase ≡ skipping error))
      → Step s (record s { launches = before ++ after })
  -- and with a slot reserved
  gives_back :
      (s : Service) (before after : List Launch) (l : Launch)
      → s.launches ≡ before ++ l ∷ after
      → l.phase ≡ storing
      → Step s (record s { launches = before ++ after; reserved = s.reserved - 1 })
  begins :
      (s : Service) (before after : List Work) (id : Text) (now : ℕ)
      → s.work ≡ before ++ record { run_id = id; stage = queued } ∷ after
      → Step s (begin s before id now after)
  ends :
      (s : Service) (before after : List Work) (id : Text) (notify : Bool) (o : Outcome) (now : ℕ)
      → s.work ≡ before ++ record { run_id = id; stage = working notify } ∷ after
      → Step s (end s before id notify o now after)
  delivers :
      (s : Service) (before after : List Work) (id : Text)
      → s.work ≡ before ++ record { run_id = id; stage = delivering } ∷ after
      → Step s (record s { work = before ++ after })
  -- an exception, or the shutdown of the server
  raises :
      (s : Service) (before after : List Work) (w : Work) (message : Text)
      → s.work ≡ before ++ w ∷ after
      → Step s (record s { work = before ++ record w { stage = failing message } ∷ after })
  settles :
      (s : Service) (before after : List Work) (id message : Text) (now : ℕ)
      → s.work ≡ before ++ record { run_id = id; stage = failing message } ∷ after
      → Step s (record s { runs = finalize_failure id message now s.runs; work = before ++ after })
  -- the write of a failure failed itself
  loses :
      (s : Service) (before after : List Work) (id message : Text)
      → s.work ≡ before ++ record { run_id = id; stage = failing message } ∷ after
      → Step s (record s { work = before ++ after })
  -- a task is deleted, with its runs
  deletes : (s : Service) (id : Text) → Step s (delete_task s id)

pub data Reach (s : Service) : Service → Type 0 where
  here : Reach s s
  next : {t u : Service} → Reach s t → Step t u → Reach s u
