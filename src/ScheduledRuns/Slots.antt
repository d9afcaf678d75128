-- ===== src/ScheduledRuns/Slots.antt =====
-- The invariant holds at every point of the life of a process.
use agents_universe.Prelude.{ℕ, ◌≤◌, ◌≡◌, refl, sym, ap, true, List, [], arith, inl, inr}
use agents_universe.Prelude.Text.{Text}
use agents_universe.Prelude.TextSet.{distinct}
use agents_universe.ScheduledRuns.{
  ScheduledRun, Task, has_active, fail, finalize_failure, settle_runs,
}
use agents_universe.ScheduledRuns.Launches.{
  delete_task, locked, looked, failing, Service, slots, run_ids, work_ids, lock_ids, Step, locks,
  looks, resumes, stores, gives_up, gives_back, begins, ends, delivers, raises, settles, loses,
  deletes, Reach, here, next,
}
use agents_universe.ScheduledRuns.Counts.{active_count, active_count-zero, settle_lem}
use agents_universe.ScheduledRuns.Guards.{is_clear, guarded-put, is_open}
use agents_universe.ScheduledRuns.Invariant.{
  holds_slot, holders, Inv, moved, dropped, given_back, resume-Inv, skip-Inv, launch-Inv,
}
use agents_universe.ScheduledRuns.Writes.{
  fail-IsCalm, fail-WakesNone, updated, ended, staged, begin-Inv, end-Inv, delete-Inv,
}

Step-Inv : {s u : Service} → Step s u → Inv s → Inv u
unfolding slots holds_slot holders is_clear is_open finalize_failure delete_task
Step-Inv (locks s id trigger t free known) v = record {
  capped = v.capped;
  held = omega (arith, v.held);
  guarded =
      guarded-put [] s.launches (record { schedule_id = id; trigger = trigger; phase = locked })
        s.runs v.guarded free (λ e. absurd (ground arith));
  single = v.single;
  owned = v.owned;
  rows = v.rows;
}
Step-Inv (looks s before after l w e) v =
    moved s v before after l w (looked (has_active l.schedule_id s.runs)) (sym (ap holds_slot e))
      (λ c. active_count-zero l.schedule_id s.runs (ground arith))
Step-Inv (resumes s before after l active w e) v = resume-Inv s v before after l w active e
Step-Inv (Step.skips s before after l error run_id now w e fresh) v =
    skip-Inv s v before after l w error run_id now (ap holds_slot e) fresh
Step-Inv (stores s before after l run_id now w e fresh) v =
    launch-Inv s v before after l w run_id now e fresh
Step-Inv (gives_up s before after l w (inl e)) v = dropped s v before after l w (ap holds_slot e)
Step-Inv (gives_up s before after l w (inr (error, e))) v =
    dropped s v before after l w (ap holds_slot e)
Step-Inv (gives_back s before after l w e) v = given_back s v before after l w e
Step-Inv (begins s before after id now w) v = begin-Inv s before after id now v w
Step-Inv (ends s before after id notify o now w) v = end-Inv s before after id notify o now v w
Step-Inv (delivers s before after id w) v = ended s v before after _ w
Step-Inv (raises s before after t message w) v = staged s v before after t w (failing message) refl
Step-Inv (settles s before after id message now w) v =
    updated s v before after _ w s.tasks (fail message now) (fail-IsCalm message now)
      (fail-WakesNone id message now s.runs)
Step-Inv (loses s before after id message w) v = ended s v before after _ w
Step-Inv (deletes s id) v = delete-Inv s id v

pub Reach-Inv : {s u : Service} → Inv s → Reach s u → Inv u
Reach-Inv v here = v
Reach-Inv v (next r t) = Step-Inv t (Reach-Inv v r)

-- A process that has just settled the runs of the one before it.
unfoldable pub new_service : List Task → List ScheduledRun → ℕ → Service
new_service tasks runs now = record {
  tasks = tasks;
  runs = (settle_runs now runs).0;
  launches = [];
  work = [];
  reserved = 0;
}

pub new_service-Inv :
    (tasks : List Task) (runs : List ScheduledRun) (now : ℕ)
    → distinct (run_ids runs) ≡ true
    → Inv (new_service tasks runs now)
unfolding new_service slots holders distinct lock_ids work_ids
new_service-Inv tasks runs now u = record {
  capped = omega arith;
  held = refl;
  guarded = record { apart = refl; clear = tt };
  single = λ id. omega (arith, (settle_lem now runs).0 id);
  owned = record { apart = refl; active = tt };
  rows = rw (settle_lem now runs).1 u;
}

-- At every point of the life of a process that began with the sweep, however its launches and its
-- background tasks interleave, and whatever of them fails: a schedule has at most one run that is
-- pending or running, and the background tasks with the reserved slots are at most 64; where no two
-- rows share a run id at the start.
pub Reach-single :
    (tasks : List Task) (runs : List ScheduledRun) (now : ℕ) (s : Service) (id : Text)
    → distinct (run_ids runs) ≡ true
    → Reach (new_service tasks runs now) s
    → (active_count id s.runs ≤ 1) × (slots s ≤ 64)
Reach-single tasks runs now s id u r =
    let v = Reach-Inv (new_service-Inv tasks runs now u) r in (v.single id, v.capped)
