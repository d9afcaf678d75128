-- ===== src/ScheduledRuns/Kept.antt =====
-- A run that is over keeps its row.
use agents_universe.Prelude.{
  ℕ, ◌≡◌, ◌⊎◌, refl, ap, sym, ◌∙◌, Bool, true, false, some, List, arith, Bool-cases, Option-cases,
  inl, inr,
}
use agents_universe.Prelude.Text.{Text}
use agents_universe.Prelude.TextSet.{same, same_iff, distinct}
use agents_universe.ScheduledRuns.{
  ScheduledRun, Task, is_active, find_run, find_task, update_run, is_skipped, orphan, start,
  begin_run, Outcome, finish, finalize, finalize_failure,
}
use agents_universe.ScheduledRuns.Launches.{
  Launch, Work, Service, resume, launch, begin, end, delete_task, run_ids, Step, locks, looks,
  resumes, stores, gives_up, gives_back, begins, ends, delivers, raises, settles, loses, deletes,
  Reach,
}
use agents_universe.ScheduledRuns.Counts.{
  IsCalm, AreActive, find-update_other, find-AreActive, find-fail, find-append, find-keep,
}
use agents_universe.ScheduledRuns.Guards.{is_open}
use agents_universe.ScheduledRuns.Invariant.{Inv}
use agents_universe.ScheduledRuns.Writes.{owns, start-IsCalm, orphan-IsCalm, finish-IsCalm}
use agents_universe.ScheduledRuns.Slots.{Reach-Inv, new_service, new_service-Inv}

-- A write to a run that is active changes no run that is over.
find-written :
    (id id' : Text) (f : ScheduledRun → ScheduledRun) (runs : List ScheduledRun) (r : ScheduledRun)
    → IsCalm f
    → AreActive id' runs
    → find_run id runs ≡ some r
    → is_active r.status ≡ false
    → find_run id (update_run id' f runs) ≡ some r
find-written id id' f runs r calm active h over = elim (Bool-cases (same id' id)) [
  | inl one ↦
      let same_run : id' ≡ id = (same_iff id' id).0 one in
      absurd (ground (arith, over, find-AreActive id runs r (rw (← same_run) active) h))
  | inr other ↦
      find-update_other id id' f runs calm (λ e. ground (arith, other, (same_iff id' id).1 e)) ∙ h
]

module _ (s : Service) (id : Text) (r : ScheduledRun) (h : find_run id s.runs ≡ some r)
    (over : is_active r.status ≡ false) where
  begin-keeps :
      (before after : List Work) (id' : Text) (now : ℕ)
      → AreActive id' s.runs
      → find_run id (begin s before id' now after).runs ≡ some r
  unfolding begin begin_run
  begin-keeps before after id' now active = elim (Option-cases (find_run id' s.runs)) [
    | inl gone ↦ rw (gone, begin_run) h
    | inr (q, found) ↦ elim (Bool-cases (is_skipped q.status)) [
      | inl skipped_one ↦ rw (found, skipped_one, begin_run) h
      | inr go ↦ elim (Option-cases (find_task q.schedule_id s.tasks)) [
        | inl deleted ↦
            rw (found, go, deleted, begin_run)
              (find-written id id' (orphan now) s.runs r (orphan-IsCalm now) active h over)
        | inr (task, known) ↦
            rw (found, go, known, begin_run)
              (find-written id id' (start now) s.runs r (start-IsCalm now) active h over)
      ]
    ]
  ]

  end-keeps :
      (before after : List Work) (id' : Text) (notify : Bool) (o : Outcome) (now : ℕ)
      → AreActive id' s.runs
      → find_run id (end s before id' notify o now after).runs ≡ some r
  unfolding end finalize
  end-keeps before after id' notify o now active = elim (Option-cases (find_run id' s.runs)) [
    | inl gone ↦ rw (gone, finalize) h
    | inr (q, found) ↦
        rw (found, finalize)
          (find-written id id' (finish o now) s.runs r (finish-IsCalm o now) active h over)
  ]

  resume-runs :
      (before after : List Launch) (l : Launch) (active : Bool)
      → (resume s before l active after).runs ≡ s.runs
  unfolding resume
  resume-runs before after l active = ground arith

Step-keeps :
    {s u : Service} (id : Text) (r : ScheduledRun)
    → Step s u
    → Inv s
    → find_run id s.runs ≡ some r
    → is_active r.status ≡ false
    → (find_run id u.runs ≡ some r) ⊎ (u ≡ delete_task s r.schedule_id)
unfolding launch finalize_failure is_open delete_task
Step-keeps id r (locks s id' trigger t free known) v h over = inl h
Step-keeps id r (looks s before after l w e) v h over = inl h
Step-keeps id r (resumes s before after l active w e) v h over =
    inl (ap (find_run id) (resume-runs s id r h over before after l active) ∙ h)
Step-keeps id r (Step.skips s before after l error run_id now w e fresh) v h over =
    inl (find-append id s.runs _ r h)
Step-keeps id r (stores s before after l run_id now w e fresh) v h over =
    inl (find-append id s.runs _ r h)
Step-keeps id r (gives_up s before after l w e) v h over = inl h
Step-keeps id r (gives_back s before after l w e) v h over = inl h
Step-keeps id r (begins s before after id' now w) v h over =
    inl (begin-keeps s id r h over before after id' now ((owns s v before after _ w).2 refl))
Step-keeps id r (ends s before after id' notify o now w) v h over =
    inl (end-keeps s id r h over before after id' notify o now ((owns s v before after _ w).2 refl))
Step-keeps id r (delivers s before after id' w) v h over = inl h
Step-keeps id r (raises s before after t message w) v h over = inl h
Step-keeps id r (settles s before after id' message now w) v h over =
    inl (find-fail id id' message now s.runs r h over)
Step-keeps id r (loses s before after id' message w) v h over = inl h
Step-keeps id r (deletes s id') v h over = elim (Bool-cases (same r.schedule_id id')) [
  | inl one ↦ inr (ap (delete_task s) (sym ((same_iff r.schedule_id id').0 one)))
  | inr other ↦ inl (find-keep id _ s.runs r (ground arith) h)
]

-- At every point of the life of a process that began with the sweep, a run that is over, be it
-- completed, failed or skipped, keeps its row through the next step, whatever it is, and so through a
-- failure of its own delivery; or the step is the deletion of its task, with all its runs and nothing else; where no two rows share a run id at
-- the start.
pub Reach-keeps :
    (tasks : List Task) (runs : List ScheduledRun) (now : ℕ) (s u : Service) (id : Text)
    (r : ScheduledRun)
    → distinct (run_ids runs) ≡ true
    → Reach (new_service tasks runs now) s
    → Step s u
    → find_run id s.runs ≡ some r
    → is_active r.status ≡ false
    → (find_run id u.runs ≡ some r) ⊎ (u ≡ delete_task s r.schedule_id)
Reach-keeps tasks runs now s u id r once reached step =
    Step-keeps id r step (Reach-Inv (new_service-Inv tasks runs now once) reached)
