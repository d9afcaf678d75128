-- ===== src/ScheduledRuns/Writes.antt =====
-- The writes of the background tasks keep the invariant.
use mathlib.Core.Path.{subst}
use agents_universe.Prelude.{
  ℕ, suc, ◌+◌, ◌≤◌, ◌≡◌, refl, ap, Bool, true, false, ◌&&◌, not, List, ◌∷◌, ◌++◌, length, keep,
  All-of, All-map, arith, Bool-cases, Option-cases, inl, inr,
}
use agents_universe.Prelude.Text.{Text}
use agents_universe.Prelude.TextSet.{same, elem}
use agents_universe.ScheduledRuns.{
  ScheduledRun, Task, is_active, is_over, find_run, find_task, update_run, is_skipped, orphan,
  start, begin_run, Outcome, finish, finalize, fail, is_told, max_background_runs,
}
use agents_universe.ScheduledRuns.Launches.{
  Stage, queued, working, delivering, Work, Service, slots, go_on, begin, deliver_or_end, end,
  run_ids, work_ids,
}
use agents_universe.ScheduledRuns.Counts.{
  active_count, active_count-keep, IsCalm, AreActive, WakesNone, active_count-update,
  AreActive-update_self, AreActive-keep, run_ids-update, distinct-keep_runs,
}
use agents_universe.ScheduledRuns.Guards.{
  guarded-runs, is_open, Open, IsOwned, IsOwned-middle, IsOwned-put, IsOwned-update, IsOwned-runs,
}
use agents_universe.ScheduledRuns.Invariant.{length-middle, Inv}

pub start-IsCalm : (now : ℕ) → IsCalm (start now)
unfolding start
start-IsCalm now = record { run = λ r. refl; of = λ r. refl }

pub orphan-IsCalm : (now : ℕ) → IsCalm (orphan now)
unfolding orphan
orphan-IsCalm now = record { run = λ r. refl; of = λ r. refl }

pub finish-IsCalm : (o : Outcome) (now : ℕ) → IsCalm (finish o now)
unfolding finish
finish-IsCalm o now = record { run = λ r. refl; of = λ r. refl }

pub fail-IsCalm : (message : Text) (now : ℕ) → IsCalm (fail message now)
unfolding fail
fail-IsCalm message now = record { run = λ r. ground arith; of = λ r. ground arith }

pub fail-WakesNone :
    (id message : Text) (now : ℕ) (runs : List ScheduledRun) → WakesNone (fail message now) id runs
unfolding fail is_over is_active
fail-WakesNone id message now runs = All-of (λ r e a. ground arith) runs

pub active-WakesNone :
    (f : ScheduledRun → ScheduledRun) (id : Text) (runs : List ScheduledRun)
    → AreActive id runs
    → WakesNone f id runs
active-WakesNone f id runs = All-map _ _ (λ r a e h. a e) runs

-- A background task of the service, and what is known of the others.
module _ (s : Service) (v : Inv s) (before after : List Work) (t : Work)
    (w : s.work ≡ before ++ t ∷ after) where
  pub owns :
      IsOwned (before ++ after) s.runs
      × (elem t.run_id (work_ids (before ++ after)) ≡ false)
      × Open s.runs t
  owns = IsOwned-middle before after t s.runs (subst (λ ws. IsOwned ws s.runs) w v.owned)

  pub room : suc (length (before ++ after)) + s.reserved ≤ max_background_runs
  unfolding slots
  room = omega (arith, v.capped, ap length w, length-middle before after t)

  -- It goes on or ends, and writes to the row of its run alone, which stays idle if it was.
  pub written :
      (tasks : List Task) (runs : List ScheduledRun) (work : List Work)
      → length work ≤ suc (length (before ++ after))
      → ((id : Text) → active_count id runs ≤ active_count id s.runs)
      → run_ids runs ≡ run_ids s.runs
      → IsOwned work runs
      → Inv (record s { tasks = tasks; runs = runs; work = work })
  unfolding slots
  written tasks runs work fewer less same_ids owned = record {
    capped = omega (arith, room, fewer);
    held = v.held;
    guarded = guarded-runs s.launches s.runs runs less v.guarded;
    single = λ id. omega (arith, less id, v.single id);
    owned = owned;
    rows = rw same_ids v.rows;
  }

  -- It writes to its row and ends.
  pub updated :
      (tasks : List Task) (f : ScheduledRun → ScheduledRun)
      → IsCalm f
      → WakesNone f t.run_id s.runs
      → Inv
          (record s { tasks = tasks; runs = update_run t.run_id f s.runs; work = before ++ after })
  updated tasks f calm none_woken =
      written tasks (update_run t.run_id f s.runs) (before ++ after) (omega arith)
        (λ id. active_count-update id t.run_id f s.runs calm none_woken)
        (run_ids-update t.run_id f s.runs calm)
        (IsOwned-update (before ++ after) s.runs t.run_id f calm owns.1 owns.0)

  -- It writes to its row and goes on.
  pub updated_on :
      (tasks : List Task) (f : ScheduledRun → ScheduledRun) (stage : Stage)
      → IsCalm f
      → WakesNone f t.run_id s.runs
      → (is_open stage ≡ true → AreActive t.run_id (update_run t.run_id f s.runs))
      → Inv (record s {
        tasks = tasks;
        runs = update_run t.run_id f s.runs;
        work = before ++ record t { stage = stage } ∷ after;
      })
  updated_on tasks f stage calm none_woken active =
      written tasks (update_run t.run_id f s.runs) (before ++ record t { stage = stage } ∷ after)
        (omega (arith, length-middle before after (record t { stage = stage })))
        (λ id. active_count-update id t.run_id f s.runs calm none_woken)
        (run_ids-update t.run_id f s.runs calm)
        (IsOwned-put before after (record t { stage = stage }) (update_run t.run_id f s.runs)
          (IsOwned-update (before ++ after) s.runs t.run_id f calm owns.1 owns.0) owns.1 active)

  pub ended : Inv (record s { work = before ++ after })
  ended = written s.tasks s.runs (before ++ after) (omega arith) (λ id. omega arith) refl owns.0

  pub staged :
      (stage : Stage)
      → is_open stage ≡ false
      → Inv (record s { work = before ++ record t { stage = stage } ∷ after })
  staged stage shut =
      written s.tasks s.runs (before ++ record t { stage = stage } ∷ after)
        (omega (arith, length-middle before after (record t { stage = stage }))) (λ id. omega arith)
        refl
        (IsOwned-put before after (record t { stage = stage }) s.runs owns.0 owns.1
          (λ e. absurd (ground arith)))

pub begin-Inv :
    (s : Service) (before after : List Work) (id : Text) (now : ℕ)
    → Inv s
    → s.work ≡ before ++ record { run_id = id; stage = queued } ∷ after
    → Inv (begin s before id now after)
unfolding begin begin_run go_on start is_open is_active
begin-Inv s before after id now v w =
    let t : Work = record { run_id = id; stage = queued } in
    elim (Option-cases (find_run id s.runs)) [
      | inl gone ↦ rw (gone, begin_run) (ended s v before after t w)
      | inr (r, found) ↦ elim (Bool-cases (is_skipped r.status)) [
        | inl over ↦ rw (found, over, begin_run) (ended s v before after t w)
        | inr go ↦ elim (Option-cases (find_task r.schedule_id s.tasks)) [
          | inl deleted ↦
              rw (found, go, deleted, begin_run)
                (updated s v before after t w s.tasks (orphan now) (orphan-IsCalm now)
                  (active-WakesNone (orphan now) id s.runs ((owns s v before after t w).2 refl)))
          | inr (task, known) ↦
              rw (found, go, known, begin_run)
                (updated_on s v before after t w s.tasks (start now) (working task.notify)
                  (start-IsCalm now)
                  (active-WakesNone (start now) id s.runs ((owns s v before after t w).2 refl))
                  (λ e. AreActive-update_self id (start now) s.runs (λ r. refl)))
        ]
      ]
    ]

pub end-Inv :
    (s : Service) (before after : List Work) (id : Text) (notify : Bool) (o : Outcome) (now : ℕ)
    → Inv s
    → s.work ≡ before ++ record { run_id = id; stage = working notify } ∷ after
    → Inv (end s before id notify o now after)
unfolding end finalize deliver_or_end is_open
end-Inv s before after id notify o now v w =
    let t : Work = record { run_id = id; stage = working notify } in
    elim (Option-cases (find_run id s.runs)) [
      | inl gone ↦ rw (gone, finalize) (ended s v before after t w)
      | inr (r, found) ↦
          let none_woken =
            active-WakesNone (finish o now) id s.runs ((owns s v before after t w).2 refl) in
          elim (Bool-cases (notify && is_told o.status)) [
            | inl told ↦
                rw (found, finalize, told)
                  (updated_on s v before after t w _ (finish o now) delivering (finish-IsCalm o now)
                    none_woken (λ e. absurd (ground arith)))
            | inr quiet ↦
                rw (found, finalize, quiet)
                  (updated s v before after t w _ (finish o now) (finish-IsCalm o now) none_woken)
          ]
    ]

pub delete-Inv :
    (s : Service) (id : Text)
    → Inv s
    → Inv (record s {
      tasks = keep (λ t. not (same t.schedule_id id)) s.tasks;
      runs = keep (λ r. not (same r.schedule_id id)) s.runs;
    })
unfolding slots
delete-Inv s id v =
    let p = λ (r : ScheduledRun). not (same r.schedule_id id) in
    record {
      capped = v.capped;
      held = v.held;
      guarded =
          guarded-runs s.launches s.runs (keep p s.runs) (λ k. active_count-keep k p s.runs)
            v.guarded;
      single = λ k. omega (arith, active_count-keep k p s.runs, v.single k);
      owned =
          IsOwned-runs s.work s.runs (keep p s.runs) (λ k a. AreActive-keep k p s.runs a) v.owned;
      rows = distinct-keep_runs p s.runs v.rows;
    }
