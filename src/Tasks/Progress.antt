-- ===== src/Tasks/Progress.antt =====
-- `_compute_task_progress` of agent.py.
use agents_universe.Prelude.{
  ℕ, ◌≡◌, refl, ap, Bool, true, false, ◌&&◌, Option, none, some, List, [], ◌∷◌, ◌++◌, map,
  if◌then◌else◌, length, keep, arith, Bool-cases, inl, inr, All,
}
use agents_universe.Prelude.Text.{Text, codes, str}
use agents_universe.Prelude.TextSet.{subset}
use agents_universe.Tasks.Schedule.{Status, pending, running, completed, failed, skipped, Planned}

pub record Progress : Type 0 where
  pub current_step : Option Text
  pub next_step : Option Text
  pub progress_completed : ℕ
  pub progress_total : ℕ

unfoldable pub is_pending : Status → Bool
is_pending pending = true
is_pending running = false
is_pending completed = false
is_pending failed = false
is_pending skipped = false

is_running : Status → Bool
is_running running = true
is_running pending = false
is_running completed = false
is_running failed = false
is_running skipped = false

is_completed : Status → Bool
is_completed completed = true
is_completed pending = false
is_completed running = false
is_completed failed = false
is_completed skipped = false

step_of : List Planned → Option Text
step_of [] = none
step_of (p ∷ []) = some p.title
step_of (p ∷ q ∷ ps) = some (str (length (p ∷ q ∷ ps)) ++ codes " 个任务并行运行中")

pub completed_ids : List Planned → List Text
unfolding is_completed
completed_ids plan = map (λ p. p.id) (keep (λ p. is_completed p.status) plan)

next_of : List Text → List Planned → Option Text
unfolding is_pending
next_of ids [] = none
next_of ids (p ∷ ps) =
    if is_pending p.status && subset p.depends_on ids then some p.title else next_of ids ps

-- An empty plan has no progress.
unfoldable pub compute_task_progress : List Planned → Option Progress
unfolding is_running is_completed step_of next_of
compute_task_progress [] = none
compute_task_progress (p ∷ ps) =
    let plan = p ∷ ps in
    some (record {
      current_step = step_of (keep (λ t. is_running t.status) plan);
      next_step = next_of (completed_ids plan) plan;
      progress_completed = length (keep (λ t. is_completed t.status) plan);
      progress_total = length plan;
    })

-- The task that is named next: it is pending, and its dependencies are completed.
pub record IsNext (plan : List Planned) (title : Text) : Type 0 where
  pub before : List Planned
  pub task : Planned
  pub after : List Planned
  pub place : before ++ (task ∷ after) ≡ plan
  pub named : task.title ≡ title
  pub waits : is_pending task.status ≡ true
  pub free : subset task.depends_on (completed_ids plan) ≡ true
  -- no task before it is so
  pub first :
      All (λ p. (is_pending p.status && subset p.depends_on (completed_ids plan)) ≡ false) before

next_of-IsNext :
    (ids : List Text) (plan : List Planned) (title : Text)
    → next_of ids plan ≡ some title
    → (before : List Planned) × (task : Planned) × (after : List Planned) × (before
          ++ (task ∷ after)
        ≡ plan)
      × (task.title ≡ title)
      × (is_pending task.status ≡ true)
      × (subset task.depends_on ids ≡ true)
      × All (λ p. (is_pending p.status && subset p.depends_on ids) ≡ false) before
unfolding next_of
next_of-IsNext ids [] title h = cc
next_of-IsNext ids (p ∷ ps) title h =
    elim (Bool-cases (is_pending p.status && subset p.depends_on ids)) [
      | inl found ↦ ([], p, ps, refl, ground arith, ground arith, ground arith, tt)
      | inr later ↦
          let (before, task, after, place, named, waits, free, first) =
            next_of-IsNext ids ps title (ground arith) in
          (p ∷ before, task, after, ap (◌∷◌ p) place, named, waits, free, (later, first))
    ]

-- The step that is reported as the next one is a pending task whose dependencies are all completed,
-- the first such task of the plan.
pub next_step-IsNext :
    (plan : List Planned) (progress : Progress) (title : Text)
    → compute_task_progress plan ≡ some progress
    → progress.next_step ≡ some title
    → IsNext plan title
unfolding compute_task_progress
next_step-IsNext [] progress title h n = cc
next_step-IsNext (p ∷ ps) progress title h n =
    let (before, task, after, place, named, waits, free, first) =
      next_of-IsNext (completed_ids (p ∷ ps)) (p ∷ ps) title (ground arith) in
    record {
      before = before;
      task = task;
      after = after;
      place = place;
      named = named;
      waits = waits;
      free = free;
      first = first;
    }
