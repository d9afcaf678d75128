-- ===== src/Tasks/Schedule.antt =====
-- `_run_task_mode` of agent.py with the ends of `_execute_single_task`: the sets of the scheduler,
-- and a step for each stretch between two waits.
pub mod Safety
pub mod Settled
use agents_universe.Prelude.{
  ℕ, suc, ◌≡◌, Bool, true, false, ◌&&◌, ◌||◌, not, List, [], ◌∷◌, ◌++◌, map, ltb, if◌then◌else◌,
  length, keep,
}
use agents_universe.Prelude.Text.{Text}
use agents_universe.Prelude.TextSet.{same, elem, subset, discard}
use agents_universe.Tasks.{Task, Dependencies}

pub data Status : Type 0 where
  pending running completed failed skipped : Status

-- An entry of `_task_plan`, without the texts of its error and its summary.
pub record Planned : Type 0 where
  pub id : Text
  pub title : Text
  pub status : Status
  pub depends_on : List Text

unfoldable pub initial_plan : List Task → List Planned
initial_plan =
    map (λ t. record { id = t.id; title = t.title; status = pending; depends_on = t.depends_on })

-- The loop over the plan that stops at the task.
unfoldable pub set_status : Text → Status → List Planned → List Planned
set_status id status [] = []
set_status id status (p ∷ ps) =
    if same p.id id then record p { status = status } ∷ ps else p ∷ set_status id status ps

pub record Run : Type 0 where
  pub plan : List Planned
  pub completed : List Text
  pub failed : List Text
  pub dispatched : List Text
  -- dispatched, and waiting for the semaphore
  pub waiting : List Text
  pub running : List Text
  -- the dependents that a cascade has still to look at
  pub skipping : List Text
  pub aborted : Bool
  pub has_input : Bool
  -- the coroutines that have `_dispatch_ready` still to call
  pub dispatching : ℕ

unfoldable pub new_run : List Task → Run
new_run ts = record {
  plan = initial_plan ts;
  completed = [];
  failed = [];
  dispatched = [];
  waiting = [];
  running = [];
  skipping = [];
  aborted = false;
  has_input = false;
  dispatching = 1;
}

abbrev pub max_concurrency : ℕ
max_concurrency = 3

-- One round of the loop of `_dispatch_ready`.
unfoldable pub offer : Dependencies → Text → Run → Run
offer g t s =
    if not (elem t s.dispatched) && subset (g.deps t) s.completed
    then record s { dispatched = t ∷ s.dispatched; waiting = t ∷ s.waiting }
    else s

unfoldable pub dispatch_ready : Dependencies → List Text → Run → Run
dispatch_ready g [] s = s
dispatch_ready g (t ∷ ts) s =
    let rest = dispatch_ready g ts (offer g t s) in
    if not (elem t s.dispatched) && (s.aborted || s.has_input) then s else rest

-- One round of the loop of `_cascade_skip`.
unfoldable pub skip : Dependencies → Text → Run → Run
skip g d s =
    if elem d s.completed || (elem d s.failed || elem d s.dispatched) then s else record s {
      plan = set_status d skipped s.plan;
      failed = d ∷ s.failed;
      dispatched = d ∷ s.dispatched;
      skipping = g.dependents d ++ s.skipping;
    }

-- A task ended otherwise than completed: its dependents are to be skipped, and `_dispatch_ready` is to
-- be called.
unfoldable pub fail : Dependencies → Text → Status → Run → Run
fail g t status s = record s {
  plan = set_status t status s.plan;
  failed = t ∷ s.failed;
  running = discard t s.running;
  skipping = g.dependents t ++ s.skipping;
  dispatching = suc s.dispatching;
}

-- A task completed: `_dispatch_ready` is to be called.
unfoldable pub complete : Text → Run → Run
complete t s = record s {
  plan = set_status t completed s.plan;
  completed = t ∷ s.completed;
  running = discard t s.running;
  dispatching = suc s.dispatching;
}

unfoldable pub begin : Text → Run → Run
begin t s = record s {
  plan = set_status t running s.plan;
  waiting = discard t s.waiting;
  running = t ∷ s.running;
}

-- The run was aborted before the task came to run.
unfoldable pub refuse : Text → Run → Run
refuse t s = record s {
  plan = set_status t skipped s.plan;
  waiting = discard t s.waiting;
  failed = t ∷ s.failed;
}

-- What may happen next. The end of a task is the environment's choice.
pub data Step (g : Dependencies) : Run → Run → Type 0 where
  begins :
      (s : Run) (t : Text)
      → elem t s.waiting ≡ true
      → ltb (length s.running) max_concurrency ≡ true
      → s.aborted ≡ false
      → Step g s (begin t s)
  refuses :
      (s : Run) (t : Text) → elem t s.waiting ≡ true → s.aborted ≡ true → Step g s (refuse t s)
  completes :
      (s : Run) (t : Text) → elem t s.running ≡ true → s.aborted ≡ false → Step g s (complete t s)
  fails : (s : Run) (t : Text) → elem t s.running ≡ true → Step g s (fail g t failed s)
  stops :
      (s : Run) (t : Text)
      → elem t s.running ≡ true
      → s.aborted ≡ true
      → Step g s (fail g t skipped s)
  looks :
      (s : Run) (d : Text)
      → elem d s.skipping ≡ true
      → Step g s (skip g d (record s { skipping = discard d s.skipping }))
  dispatches :
      (s : Run) (n : ℕ)
      → s.dispatching ≡ suc n
      → Step g s (record (dispatch_ready g g.tasks s) { dispatching = n })
  aborts : (s : Run) → Step g s (record s { aborted = true })
  injects : (s : Run) → Step g s (record s { has_input = true })

pub data Reach (g : Dependencies) (s : Run) : Run → Type 0 where
  here : Reach g s s
  next : {t u : Run} → Reach g s t → Step g t u → Reach g s u

-- What `_run_task_mode` does when no task is in flight: hand the rest back to the user's message, or
-- skip the rest of an aborted run.
pub data End : Type 0 where
  interrupted : List Text → Run → End
  ended : Run → End

unfoldable pub is_open : Run → Text → Bool
is_open s t = not (elem t s.completed) && not (elem t s.failed)

unfoldable pub skip_one : Text → Run → Run
skip_one t s =
    if is_open s t
    then record s { plan = set_status t skipped s.plan; failed = t ∷ s.failed }
    else s

unfoldable pub skip_rest : List Text → Run → Run
skip_rest [] s = s
skip_rest (t ∷ ts) s = skip_rest ts (skip_one t s)

unfoldable pub conclude : Dependencies → Run → End
conclude g s =
    if s.has_input
    then interrupted (keep (is_open s) g.tasks) s
    else if s.aborted
    then ended (skip_rest g.tasks s)
    else ended s
