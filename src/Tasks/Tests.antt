-- ===== src/Tasks/Tests.antt =====
-- The theorems about task plans at concrete plans and runs.
use agents_universe.Prelude.{◌≡◌, refl, ◌↔◌, true, none, some, List, [], ◌∷◌}
use agents_universe.Prelude.Text.{codes, str}
use agents_universe.Prelude.TextSet.{elem, same, insert, subset, discard, distinct}
use agents_universe.Tasks.{
  Task, RawTask, listed, malformed, ids, original_ids, translate, translate_all, valid,
  normalize_task_plan, deps_of, dependents_of, relax, kahn, visits, dependencies,
  build_dependency_graph,
}
use agents_universe.Tasks.Graph.{IsOrdered, build_iff}
use agents_universe.Tasks.Fallback.{plan_graph, sequential}
use agents_universe.Tasks.Schedule.{
  Run, failed, fail, fails, new_run, dispatch_ready, offer, begin, complete, Reach, here, next,
  begins, completes, dispatches, conclude,
}
use agents_universe.Tasks.Schedule.Safety.{Inv, run-Inv}
use agents_universe.Tasks.Schedule.Settled.{IsIdle, Accounted, run_ends}

abbrev raw_plan : List RawTask
raw_plan =
    record { id = some (codes "a"); title = codes "First"; depends_on = malformed }
    ∷ record { id = none; title = codes "Second"; depends_on = listed (codes "a" ∷ codes "x" ∷ []) }
    ∷ []

abbrev plan : List Task
plan =
    record { id = codes "u1"; title = codes "First"; depends_on = [] }
    ∷ record { id = codes "u2"; title = codes "Second"; depends_on = codes "u1" ∷ codes "x" ∷ [] }
    ∷ []

normalized : normalize_task_plan raw_plan (codes "u1" ∷ codes "u2" ∷ []) ≡ plan
unfolding normalize_task_plan original_ids translate translate_all same str
normalized = refl

plan_distinct : distinct (ids plan) ≡ true
unfolding distinct elem same
plan_distinct = refl

build_iff_example :
    (build_dependency_graph plan ≡ some (dependencies plan)) ↔ IsOrdered (dependencies plan)
build_iff_example = build_iff plan plan_distinct

plan_builds : build_dependency_graph plan ≡ some (dependencies plan)
unfolding build_dependency_graph visits kahn relax dependencies deps_of dependents_of valid insert
    elem same
plan_builds = refl

abbrev loop : List Task
loop =
    record { id = codes "u1"; title = codes "First"; depends_on = codes "u2" ∷ [] }
    ∷ record { id = codes "u2"; title = codes "Second"; depends_on = codes "u1" ∷ [] }
    ∷ []

loop_refused : build_dependency_graph loop ≡ none
unfolding build_dependency_graph visits kahn relax dependencies deps_of dependents_of valid insert
    elem same
loop_refused = refl

abbrev one : List Task
one = record { id = codes "u1"; title = codes "Only"; depends_on = [] } ∷ []

abbrev dispatched_one : Run
dispatched_one = record (dispatch_ready (plan_graph one) (plan_graph one).tasks (new_run one)) {
  dispatching = 0;
}

abbrev begun : Run
begun = begin (codes "u1") dispatched_one

abbrev done : Run
done = complete (codes "u1") begun

abbrev rested : Run
rested = record (dispatch_ready (plan_graph one) (plan_graph one).tasks done) { dispatching = 0 }

one_runs : Reach (plan_graph one) (new_run one) rested
unfolding plan_graph sequential build_dependency_graph visits kahn relax dependencies deps_of
    dependents_of valid insert elem same dispatch_ready offer subset new_run begin complete
one_runs =
    next
      (next
        (next (next here (dispatches (new_run one) 0 refl))
          (begins dispatched_one (codes "u1") refl refl refl))
        (completes begun (codes "u1") refl refl))
      (dispatches done 0 refl)

run-Inv_example : Inv (plan_graph one) rested
run-Inv_example = run-Inv (plan_graph one) one rested one_runs

-- The second task waits for the first one, which completes, and then it fails.
abbrev planned : Run → Run
planned s = record (dispatch_ready (plan_graph plan) (plan_graph plan).tasks s) { dispatching = 0 }

abbrev first_done : Run
first_done = complete (codes "u1") (begin (codes "u1") (planned (new_run plan)))

abbrev second_begun : Run
second_begun = begin (codes "u2") (planned first_done)

abbrev second_failed : Run
second_failed = fail (plan_graph plan) (codes "u2") failed second_begun

plan_runs : Reach (plan_graph plan) (new_run plan) (planned second_failed)
unfolding plan_graph sequential build_dependency_graph visits kahn relax dependencies deps_of
    dependents_of valid insert elem same dispatch_ready offer subset new_run begin complete fail
    discard
plan_runs =
    next
      (next
        (next
          (next
            (next
              (next (next here (dispatches (new_run plan) 0 refl))
                (begins (planned (new_run plan)) (codes "u1") refl refl refl))
              (completes (begin (codes "u1") (planned (new_run plan))) (codes "u1") refl refl))
            (dispatches first_done 0 refl))
          (begins (planned first_done) (codes "u2") refl refl refl))
        (fails second_begun (codes "u2") refl))
      (dispatches second_failed 0 refl)

plan_rests : IsIdle (planned second_failed)
unfolding plan_graph sequential build_dependency_graph visits kahn relax dependencies deps_of
    dependents_of valid insert elem same dispatch_ready offer subset new_run begin complete fail
    discard
plan_rests = record {
  none_waits = refl;
  none_runs = refl;
  none_to_skip = refl;
  none_dispatches = refl;
}

run_ends_example : Accounted (ids plan) (conclude (plan_graph plan) (planned second_failed))
run_ends_example = run_ends plan (planned second_failed) plan_distinct plan_runs plan_rests
