-- ===== src/Tasks/Graph.antt =====
-- The maps that `_build_dependency_graph` builds.
use agents_universe.Prelude.{◌≡◌, refl, ◌↔◌, true, ◌&&◌, some, List, [], ◌∷◌, length, arith, ==_iff}
use agents_universe.Prelude.Text.{Text}
use agents_universe.Prelude.TextSet.{same_iff, elem, subset, distinct, elem-insert, distinct-insert}
use agents_universe.Tasks.{
  Task, Dependencies, ids, valid, deps_of, dependents_of, dependencies, visits,
  build_dependency_graph,
}
use agents_universe.Tasks.Kahn.{IsGraph, Order}
use agents_universe.Tasks.Kahn.Loop.{visits_iff}

elem-valid :
    (task_ids ds : List Text) (d : Text)
    → elem d (valid task_ids ds) ≡ (elem d task_ids && elem d ds)
unfolding valid elem
elem-valid task_ids [] d = ground arith
elem-valid task_ids (e ∷ ds) d =
    ground (arith, same_iff e d, elem-valid task_ids ds d, elem-insert e d (valid task_ids ds))

distinct-valid : (task_ids ds : List Text) → distinct (valid task_ids ds) ≡ true
unfolding valid distinct
distinct-valid task_ids [] = refl
distinct-valid task_ids (e ∷ ds) =
    ground (arith, distinct-valid task_ids ds, distinct-insert e (valid task_ids ds))

distinct-deps_of :
    (task_ids : List Text) (ts : List Task) (x : Text) → distinct (deps_of task_ids ts x) ≡ true
unfolding deps_of distinct
distinct-deps_of task_ids [] x = refl
distinct-deps_of task_ids (t ∷ ts) x =
    ground (arith, distinct-deps_of task_ids ts x, distinct-valid task_ids t.depends_on)

distinct-dependents_of :
    (task_ids : List Text) (ts : List Task) (c : Text)
    → distinct (dependents_of task_ids ts c) ≡ true
unfolding dependents_of distinct
distinct-dependents_of task_ids [] c = refl
distinct-dependents_of task_ids (t ∷ ts) c = ground (
  arith,
  distinct-dependents_of task_ids ts c,
  distinct-insert t.id (dependents_of task_ids ts c),
)

deps_of_known :
    (task_ids : List Text) (ts : List Task) (x d : Text)
    → elem d (deps_of task_ids ts x) ≡ true
    → elem d task_ids ≡ true
unfolding deps_of elem
deps_of_known task_ids [] x d m = cc
deps_of_known task_ids (t ∷ ts) x d m =
    ground (arith, deps_of_known task_ids ts x d, elem-valid task_ids t.depends_on d)

elem-dependents_of :
    (task_ids : List Text) (ts : List Task) (c x : Text)
    → distinct (ids ts) ≡ true
    → elem x (dependents_of task_ids ts c) ≡ (elem x (ids ts) && elem c (deps_of task_ids ts x))
unfolding dependents_of deps_of elem distinct
elem-dependents_of task_ids [] c x u = refl
elem-dependents_of task_ids (t ∷ ts) c x u = ground (
  arith,
  same_iff t.id x,
  elem-dependents_of task_ids ts c x,
  elem-insert t.id x (dependents_of task_ids ts c),
)

pub dependencies-IsGraph : (ts : List Task) → distinct (ids ts) ≡ true → IsGraph (dependencies ts)
unfolding dependencies
dependencies-IsGraph ts u = record {
  unique = u;
  own = λ x. distinct-deps_of (ids ts) ts x;
  parts = λ c. distinct-dependents_of (ids ts) ts c;
  inverse = λ c x. elem-dependents_of (ids ts) ts c x u;
  closed = λ x d. deps_of_known (ids ts) ts x d;
}

-- A graph with an order of all its tasks.
pub record IsOrdered (g : Dependencies) : Type 0 where
  pub graph : IsGraph g
  pub all : List Text
  pub order : Order g all
  pub covers : subset g.tasks all ≡ true

-- For tasks with different ids the graph is built exactly when the tasks can be done one by one,
-- each behind its dependencies; `ValueError` means that there is no such order.
pub build_iff :
    (ts : List Task)
    → distinct (ids ts) ≡ true
    → (build_dependency_graph ts ≡ some (dependencies ts)) ↔ IsOrdered (dependencies ts)
unfolding build_dependency_graph
build_iff ts u =
    let g = dependencies ts in
    let w = dependencies-IsGraph ts u in
    let (accepted, back) = visits_iff g w in
    (
      (λ built.
          let (all, o, c) = accepted (ground (arith, ==_iff (visits g) (length g.tasks))) in
          record { graph = w; all = all; order = o; covers = c }),
      (λ ordered. rw (
          (==_iff (visits g) (length g.tasks)).1
            (back (ordered.all, ordered.order, ordered.covers)))),
    )
