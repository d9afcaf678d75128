-- ===== src/Tasks/Fallback.antt =====
-- The graph that `_run_task_mode` works with: the one of the plan, or the tasks in a chain.
use agents_universe.Prelude.{
  ◌≡◌, refl, sym, ap, ◌∙◌, true, ◌&&◌, ◌||◌, Option, none, some, List, [], ◌∷◌, if◌then◌else◌,
  arith,
}
use agents_universe.Prelude.Text.{Text}
use agents_universe.Prelude.TextSet.{
  same, same_iff, elem, insert, subset, distinct, elem-insert, distinct-insert, subset_of,
  subset-elem,
}
use agents_universe.Tasks.{Task, Dependencies, ids, dependencies, build_dependency_graph}
use agents_universe.Tasks.Kahn.{IsGraph, Order, start, visit}
use agents_universe.Tasks.Graph.{IsOrdered, build_iff}

-- `deps` and `dependents` of the sequential fallback: each task behind the one before it.
unfoldable pub chain_deps : List Text → Text → List Text
chain_deps [] x = []
chain_deps (a ∷ []) x = []
chain_deps (a ∷ b ∷ rest) x =
    let later = chain_deps (b ∷ rest) x in if same b x then insert a later else later

unfoldable pub chain_dependents : List Text → Text → List Text
chain_dependents [] x = []
chain_dependents (a ∷ []) x = []
chain_dependents (a ∷ b ∷ rest) x =
    let later = chain_dependents (b ∷ rest) x in if same a x then insert b later else later

unfoldable pub sequential : List Task → Dependencies
sequential ts = record {
  tasks = ids ts;
  deps = chain_deps (ids ts);
  dependents = chain_dependents (ids ts);
}

or_sequential : List Task → Option Dependencies → Dependencies
or_sequential ts none = sequential ts
or_sequential ts (some g) = g

unfoldable pub plan_graph : List Task → Dependencies
unfolding or_sequential
plan_graph ts = or_sequential ts (build_dependency_graph ts)

distinct-chain_deps : (xs : List Text) (x : Text) → distinct (chain_deps xs x) ≡ true
unfolding chain_deps distinct
distinct-chain_deps [] x = refl
distinct-chain_deps (a ∷ []) x = refl
distinct-chain_deps (a ∷ b ∷ rest) x =
    ground (arith, distinct-chain_deps (b ∷ rest) x, distinct-insert a (chain_deps (b ∷ rest) x))

distinct-chain_dependents : (xs : List Text) (x : Text) → distinct (chain_dependents xs x) ≡ true
unfolding chain_dependents distinct
distinct-chain_dependents [] x = refl
distinct-chain_dependents (a ∷ []) x = refl
distinct-chain_dependents (a ∷ b ∷ rest) x = ground (
  arith,
  distinct-chain_dependents (b ∷ rest) x,
  distinct-insert b (chain_dependents (b ∷ rest) x),
)

-- Only the tasks behind the first one have a dependency, and it is one of the chain.
chain_deps_tail :
    (a : Text) (rest : List Text) (x d : Text)
    → elem d (chain_deps (a ∷ rest) x) ≡ true
    → (elem x rest ≡ true) × (elem d (a ∷ rest) ≡ true)
unfolding chain_deps elem
chain_deps_tail a [] x d m = cc
chain_deps_tail a (b ∷ rest) x d m = ground (
  arith,
  same_iff b x,
  same_iff a d,
  elem-insert a d (chain_deps (b ∷ rest) x),
  chain_deps_tail b rest x d,
)

elem-chain_dependents :
    (xs : List Text) (c x : Text)
    → elem x (chain_dependents xs c) ≡ (elem x xs && elem c (chain_deps xs x))
unfolding chain_deps chain_dependents elem
elem-chain_dependents [] c x = refl
elem-chain_dependents (a ∷ []) c x = ground arith
elem-chain_dependents (a ∷ b ∷ rest) c x = ground (
  arith,
  same_iff a x,
  same_iff b x,
  same_iff a c,
  elem-insert a c (chain_deps (b ∷ rest) x),
  elem-insert b x (chain_dependents (b ∷ rest) c),
  elem-chain_dependents (b ∷ rest) c x,
  chain_deps_tail b rest x c,
)

chain_deps_known :
    (xs : List Text) (x d : Text) → elem d (chain_deps xs x) ≡ true → elem d xs ≡ true
unfolding elem chain_deps
chain_deps_known [] x d m = cc
chain_deps_known (a ∷ rest) x d m = (chain_deps_tail a rest x d m).1

-- Each task but the first has no dependency but the one before it.
Consecutive : (Text → List Text) → List Text → Type 0
Consecutive deps [] = Unit
Consecutive deps (a ∷ []) = Unit
Consecutive deps (a ∷ b ∷ rest) = (subset (deps b) (a ∷ []) ≡ true) × Consecutive deps (b ∷ rest)

Consecutive-eq :
    (deps deps' : Text → List Text) (a : Text) (rest : List Text)
    → ((x : Text) → elem x rest ≡ true → deps' x ≡ deps x)
    → Consecutive deps (a ∷ rest)
    → Consecutive deps' (a ∷ rest)
unfolding Consecutive elem
Consecutive-eq deps deps' a [] e h = tt
Consecutive-eq deps deps' a (b ∷ rest) e h = (
  rw (e b (ground (arith, same_iff b b))) h.0,
  Consecutive-eq deps deps' b rest (λ x m. e x (ground arith)) h.1,
)

chain_first :
    (a b : Text) (rest : List Text)
    → distinct (a ∷ b ∷ rest) ≡ true
    → subset (chain_deps (a ∷ b ∷ rest) b) (a ∷ []) ≡ true
unfolding chain_deps elem distinct
chain_first a b rest u = subset_of _ (a ∷ []) (λ d m. ground (
  arith,
  same_iff b b,
  same_iff a d,
  elem-insert a d (chain_deps (b ∷ rest) b),
  chain_deps_tail b rest b d,
))

chain_other :
    (a b : Text) (rest : List Text) (x : Text)
    → distinct (a ∷ b ∷ rest) ≡ true
    → elem x rest ≡ true
    → chain_deps (a ∷ b ∷ rest) x ≡ chain_deps (b ∷ rest) x
unfolding chain_deps elem distinct
chain_other a b rest x u m = ground (arith, same_iff b x)

chain-Consecutive :
    (a : Text) (rest : List Text)
    → distinct (a ∷ rest) ≡ true
    → Consecutive (chain_deps (a ∷ rest)) (a ∷ rest)
unfolding Consecutive distinct
chain-Consecutive a [] u = tt
chain-Consecutive a (b ∷ rest) u = (
  chain_first a b rest u,
  Consecutive-eq (chain_deps (b ∷ rest)) (chain_deps (a ∷ b ∷ rest)) b rest
      (λ x m. chain_other a b rest x u m) (chain-Consecutive b rest (ground arith)),
)

module _ (g : Dependencies) where
  Order-chain :
      (a : Text) (rest done : List Text)
      → Order g (a ∷ done)
      → Consecutive g.deps (a ∷ rest)
      → (all : List Text) × Order g all
        × ((x : Text) → elem x (a ∷ done) || elem x rest ≡ true → elem x all ≡ true)
  unfolding Consecutive elem
  Order-chain a [] done o h = (a ∷ done, o, λ x m. ground arith)
  Order-chain a (b ∷ rest) done o h =
      let ready =
        subset_of (g.deps b) (a ∷ done)
          (λ x m. ground (arith, subset-elem (g.deps b) (a ∷ []) x)) in
      let (all, o', covers) = Order-chain b rest (a ∷ done) (visit b ready o) h.1 in
      (all, o', λ x m. covers x (ground arith))

sequential-IsGraph : (ts : List Task) → distinct (ids ts) ≡ true → IsGraph (sequential ts)
unfolding sequential
sequential-IsGraph ts u = record {
  unique = u;
  own = λ x. distinct-chain_deps (ids ts) x;
  parts = λ c. distinct-chain_dependents (ids ts) c;
  inverse = λ c x. elem-chain_dependents (ids ts) c x;
  closed = λ x d. chain_deps_known (ids ts) x d;
}

chain_head :
    (a : Text) (rest : List Text)
    → distinct (a ∷ rest) ≡ true
    → subset (chain_deps (a ∷ rest) a) [] ≡ true
unfolding distinct
chain_head a rest u = subset_of _ [] (λ d m. ground (arith, chain_deps_tail a rest a d))

elem_split :
    (a : Text) (rest : List Text) (x : Text)
    → elem x (a ∷ rest) ≡ true
    → elem x (a ∷ []) || elem x rest ≡ true
unfolding elem
elem_split a rest x m = ground arith

chain-IsOrdered :
    (g : Dependencies) (xs : List Text)
    → IsGraph g
    → g.tasks ≡ xs
    → ((x : Text) → g.deps x ≡ chain_deps xs x)
    → distinct xs ≡ true
    → IsOrdered g
unfolding subset
chain-IsOrdered g [] w e d u = record { graph = w; all = []; order = start; covers = rw e }
chain-IsOrdered g (a ∷ rest) w e d u =
    let (all, o, covers) =
      Order-chain g a rest [] (visit a (rw (d a) (chain_head a rest u)) start) (
        Consecutive-eq (chain_deps (a ∷ rest)) g.deps a rest (λ x m. d x)
          (chain-Consecutive a rest u)) in
    record {
      graph = w;
      all = all;
      order = o;
      covers = subset_of g.tasks all (λ x m. covers x (elem_split a rest x (rw e at m)));
    }

build-some :
    (ts : List Task) (g : Dependencies) → build_dependency_graph ts ≡ some g → dependencies ts ≡ g
unfolding build_dependency_graph
build-some ts g h = ground arith

or_sequential-IsOrdered :
    (ts : List Task) (o : Option Dependencies)
    → distinct (ids ts) ≡ true
    → build_dependency_graph ts ≡ o
    → IsOrdered (or_sequential ts o)
unfolding or_sequential sequential
or_sequential-IsOrdered ts none u h =
    chain-IsOrdered (sequential ts) (ids ts) (sequential-IsGraph ts u) refl (λ x. refl) u
or_sequential-IsOrdered ts (some g) u h =
    let e = build-some ts g h in rw (← e) ((build_iff ts u).0 (h ∙ ap some (sym e)))

-- Whatever the plan, the graph that the scheduler works with has an order: the plan's own, or the
-- chain of its tasks.
pub plan_graph-IsOrdered : (ts : List Task) → distinct (ids ts) ≡ true → IsOrdered (plan_graph ts)
unfolding plan_graph
plan_graph-IsOrdered ts u = or_sequential-IsOrdered ts (build_dependency_graph ts) u refl

or_sequential-tasks :
    (ts : List Task) (o : Option Dependencies)
    → build_dependency_graph ts ≡ o
    → (or_sequential ts o).tasks ≡ ids ts
unfolding or_sequential sequential
or_sequential-tasks ts none h = refl
or_sequential-tasks ts (some g) h = rw (← build-some ts g h) (unfold dependencies in refl)

pub plan_graph-tasks : (ts : List Task) → (plan_graph ts).tasks ≡ ids ts
unfolding plan_graph
plan_graph-tasks ts = or_sequential-tasks ts (build_dependency_graph ts) refl
