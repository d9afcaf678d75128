-- ===== src/Tasks.antt =====
-- The task plans of agent.py: their normal form, the dependency graph and its order.
pub mod Kahn
pub mod Graph
pub mod Fallback
pub mod Schedule
pub mod Progress
pub mod Written
mod Tests
use agents_universe.Prelude.{
  ℕ, zero, suc, ◌+◌, ◌-◌, Bool, true, false, ◌&&◌, not, Option, none, some, List, [], ◌∷◌, ◌++◌,
  map, ◌==◌, if◌then◌else◌, length, keep,
}
use mathlib.Core.List.{reverse}
use agents_universe.Prelude.Text.{Text, codes, strip, split_on, str}
use agents_universe.Prelude.TextSet.{same, elem, insert}

-- `depends_on` as the model wrote it: a list, a text, or neither. The entries of a list and the id
-- are their `str`.
pub data Depends : Type 0 where
  listed : List Text → Depends
  written : Text → Depends
  malformed : Depends

pub record RawTask : Type 0 where
  pub id : Option Text
  pub title : Text
  pub depends_on : Depends

pub record Task : Type 0 where
  pub id : Text
  pub title : Text
  pub depends_on : List Text

-- str(task.get("id") or f"task-{idx}")
original_id : ℕ → Option Text → Text
original_id idx none = codes "task-" ++ str idx
original_id idx (some []) = codes "task-" ++ str idx
original_id idx (some (c ∷ t)) = c ∷ t

unfoldable pub original_ids : ℕ → List RawTask → List Text
unfolding original_id
original_ids idx [] = []
original_ids idx (t ∷ ts) = original_id idx t.id ∷ original_ids (suc idx) ts

-- id_map.get(dep, dep) where `setdefault` filled the map: the first id wins.
unfoldable pub translate : List Text → List Text → Text → Text
translate [] ids dep = dep
translate (o ∷ os) [] dep = dep
translate (o ∷ os) (i ∷ ids) dep = if same o dep then i else translate os ids dep

has_text : Text → Bool
has_text [] = false
has_text (c ∷ t) = true

unfoldable pub translate_all : List Text → List Text → Depends → List Text
unfolding has_text
translate_all os ids (listed ds) = map (translate os ids) ds
translate_all os ids (written t) =
    map (translate os ids) (keep (λ d. has_text (strip d)) (split_on b',' t))
translate_all os ids malformed = []

normalize_from : List Text → List Text → List RawTask → List Text → List Task
normalize_from os all [] ids = []
normalize_from os all (t ∷ ts) [] = []
normalize_from os all (t ∷ ts) (i ∷ ids) =
    record { id = i; title = t.title; depends_on = translate_all os all t.depends_on }
    ∷ normalize_from os all ts ids

-- The ids of `uuid4` are an argument, one for each task.
unfoldable pub normalize_task_plan : List RawTask → List Text → List Task
unfolding normalize_from
normalize_task_plan tasks ids = normalize_from (original_ids 0 tasks) ids tasks ids

pub record Dependencies : Type 0 where
  pub tasks : List Text
  pub deps : Text → List Text
  pub dependents : Text → List Text

abbrev pub ids : List Task → List Text
ids = map (λ t. t.id)

-- {str(d) for d in raw_deps if str(d) in task_ids}
unfoldable pub valid : List Text → List Text → List Text
valid task_ids [] = []
valid task_ids (d ∷ ds) =
    let rest = valid task_ids ds in if elem d task_ids then insert d rest else rest

-- `deps`, where a later task of the same id takes the place of an earlier one.
unfoldable pub deps_of : List Text → List Task → Text → List Text
deps_of task_ids [] x = []
deps_of task_ids (t ∷ ts) x =
    if same t.id x && not (elem x (ids ts))
    then valid task_ids t.depends_on
    else deps_of task_ids ts x

unfoldable pub dependents_of : List Text → List Task → Text → List Text
dependents_of task_ids [] d = []
dependents_of task_ids (t ∷ ts) d =
    let rest = dependents_of task_ids ts d in
    if elem d (valid task_ids t.depends_on) then insert t.id rest else rest

-- in_degree[dependent] -= 1, and the append where it reaches 0; the end of `queue` stands in front.
unfoldable pub relax : (Text → ℕ) → List Text → List Text → (Text → ℕ) × List Text
relax degree [] queue = (degree, queue)
relax degree (x ∷ xs) queue =
    relax (λ y. if same x y then degree y - 1 else degree y) xs
      (if degree x == 1 then x ∷ queue else queue)

-- The number of visits of `while queue`, on fuel.
unfoldable pub kahn : ℕ → Dependencies → (Text → ℕ) → List Text → ℕ
kahn zero g degree queue = 0
kahn (suc fuel) g degree [] = 0
kahn (suc fuel) g degree (current ∷ queue) =
    let (degree', queue') = relax degree (g.dependents current) queue in
    suc (kahn fuel g degree' queue')

unfoldable pub visits : Dependencies → ℕ
visits g =
    kahn (suc (length g.tasks)) g (λ x. length (g.deps x))
      (reverse (keep (λ x. length (g.deps x) == 0) g.tasks))

unfoldable pub dependencies : List Task → Dependencies
dependencies ts = record {
  tasks = ids ts;
  deps = deps_of (ids ts) ts;
  dependents = dependents_of (ids ts) ts;
}

-- `none`: the cycle raises `ValueError`.
unfoldable pub build_dependency_graph : List Task → Option Dependencies
build_dependency_graph ts =
    let g = dependencies ts in if visits g == length g.tasks then some g else none
