-- ===== src/Queries.antt =====
-- The queries of packages/agent-core/src/agent_core/knowledge/graph/queries.py that answer with an
-- entry: the resolution of a name and the nodes that depend on one.
-- A missing node makes `_entry` raise, which is `none`; the messages of errors are constructors.
pub mod Dependents
pub mod SortedSet
pub mod Resolve
pub mod Neighbors
pub mod Answers
mod Tests
use agents_universe.Prelude.{
  ℕ, zero, suc, ◌+◌, Bool, true, false, ◌&&◌, ◌||◌, Option, none, some, List, [], ◌∷◌, ◌++◌, map,
  if◌then◌else◌, ltb, length, take, keep,
}
use agents_universe.Prelude.Text.{Text, codes, strip, starts_with, ends_with, text_lt}
use agents_universe.Prelude.TextSet.{same, elem, insert}
use agents_universe.Prelude.Fallible.{◌>>=◌, for_each}
use agents_universe.RepoGraph.{
  GraphNode, GraphEdge, RepoGraph, node, rev, parse_node_id, is_symbol_id,
}

-- `extra` holds the keys that the query adds.
pub record Entry (E : Type 0) : Type 0 where
  pub node_id : Text
  pub name : Text
  pub type : Text
  pub rel : Text
  pub line : ℕ
  pub extra : E

pub data Reason : Type 0 where
  query_required : Reason
  files_match : ℕ → Text → Reason
  ambiguous_symbol : Text → Reason
  no_match : Text → Reason

pub data Resolution : Type 0 where
  found : Entry Unit → Resolution
  ambiguous : List Text → Reason → Resolution
  error : Reason → Resolution

-- How a call ends: `raised` is the AttributeError of a missing node.
pub data Outcome {ℓ} (A : Type ℓ) : Type ℓ where
  done : A → Outcome A
  raised : Outcome A
  out_of_fuel : Outcome A

pub record Search : Type 0 where
  pub seen : List Text
  pub affected : List (Entry Text)
  pub queue : List Text

pub record Impact : Type 0 where
  pub node_id : Text
  pub affected_nodes : List (Entry Text)
  pub affected_files : List Text
  pub count : ℕ
  pub truncated : Bool

abbrev pub impact_limit : ℕ
impact_limit = 200

-- sorted({...}): a text that is there already is not put in again.
unfoldable pub put_sorted : Text → List Text → List Text
unfolding text_lt
put_sorted t [] = t ∷ []
put_sorted t (u ∷ us) =
    let rest = put_sorted t us in
    if same t u then u ∷ us else if text_lt t u then t ∷ u ∷ us else u ∷ rest

unfoldable pub sorted_set : List Text → List Text
unfolding put_sorted
sorted_set [] = []
sorted_set (t ∷ ts) = put_sorted t (sorted_set ts)

unfoldable pub report : Text → List (Entry Text) → Impact
unfolding sorted_set parse_node_id
report i affected =
    let files = sorted_set (map (λ e. (parse_node_id e.node_id).1.0) affected) in
    record {
      node_id = i;
      affected_nodes = take impact_limit affected;
      affected_files = take impact_limit files;
      count = length files;
      truncated = ltb impact_limit (length affected) || ltb impact_limit (length files);
    }

unfoldable pub is_file_match : Text → GraphNode → Bool
unfolding starts_with
is_file_match q n =
    same n.type (codes "file") && (same n.name q || starts_with (q ++ codes "/") n.name)

unfoldable pub is_symbol_match : Text → GraphNode → Bool
unfolding is_symbol_id
is_symbol_match q n = is_symbol_id n.id && same n.name q

unfoldable pub is_suffix_match : Text → GraphNode → Bool
unfolding is_symbol_id ends_with
is_suffix_match q n = is_symbol_id n.id && ends_with (codes "." ++ q) n.name

module _ {Time Stats : Type 0} (g : RepoGraph Time Stats) where
  unfoldable pub entry : {E : Type 0} → Text → E → Option (Entry E)
  unfolding node parse_node_id
  entry i extra = do
    n ← node g i
    some (record {
      node_id = i;
      name = n.name;
      type = n.type;
      rel = (parse_node_id i).1.0;
      line = n.line;
      extra = extra;
    })

  -- One match is the answer, several are ambiguous, and with none the next rule is tried.
  unfoldable pub only :
      List GraphNode → (List GraphNode → Reason) → Option Resolution → Option Resolution
  unfolding entry
  only [] why next = next
  only (n ∷ []) why next = do e ← entry n.id tt; some (found e)
  only (n ∷ m ∷ ns) why next = some (ambiguous (map (λ n. n.id) (n ∷ m ∷ ns)) (why (n ∷ m ∷ ns)))

  unfoldable pub by_suffix : Text → Option Resolution
  unfolding only is_suffix_match
  by_suffix q =
      only (keep (is_suffix_match q) g.nodes) (λ ns. ambiguous_symbol q) (some (error (no_match q)))

  unfoldable pub by_symbol : Text → Option Resolution
  unfolding only is_symbol_match by_suffix
  by_symbol q = only (keep (is_symbol_match q) g.nodes) (λ ns. ambiguous_symbol q) (by_suffix q)

  unfoldable pub by_name : Text → Option Resolution
  unfolding only is_file_match by_symbol
  by_name q = only (keep (is_file_match q) g.nodes) (λ ns. files_match (length ns) q) (by_symbol q)

  unfoldable pub resolve_stripped : Text → Option Resolution
  unfolding node entry by_name
  resolve_stripped [] = some (error query_required)
  resolve_stripped (c ∷ q) = elim (node g (c ∷ q)) [
    | some n ↦ do e ← entry (c ∷ q) tt; some (found e)
    | none ↦ by_name (c ∷ q)
  ]

  unfoldable pub resolve_node : Text → Option Resolution
  unfolding resolve_stripped strip
  resolve_node query = resolve_stripped (strip query)

  -- The body of the loop over the edges into a node.
  unfoldable pub touch : Text × Text → Search → Option Search
  unfolding entry
  touch (etype, src) s = elim (elem src s.seen) [
    | true ↦ some s
    | false ↦ do
      e ← entry src etype
      some (record {
        seen = insert src s.seen;
        affected = s.affected ++ e ∷ [];
        queue = s.queue ++ src ∷ [];
      })
  ]

  unfoldable pub affect : Text → Search → Option Search
  unfolding for_each touch rev
  affect current s = for_each touch (rev g.edges current) s

  -- The loop over the queue.
  unfoldable pub impact_loop : ℕ → Search → Outcome Search
  unfolding affect
  impact_loop zero s = elim s.queue [ [] ↦ done s | current ∷ queue ↦ out_of_fuel ]
  impact_loop (suc fuel) s = elim s.queue [
    | [] ↦ done s
    | current ∷ queue ↦ elim (affect current (record s { queue = queue })) [
      | none ↦ raised
      | some t ↦ impact_loop fuel t
    ]
  ]

  unfoldable pub impact_set : Text → Outcome Impact
  unfolding impact_loop report
  impact_set i =
      elim (impact_loop (suc (length g.edges))
        (record { seen = i ∷ []; affected = []; queue = i ∷ [] })) [
          | done s ↦ done (report i s.affected)
          | raised ↦ raised
          | out_of_fuel ↦ out_of_fuel
        ]
