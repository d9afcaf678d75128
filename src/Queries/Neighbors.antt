-- ===== src/Queries/Neighbors.antt =====
-- `neighbors` of packages/agent-core/src/agent_core/knowledge/graph/queries.py.
pub mod Near
pub mod Levels
pub mod Found
pub mod Complete
use agents_universe.Prelude.{
  ℕ, zero, suc, ◌+◌, Bool, true, false, Option, none, some, List, [], ◌∷◌, ◌++◌, if◌then◌else◌, ltb,
  length, take,
}
use agents_universe.Prelude.Text.{Text}
use agents_universe.Prelude.TextSet.{elem, insert}
use agents_universe.Prelude.Int.{ℤ, pos, negsuc}
use agents_universe.Prelude.Fallible.{◌>>=◌, for_each}
use agents_universe.RepoGraph.{RepoGraph, fwd, rev}
use agents_universe.Queries.{Entry, entry}

pub data Direction : Type 0 where
  outgoing : Direction
  incoming : Direction

pub record Hop : Type 0 where
  pub direction : Direction
  pub via : Text
  pub depth : ℕ

pub record Walk : Type 0 where
  pub seen : List Text
  pub found : List (Entry Hop)
  pub next_frontier : List Text

pub record Neighborhood : Type 0 where
  pub node_id : Text
  pub depth : ℕ
  pub neighbors : List (Entry Hop)
  pub count : ℕ
  pub truncated : Bool

abbrev pub max_depth : ℕ
max_depth = 2

abbrev pub neighbor_limit : ℕ
neighbor_limit = 200

-- min(max(int(depth or 1), 1), MAX_DEPTH)
unfoldable pub clamp : ℤ → ℕ
clamp (pos n) = if ltb n 1 then 1 else if ltb max_depth n then max_depth else n
clamp (negsuc n) = 1

unfoldable pub neighborhood : Text → ℕ → List (Entry Hop) → Neighborhood
neighborhood i depth found = record {
  node_id = i;
  depth = depth;
  neighbors = take neighbor_limit found;
  count = length found;
  truncated = ltb neighbor_limit (length found);
}

module _ {Time Stats : Type 0} (g : RepoGraph Time Stats) where
  -- The body of each of the two inner loops.
  unfoldable pub visit : ℕ → Direction → Text × Text → Walk → Option Walk
  unfolding entry insert
  visit level way (etype, other) w = elim (elem other w.seen) [
    | true ↦ some w
    | false ↦ do
      e ← entry g other (record { direction = way; via = etype; depth = level })
      some (record {
        seen = insert other w.seen;
        found = w.found ++ e ∷ [];
        next_frontier = w.next_frontier ++ other ∷ [];
      })
  ]

  unfoldable pub expand : ℕ → Text → Walk → Option Walk
  unfolding for_each visit fwd rev
  expand level current w = do
    out ← for_each (visit level outgoing) (fwd g.edges current) w
    for_each (visit level incoming) (rev g.edges current) out

  -- `for level in range(level, level + left)`
  unfoldable pub levels : ℕ → ℕ → List Text → Walk → Option Walk
  unfolding for_each expand
  levels zero level frontier w = some w
  levels (suc left) level frontier w = do
    t ← for_each (expand level) frontier (record w { next_frontier = [] })
    levels left (suc level) t.next_frontier t

  unfoldable pub neighbors : Text → ℤ → Option Neighborhood
  unfolding levels clamp neighborhood
  neighbors i depth = do
    w ← levels (clamp depth) 1 (i ∷ []) (record { seen = i ∷ []; found = []; next_frontier = [] })
    some (neighborhood i (clamp depth) w.found)
