-- ===== src/Queries/Neighbors/Complete.antt =====
-- The answers of `neighbors`: they come, and what is not cut is complete.
use agents_universe.Prelude.{
  ◌+◌, ◌≤◌, ◌≡◌, ◌≢◌, refl, ap, ◌↔◌, true, false, some, List, [], ◌∷◌, arith, length, length-take,
  take_all,
}
use agents_universe.Prelude.Text.{Text}
use agents_universe.Prelude.Int.{ℤ, pos, negsuc}
use agents_universe.Prelude.TextSet.{same_iff, elem, distinct}
use agents_universe.RepoGraph.{GraphEdge, RepoGraph}
use agents_universe.Queries.Dependents.{ids}
use agents_universe.Queries.Neighbors.{Walk, Neighborhood, clamp, neighborhood, neighbors}
use agents_universe.Queries.Neighbors.Near.{Near, start}
use agents_universe.Queries.Neighbors.Levels.{IsLevel}
use agents_universe.Queries.Neighbors.Found.{is_whole, levels_return, levels-IsLevel}

clamp_bounds : (d : ℤ) → (1 ≤ clamp d) × (clamp d ≤ 2)
unfolding clamp
clamp_bounds (pos n) = (ground arith, ground arith)
clamp_bounds (negsuc n) = (omega arith, omega arith)

Near-zero : {es : List GraphEdge} {i x : Text} → Near es i 0 x → i ≡ x
Near-zero start = refl

-- What an answer about the nodes around `i` promises: it goes one or two levels deep and lists at
-- most 200 nodes; and where it is not marked as truncated, the nodes are those that are at most as
-- many edges away as it has levels, whichever way the edges lead, but itself, each once, and they
-- are counted.
pub record IsNeighborhood {Time Stats : Type 0} (g : RepoGraph Time Stats) (i : Text) (d : ℤ)
    (r : Neighborhood) : Type 0 where
  pub levels : (1 ≤ clamp d) × (clamp d ≤ 2) × (r.depth ≡ clamp d)
  pub capped : length r.neighbors ≤ 200
  pub once : r.truncated ≡ false → distinct (ids r.neighbors) ≡ true
  pub nodes :
      r.truncated ≡ false
      → (x : Text) → (elem x (ids r.neighbors) ≡ true) ↔ ((x ≢ i) × Near g.edges i (clamp d) x)
  pub counted : r.truncated ≡ false → r.count ≡ length r.neighbors

module _ {Time Stats : Type 0} (g : RepoGraph Time Stats) (i : Text) where
  start-IsLevel : IsLevel g i 0 (i ∷ []) (record { seen = i ∷ []; found = []; next_frontier = [] })
  unfolding elem distinct
  start-IsLevel = record {
    once = refl;
    others = refl;
    members = λ x. ground arith;
    near = λ x. (
      (λ m. rw (← (same_iff i x).0 (ground arith)) start),
      (λ d. ground (arith, (same_iff i x).1 (Near-zero d))),
    );
    front = λ x m. m;
    closed = λ x y m q j. cc;
  }

  neighbors_found :
      (d : ℤ) (frontier : List Text) (w : Walk)
      → IsLevel g i (clamp d) frontier w
      → (x : Text) → (elem x (ids w.found) ≡ true) ↔ ((x ≢ i) × Near g.edges i (clamp d) x)
  neighbors_found d frontier w st x = (
    (λ m. (
      λ e. cc (ap (λ y. elem y (ids w.found)) e, st.others, m),
      (st.near x).0 (ground (arith, st.members x)),
    )),
    (λ (other, n). ground (arith, (st.near x).1 n, st.members x, same_iff i x)),
  )

  neighborhood-IsNeighborhood :
      (d : ℤ) (frontier : List Text) (w : Walk)
      → IsLevel g i (clamp d) frontier w
      → IsNeighborhood g i d (neighborhood i (clamp d) w.found)
  unfolding neighborhood
  neighborhood-IsNeighborhood d frontier w st = record {
    levels = ((clamp_bounds d).0, (clamp_bounds d).1, refl);
    capped = omega (arith, length-take 200 w.found);
    once = λ t. rw (take_all 200 w.found (ground arith)) st.once;
    nodes = λ t. rw (take_all 200 w.found (ground arith)) (neighbors_found d frontier w st);
    counted = λ t. rw (take_all 200 w.found (ground arith)) refl;
  }

  -- The query answers about any node, and rightly, where the graph has both ends of each of its
  -- edges: the answer goes one or two levels deep, lists at most 200 nodes, and, where it is not
  -- marked as truncated, has exactly the nodes at most that many edges away, whichever way these
  -- lead, but the node itself, each once.
  pub neighbors-IsNeighborhood :
      (d : ℤ)
      → is_whole g ≡ true
      → (r : Neighborhood) × (neighbors g i d ≡ some r) × IsNeighborhood g i d r
  unfolding neighbors
  neighbors-IsNeighborhood d whole =
      let (w, e) =
        levels_return g (clamp d) 1 (i ∷ [])
          (record { seen = i ∷ []; found = []; next_frontier = [] }) whole in
      let (last, st') = levels-IsLevel g i 0 (clamp d) 1 (i ∷ []) _ w start-IsLevel e in
      let sum : 0 + clamp d ≡ clamp d = omega arith in
      let st : IsLevel g i (clamp d) last w = rw sum at st' in
      (_, rw e refl, neighborhood-IsNeighborhood d last w st)
