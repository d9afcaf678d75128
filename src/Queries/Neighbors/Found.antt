-- ===== src/Queries/Neighbors/Found.antt =====
-- What `neighbors` answers.
use agents_universe.Prelude.{
  ℕ, zero, suc, ◌+◌, ◌≡◌, ◌≢◌, refl, inl, inr, Bool, true, ◌&&◌, none, some, List, [], ◌∷◌, ◌++◌,
  map, arith, Bool-cases, Option-cases, All, All-of, All-map,
}
use agents_universe.Prelude.Text.{Text}
use agents_universe.Prelude.TextSet.{same_iff, elem, insert, subset}
use agents_universe.Prelude.Fallible.{for_each, bind-some, for_each-returns, some_inj}
use agents_universe.RepoGraph.{GraphEdge, RepoGraph, node, fwd, rev, parse_node_id}
use agents_universe.Queries.{Entry, entry}
use agents_universe.Queries.Answers.{is_closed, linked-elem, last_node_of}
use agents_universe.Queries.Dependents.{linked, sources, sources-rev}
use agents_universe.Queries.Neighbors.{Direction, outgoing, incoming, Walk, visit, expand, levels}
use agents_universe.Queries.Neighbors.Near.{joined, sources-fwd, All-sources}
use agents_universe.Queries.Neighbors.Levels.{IsLevel, round-IsLevel}

-- The graph has both ends of each of its edges.
unfoldable pub is_whole : {Time Stats : Type 0} → RepoGraph Time Stats → Bool
unfolding is_closed
is_whole g = is_closed g && subset (map (λ e. e.dst) g.edges) (map (λ n. n.id) g.nodes)

linked-elem_dst :
    (es : List GraphEdge) (known : List Text) (x y : Text)
    → subset (map (λ e. e.dst) es) known ≡ true
    → linked es y x ≡ true
    → elem x known ≡ true
unfolding linked subset
linked-elem_dst [] known x y c l = cc
linked-elem_dst (e ∷ es) known x y c l =
    ground (arith, same_iff e.dst x, linked-elem_dst es known x y)

module _ {Time Stats : Type 0} (g : RepoGraph Time Stats) where
  joined-node : (x y : Text) → is_whole g ≡ true → joined g.edges x y ≡ true → node g x ≢ none
  unfolding node is_whole is_closed
  joined-node x y whole j = last_node_of g.nodes x (elim (Bool-cases (linked g.edges x y)) [
    | inl from ↦ linked-elem g.edges _ x y (ground arith) from
    | inr no_edge ↦ linked-elem_dst g.edges _ x y (ground arith) (ground arith)
  ])

  entry_returns :
      {E : Type 0} (x : Text) (extra : E)
      → node g x ≢ none
      → (e : Entry E) × (entry g x extra ≡ some e)
  unfolding entry
  entry_returns x extra known = elim (Option-cases (node g x)) [
    | inl missing ↦ absurd (known missing)
    | inr (n, e) ↦ (
      record {
        node_id = x;
        name = n.name;
        type = n.type;
        rel = (parse_node_id x).1.0;
        line = n.line;
        extra = extra;
      },
      rw e refl,
    )
  ]

  visit_returns :
      (level : ℕ) (way : Direction) (p : Text × Text) (w : Walk)
      → node g p.1 ≢ none
      → (t : Walk) × (visit g level way p w ≡ some t)
  unfolding visit
  visit_returns level way (etype, x) w known = elim (Bool-cases (elem x w.seen)) [
    | inl seen ↦ (w, simp (seen, visit))
    | inr new ↦
        let (e, entered) =
          entry_returns x (record { direction = way; via = etype; depth = level }) known in
        (
          record {
            seen = insert x w.seen;
            found = w.found ++ e ∷ [];
            next_frontier = w.next_frontier ++ x ∷ [];
          },
          simp (new, entered, visit),
        )
  ]

  visits_return :
      (level : ℕ) (way : Direction) (ps : List (Text × Text)) (w : Walk)
      → All (λ p. node g p.1 ≢ none) ps
      → (t : Walk) × (for_each (visit g level way) ps w ≡ some t)
  visits_return level way ps w known =
      for_each-returns (visit g level way) ps w
        (All-map _ _ (λ p k w. visit_returns level way p w k) ps known)

  expand_returns :
      (level : ℕ) (c : Text) (w : Walk)
      → is_whole g ≡ true
      → (t : Walk) × (expand g level c w ≡ some t)
  unfolding expand
  expand_returns level c w whole =
      let onward : (x : Text) → elem x (sources (fwd g.edges c)) ≡ true → node g x ≢ none =
        λ x m. joined-node x c whole (ground (arith, sources-fwd g.edges x c)) in
      let back : (x : Text) → elem x (sources (rev g.edges c)) ≡ true → node g x ≢ none =
        λ x m. joined-node x c whole (ground (arith, sources-rev g.edges x c)) in
      let (out, e) =
        visits_return level outgoing (fwd g.edges c) w (All-sources _ (fwd g.edges c) onward) in
      let (t, e') =
        visits_return level incoming (rev g.edges c) out (All-sources _ (rev g.edges c) back) in
      (t, rw (e, e') refl)

  pub levels_return :
      (left level : ℕ) (frontier : List Text) (w : Walk)
      → is_whole g ≡ true
      → (t : Walk) × (levels g left level frontier w ≡ some t)
  unfolding levels
  levels_return zero level frontier w whole = (w, refl)
  levels_return (suc left) level frontier w whole =
      let (t, e) =
        for_each-returns (expand g level) frontier (record w { next_frontier = [] })
          (All-of (λ c w. expand_returns level c w whole) frontier) in
      let (u, e') = levels_return left (suc level) t.next_frontier t whole in (u, rw (e, e') refl)

  pub levels-IsLevel :
      (i : Text) (k left level : ℕ) (frontier : List Text) (w t : Walk)
      → IsLevel g i k frontier w
      → levels g left level frontier w ≡ some t
      → (last : List Text) × IsLevel g i (k + left) last t
  unfolding levels
  levels-IsLevel i k zero level frontier w t st h =
      let sum : k ≡ k + 0 = omega arith in (frontier, rw (← some_inj h, ← sum) st)
  levels-IsLevel i k (suc left) level frontier w t st h =
      let (u, e, h') =
        bind-some (for_each (expand g level) frontier (record w { next_frontier = [] })) _ t h in
      let (last, st') =
        levels-IsLevel i (suc k) left (suc level) u.next_frontier u t
          (round-IsLevel g i k level frontier w u st e) h' in
      let sum : suc k + left ≡ k + suc left = omega arith in (last, rw (← sum) st')
