-- ===== src/Queries/Neighbors/Levels.antt =====
-- One level of `neighbors` reaches one edge further.
use agents_universe.Prelude.{
  ℕ, suc, ◌≡◌, ◌⊎◌, inl, inr, ◌↔◌, true, false, ◌||◌, some, List, [], arith, Bool-cases, All,
  All-map, All-of,
}
use agents_universe.Prelude.Text.{Text}
use agents_universe.Prelude.TextSet.{same, same_iff, elem, insert, distinct}
use agents_universe.Prelude.Fallible.{for_each, bind-some, for_each-keeps, for_each-All, some_inj}
use agents_universe.RepoGraph.{GraphEdge, RepoGraph, fwd, rev}
use agents_universe.Queries.{entry}
use agents_universe.Queries.Dependents.{linked, sources, ids, sources-rev}
use agents_universe.Queries.Neighbors.{Direction, outgoing, incoming, Walk, visit, expand}
use agents_universe.Queries.Neighbors.Near.{
  joined, Near, stay, step, sources-fwd, All-sources, sources-All, All-elem, elem-All, Growing,
  visit-Growing,
}

Near-suc :
    {es : List GraphEdge} {i : Text} {k : ℕ} {x : Text}
    → Near es i (suc k) x
    → Near es i k x ⊎ ((y : Text) × (joined es x y ≡ true) × Near es i k y)
Near-suc (stay d) = inl d
Near-suc (step {y = y} x j d) = inr (y, j, d)

module _ {Time Stats : Type 0} (g : RepoGraph Time Stats) where
  visit_grows :
      (level : ℕ) (way : Direction) (p : Text × Text) (x : Text) (w t : Walk)
      → elem x w.seen ≡ true
      → visit g level way p w ≡ some t
      → elem x t.seen ≡ true
  unfolding visit insert elem
  visit_grows level way (etype, y) x w t m h = elim (Bool-cases (elem y w.seen)) [
    | inl seen ↦ rw (← some_inj (rw (seen, visit) at h)) m
    | inr new ↦
        let (e, known, h') =
          bind-some (entry g y (record { direction = way; via = etype; depth = level })) _ t
            (rw (new, visit) at h) in
        rw (← some_inj h') (ground (arith, m, new))
  ]

  visit_sees :
      (level : ℕ) (way : Direction) (p : Text × Text) (w t : Walk)
      → visit g level way p w ≡ some t
      → elem p.1 t.seen ≡ true
  unfolding visit insert elem
  visit_sees level way (etype, y) w t h = elim (Bool-cases (elem y w.seen)) [
    | inl seen ↦ rw (← some_inj (rw (seen, visit) at h)) seen
    | inr new ↦
        let (e, known, h') =
          bind-some (entry g y (record { direction = way; via = etype; depth = level })) _ t
            (rw (new, visit) at h) in
        rw (← some_inj h') (ground (arith, new, same_iff y y))
  ]

  -- One of the two inner loops.
  visits_grow :
      (level : ℕ) (way : Direction) (ps : List (Text × Text)) (x : Text) (w t : Walk)
      → elem x w.seen ≡ true
      → for_each (visit g level way) ps w ≡ some t
      → elem x t.seen ≡ true
  visits_grow level way ps x w t m h =
      for_each-keeps (visit g level way) (λ w. elem x w.seen ≡ true) ps w t
        (All-of (λ p w t. visit_grows level way p x w t) ps) m h

  visits_see :
      (level : ℕ) (way : Direction) (ps : List (Text × Text)) (x : Text) (w t : Walk)
      → for_each (visit g level way) ps w ≡ some t
      → elem x (sources ps) ≡ true
      → elem x t.seen ≡ true
  visits_see level way ps x w t h m =
      sources-All (λ y. elem y t.seen ≡ true) ps
        (for_each-All (visit g level way) (λ p w. elem p.1 w.seen ≡ true) ps w t
          (λ p w t e. visit_sees level way p w t e)
          (λ p q w t e m. visit_grows level way q p.1 w t m e) h)
        x m

  expand_grows :
      (level : ℕ) (c x : Text) (w t : Walk)
      → elem x w.seen ≡ true
      → expand g level c w ≡ some t
      → elem x t.seen ≡ true
  unfolding expand
  expand_grows level c x w t m h =
      let (out, e, e') = bind-some (for_each (visit g level outgoing) (fwd g.edges c) w) _ t h in
      visits_grow level incoming (rev g.edges c) x out t
        (visits_grow level outgoing (fwd g.edges c) x w out m e) e'

  expand_sees :
      (level : ℕ) (c x : Text) (w t : Walk)
      → joined g.edges x c ≡ true
      → expand g level c w ≡ some t
      → elem x t.seen ≡ true
  unfolding expand
  expand_sees level c x w t l h =
      let (out, e, e') = bind-some (for_each (visit g level outgoing) (fwd g.edges c) w) _ t h in
      elim (Bool-cases (linked g.edges x c)) [
        | inl into ↦
            visits_see level incoming (rev g.edges c) x out t e' (rw (sources-rev g.edges x c) into)
        | inr out_of ↦
            visits_grow level incoming (rev g.edges c) x out t
              (visits_see level outgoing (fwd g.edges c) x w out e
                (rw (sources-fwd g.edges x c) (ground arith)))
              e'
      ]

  visits-Growing :
      (i : Text) (k level : ℕ) (way : Direction) (old : List Text) (c : Text)
      (ps : List (Text × Text)) (w t : Walk)
      → All (λ p. joined g.edges p.1 c ≡ true) ps
      → Near g.edges i k c
      → Growing g i k old w
      → for_each (visit g level way) ps w ≡ some t
      → Growing g i k old t
  visits-Growing i k level way old c ps w t js d st h =
      for_each-keeps (visit g level way) (Growing g i k old) ps w t
        (All-map _ _ (λ p j w t st h. visit-Growing g i k level way old p.0 p.1 c w t j d st h) ps
          js)
        st h

  expand-Growing :
      (i : Text) (k level : ℕ) (old : List Text) (c : Text) (w t : Walk)
      → Near g.edges i k c
      → Growing g i k old w
      → expand g level c w ≡ some t
      → Growing g i k old t
  unfolding expand
  expand-Growing i k level old c w t d st h =
      let (out, e, e') = bind-some (for_each (visit g level outgoing) (fwd g.edges c) w) _ t h in
      let onward : (x : Text)
          → elem x (sources (fwd g.edges c)) ≡ true
          → joined g.edges x c ≡ true =
        λ x m. ground (arith, sources-fwd g.edges x c) in
      let back : (x : Text) → elem x (sources (rev g.edges c)) ≡ true → joined g.edges x c ≡ true =
        λ x m. ground (arith, sources-rev g.edges x c) in
      let st' =
        visits-Growing i k level outgoing old c (fwd g.edges c) w out
          (All-sources (λ x. joined g.edges x c ≡ true) (fwd g.edges c) onward) d st e in
      visits-Growing i k level incoming old c (rev g.edges c) out t
        (All-sources (λ x. joined g.edges x c ≡ true) (rev g.edges c) back) d st' e'

  -- Between two levels: what is seen is what is near, and the frontier is what is left to expand.
  pub record IsLevel (i : Text) (k : ℕ) (frontier : List Text) (w : Walk) : Type 0 where
    pub once : distinct (ids w.found) ≡ true
    pub others : elem i (ids w.found) ≡ false
    pub members : (x : Text) → elem x w.seen ≡ (same i x || elem x (ids w.found))
    pub near : (x : Text) → (elem x w.seen ≡ true) ↔ Near g.edges i k x
    pub front : (x : Text) → elem x frontier ≡ true → elem x w.seen ≡ true
    pub closed :
        (x y : Text)
        → elem y w.seen ≡ true
        → elem y frontier ≡ false
        → joined g.edges x y ≡ true
        → elem x w.seen ≡ true

  pub round-IsLevel :
      (i : Text) (k level : ℕ) (frontier : List Text) (w t : Walk)
      → IsLevel i k frontier w
      → for_each (expand g level) frontier (record w { next_frontier = [] }) ≡ some t
      → IsLevel i (suc k) t.next_frontier t
  unfolding elem
  round-IsLevel i k level frontier w t st h =
      let start : Growing g i k w.seen (record w { next_frontier = [] }) = record {
        once = st.once;
        others = st.others;
        members = st.members;
        front = λ x. ground arith;
        sound = λ x m. stay ((st.near x).0 m);
      } in
      let end : Growing g i k w.seen t =
        for_each-keeps (expand g level) (Growing g i k w.seen) frontier _ t
          (All-elem _ frontier (λ c m w' t' st' h'.
            expand-Growing i k level w.seen c w' t' ((st.near c).0 (st.front c m)) st' h'))
          start h in
      let sees = λ (x y : Text) (j : joined g.edges x y ≡ true) (m : elem y frontier ≡ true).
        elem-All (λ c. joined g.edges x c ≡ true → elem x t.seen ≡ true) frontier
          (for_each-All (expand g level) (λ c w. joined g.edges x c ≡ true → elem x w.seen ≡ true)
            frontier _ t (λ c w' t' e j. expand_sees level c x w' t' j e)
            (λ c d w' t' e m j. expand_grows level d x w' t' (m j) e) h)
          y m j in
      let spreads : (x y : Text)
          → elem y w.seen ≡ true
          → joined g.edges x y ≡ true
          → elem x t.seen ≡ true =
        λ x y m j. elim (Bool-cases (elem y frontier)) [
          | inl waits ↦ sees x y j waits
          | inr read ↦ ground (arith, end.front x, st.closed x y m read j)
        ] in
      record {
        once = end.once;
        others = end.others;
        members = end.members;
        near = λ x. (
          end.sound x,
          (λ d. elim (Near-suc d) [
            | inl d' ↦ ground (arith, end.front x, (st.near x).1 d')
            | inr (y, j, d') ↦ spreads x y ((st.near y).1 d') j
          ]),
        );
        front = λ x m. ground (arith, end.front x);
        closed = λ x y m q j. spreads x y (ground (arith, end.front y)) j;
      }
