-- ===== src/Queries/Dependents/Loop.antt =====
-- The loops of `impact_set`: they end, and find the nodes that depend on the start.
use agents_universe.Prelude.{
  ℕ, zero, suc, ◌≤◌, ◌≡◌, ◌≢◌, refl, ◌⊎◌, inl, inr, ◌↔◌, true, false, none, some, List, [], ◌∷◌,
  length, arith, Bool-cases, List-cases, ap,
}
use agents_universe.Prelude.Text.{Text}
use agents_universe.Prelude.TextSet.{same, same_iff, elem, distinct, elem_head}
use agents_universe.Prelude.Fallible.{for_each}
use agents_universe.RepoGraph.{RepoGraph, rev}
use agents_universe.Queries.{
  Entry, Search, done, raised, touch, affect, impact_loop, impact_set, report,
}
use agents_universe.Queries.Dependents.{
  linked, Depends, here, step, sources, ids, sources-rev, unseen_bound, State, work, Hole, Progress,
  touch-cases,
}

module _ {Time Stats : Type 0} (g : RepoGraph Time Stats) (start : Text) where
  scan-cases :
      (c : Text) (ps : List (Text × Text)) (s : Search)
      → ((x : Text) → elem x (sources ps) ≡ true → linked g.edges x c ≡ true)
      → Depends g.edges c start
      → State g start (same c) s
      → ((t : Search) × (for_each (touch g) ps s ≡ some t)
          × Progress g start (same c) (sources ps) s t)
        ⊎ ((for_each (touch g) ps s ≡ none) × Hole g start)
  unfolding for_each elem
  scan-cases c [] s l d st = inl (
    s,
    refl,
    record { state = st; grows = λ z m. m; reads = λ z m. ground arith; less = omega arith },
  )
  scan-cases c ((etype, x) ∷ ps) s l d st =
      elim (touch-cases g start c etype x s (l x (elem_head x (sources ps))) d st) [
        | inr (raises, hole) ↦ inr (rw raises refl, hole)
        | inl (t, e, p) ↦ elim (scan-cases c ps t (λ z m. l z (ground arith)) d p.state) [
          | inr (raises, hole) ↦ inr (rw (e, raises) refl, hole)
          | inl (u, e', q) ↦ inl (
            u,
            rw (e, e') refl,
            record {
              state = q.state;
              grows = λ z m. q.grows z (p.grows z m);
              reads = λ z m. ground (arith, q.reads z, q.grows z, p.reads z);
              less = omega (arith, p.less, q.less);
            },
          )
        ]
      ]

  -- A round: the front of the queue is read to the end, so that nothing is left in reading.
  affect-cases :
      (c : Text) (rest : List Text) (s : Search)
      → s.queue ≡ c ∷ rest
      → State g start (λ _. false) s
      → ((t : Search) × (affect g c (record s { queue = rest }) ≡ some t)
          × State g start (λ _. false) t
          × (suc (work g start t) ≤ work g start s))
        ⊎ ((affect g c (record s { queue = rest }) ≡ none) × Hole g start)
  unfolding affect elem
  affect-cases c rest s e st =
      let waits = λ (y : Text) (m : elem y (c ∷ rest) ≡ true). st.pending y (rw e m) in
      let d = st.sound c (waits c (elem_head c rest)) in
      let st' : State g start (same c) (record s { queue = rest }) = record {
        once = st.once;
        others = st.others;
        members = st.members;
        sound = st.sound;
        pending = λ y m. waits y (ground arith);
        closed = λ x y m q r k. st.closed x y m (rw e (ground arith)) refl k;
      } in
      elim (scan-cases c (rev g.edges c) (record s { queue = rest })
        (λ x m. ground (arith, sources-rev g.edges x c)) d st') [
          | inr (raises, hole) ↦ inr (raises, hole)
          | inl (t, f, p) ↦ inl (
            t,
            f,
            record {
              once = p.state.once;
              others = p.state.others;
              members = p.state.members;
              sound = p.state.sound;
              pending = p.state.pending;
              closed = λ x y m q r k. elim (Bool-cases (same c y)) [
                | inl now ↦ p.reads x (rw (sources-rev g.edges x c, (same_iff c y).0 now) k)
                | inr before ↦ p.state.closed x y m q before k
              ];
            },
            omega (arith, p.less, ap length e),
          )
        ]

  -- How the loop ends: with an empty queue, or at a node that the graph does not have.
  loop-cases :
      (fuel : ℕ) (s : Search)
      → work g start s ≤ fuel
      → State g start (λ _. false) s
      → ((t : Search) × (impact_loop g fuel s ≡ done t)
          × State g start (λ _. false) t
          × (t.queue ≡ []))
        ⊎ ((impact_loop g fuel s ≡ raised) × Hole g start)
  unfolding impact_loop
  loop-cases zero s enough st = elim (List-cases s.queue) [
    | inl e ↦ inl (s, simp (e, impact_loop), st, e)
    | inr (c, rest, e) ↦ absurd (omega (arith, ap length e))
  ]
  loop-cases (suc fuel) s enough st = elim (List-cases s.queue) [
    | inl e ↦ inl (s, simp (e, impact_loop), st, e)
    | inr (c, rest, e) ↦ elim (affect-cases c rest s e st) [
      | inr (raises, hole) ↦ inr (simp (e, raises, impact_loop), hole)
      | inl (t, f, st', less) ↦ elim (loop-cases fuel t (omega arith) st') [
        | inr (raises, hole) ↦ inr (simp (e, f, raises, impact_loop), hole)
        | inl (u, ends, st'', empty) ↦ inl (u, simp (e, f, ends, impact_loop), st'', empty)
      ]
    ]
  ]

  -- What depends on the start has been seen, where nothing waits any more.
  Depends-seen :
      (s : Search)
      → State g start (λ _. false) s
      → s.queue ≡ []
      → {x z : Text} → Depends g.edges x z
      → z ≡ start
      → elem x s.seen ≡ true
  unfolding elem
  Depends-seen s st e here i = rw i (ground (arith, st.members start, same_iff start start))
  Depends-seen s st e (step {y} x l d) i =
      st.closed x y (Depends-seen s st e d i) (rw e refl) refl l

  State-start :
      State g start (λ _. false) (record { seen = start ∷ []; affected = []; queue = start ∷ [] })
  unfolding elem distinct
  State-start = record {
    once = refl;
    others = refl;
    members = λ x. ground arith;
    sound = λ x m. rw (← (same_iff start x).0 (ground arith)) here;
    pending = λ x m. m;
    closed = λ x y m q r k. cc;
  }

  -- The answer about a node is its entries: each node that depends on it, but itself, once.
  pub impact-cases :
      ((affected : List (Entry Text)) × (impact_set g start ≡ done (report start affected))
        × (distinct (ids affected) ≡ true)
        × ((x : Text) → (elem x (ids affected) ≡ true) ↔ ((x ≢ start) × Depends g.edges x start)))
      ⊎ ((impact_set g start ≡ raised) × Hole g start)
  unfolding impact_set
  impact-cases =
      elim (loop-cases (suc (length g.edges)) _ (omega (arith, unseen_bound (start ∷ []) g.edges))
        State-start) [
          | inr (raises, hole) ↦ inr (simp (raises, impact_set), hole)
          | inl (s, ends, st, empty) ↦ inl (
            s.affected,
            simp (ends, impact_set),
            st.once,
            λ x. (
              (λ m. (
                λ i. cc (ap (λ y. elem y (ids s.affected)) i, st.others, m),
                st.sound x (ground (arith, st.members x)),
              )),
              (λ (other, d).
                  ground (arith, Depends-seen s st empty d refl, st.members x, same_iff start x)),
            ),
          )
        ]
