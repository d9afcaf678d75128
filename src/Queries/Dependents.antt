-- ===== src/Queries/Dependents.antt =====
-- What it means that one node depends on another, and the step of the search behind `impact_set`.
pub mod Loop
use agents_universe.Prelude.{
  ℕ, zero, suc, ◌+◌, ◌≤◌, ◌≡◌, refl, sym, ◌⊎◌, inl, inr, Bool, true, false, ◌&&◌, ◌||◌, not, Option,
  none, some, List, [], ◌∷◌, ◌++◌, map, if◌then◌else◌, length, length-append, arith, Bool-cases,
  Option-cases,
}
use agents_universe.Prelude.Text.{Text}
use agents_universe.Prelude.TextSet.{
  same, same_iff, elem, insert, distinct, elem-insert, elem-append, distinct-append,
}
use agents_universe.Prelude.Fallible.{◌>>=◌, for_each}
use agents_universe.RepoGraph.{GraphEdge, RepoGraph, node, rev, parse_node_id}
use agents_universe.Queries.{Entry, Search, entry, touch}

-- Some edge leads from `x` to `y`.
unfoldable pub linked : List GraphEdge → Text → Text → Bool
linked [] x y = false
linked (e ∷ es) x y = (same e.src x && same e.dst y) || linked es x y

-- The edges lead from the first node to the second in some number of steps.
pub data Depends (es : List GraphEdge) : Text → Text → Type 0 where
  here : {x : Text} → Depends es x x
  step : {y z : Text} (x : Text) → linked es x y ≡ true → Depends es y z → Depends es x z

abbrev pub sources : List (Text × Text) → List Text
sources ps = map (λ p. p.1) ps

abbrev pub ids : {E : Type 0} → List (Entry E) → List Text
ids entries = map (λ e. e.node_id) entries

pub sources-rev : (es : List GraphEdge) (x y : Text) → elem x (sources (rev es y)) ≡ linked es x y
unfolding rev linked elem
sources-rev [] x y = refl
sources-rev (e ∷ es) x y = ground (arith, sources-rev es x y)

-- How many edges come from a node that is not seen.
unfoldable pub unseen : List Text → List GraphEdge → ℕ
unseen seen [] = 0
unseen seen (e ∷ es) = (if elem e.src seen then 0 else 1) + unseen seen es

pub unseen_bound : (seen : List Text) (es : List GraphEdge) → unseen seen es ≤ length es
unfolding unseen
unseen_bound seen [] = omega arith
unseen_bound seen (e ∷ es) = ground (arith, unseen_bound seen es)

unseen_shrinks :
    (x : Text) (seen : List Text) (es : List GraphEdge) → unseen (x ∷ seen) es ≤ unseen seen es
unfolding unseen elem
unseen_shrinks x seen [] = omega arith
unseen_shrinks x seen (e ∷ es) = ground (arith, unseen_shrinks x seen es)

unseen-cons :
    (x y : Text) (seen : List Text) (es : List GraphEdge)
    → linked es x y ≡ true
    → elem x seen ≡ false
    → suc (unseen (x ∷ seen) es) ≤ unseen seen es
unfolding unseen elem linked
unseen-cons x y seen [] l new = cc
unseen-cons x y seen (e ∷ es) l new =
    ground
      (arith, same_iff e.src x, same_iff x e.src, unseen_shrinks x seen es, unseen-cons x y seen es)

pub ids-append :
    {E : Type 0} (xs : List (Entry E)) (e : Entry E) → ids (xs ++ e ∷ []) ≡ ids xs ++ e.node_id ∷ []
ids-append [] e = refl
ids-append (x ∷ xs) e = rw (ids-append xs e) refl

module _ {Time Stats : Type 0} (g : RepoGraph Time Stats) (start : Text) where
  pub entry-cases :
      (x etype : Text)
      → ((node g x ≡ none) × (entry g x etype ≡ none))
        ⊎ ((e : Entry Text) × (entry g x etype ≡ some e) × (e.node_id ≡ x))
  unfolding entry
  entry-cases x etype = elim (Option-cases (node g x)) [
    | inl missing ↦ inl (missing, rw missing refl)
    | inr (n, known) ↦ inr (
      record {
        node_id = x;
        name = n.name;
        type = n.type;
        rel = (parse_node_id x).1.0;
        line = n.line;
        extra = etype;
      },
      rw known refl,
      refl,
    )
  ]

  -- The nodes that are seen and whose edges are read have all their sources seen; the edges of those
  -- of which `reading` holds may be left.
  pub record State (reading : Text → Bool) (s : Search) : Type 0 where
    pub once : distinct (ids s.affected) ≡ true
    pub others : elem start (ids s.affected) ≡ false
    pub members : (x : Text) → elem x s.seen ≡ (same start x || elem x (ids s.affected))
    pub sound : (x : Text) → elem x s.seen ≡ true → Depends g.edges x start
    pub pending : (x : Text) → elem x s.queue ≡ true → elem x s.seen ≡ true
    pub closed :
        (x y : Text)
        → elem y s.seen ≡ true
        → elem y s.queue ≡ false
        → reading y ≡ false
        → linked g.edges x y ≡ true
        → elem x s.seen ≡ true

  abbrev pub work : Search → ℕ
  work s = unseen s.seen g.edges + length s.queue

  -- An edge from a node that the graph does not have, to one that depends on the start.
  abbrev pub Hole : Type 0
  Hole = (x y : Text) × (linked g.edges x y ≡ true) × Depends g.edges y start × (node g x ≡ none)

  -- What a round that ends brings.
  pub record Progress (reading : Text → Bool) (xs : List Text) (s t : Search) : Type 0 where
    pub state : State reading t
    pub grows : (x : Text) → elem x s.seen ≡ true → elem x t.seen ≡ true
    pub reads : (x : Text) → elem x xs ≡ true → elem x t.seen ≡ true
    pub less : work t ≤ work s

  State-touch :
      (c etype x : Text) (s : Search) (e : Entry Text)
      → e.node_id ≡ x
      → linked g.edges x c ≡ true
      → Depends g.edges c start
      → elem x s.seen ≡ false
      → State (same c) s
      → Progress (same c) (x ∷ []) s (record {
        seen = insert x s.seen;
        affected = s.affected ++ e ∷ [];
        queue = s.queue ++ x ∷ [];
      })
  unfolding insert elem
  State-touch c etype x s e i l d new st = record {
    state = record {
      once =
          rw (ids-append s.affected e)
            (distinct-append (ids s.affected) e.node_id st.once (ground (arith, st.members x)));
      others = rw (ids-append s.affected e) (
          ground (
            arith,
            elem-append start (ids s.affected) (e.node_id ∷ []),
            st.others,
            st.members x,
            same_iff start x,
            same_iff x start,
          ));
      members = λ z.
          rw (ids-append s.affected e)
            (ground (arith, elem-append z (ids s.affected) (e.node_id ∷ []), st.members z));
      sound = λ z m. elim (Bool-cases (same x z)) [
        | inl e ↦ rw (← (same_iff x z).0 e) (step x l d)
        | inr ne ↦ st.sound z (ground arith)
      ];
      pending = λ z m. ground (arith, elem-append z s.queue (x ∷ []), st.pending z);
      closed = λ z y m q r k. ground (arith, elem-append y s.queue (x ∷ []), st.closed z y);
    };
    grows = λ z m. ground (arith, new);
    reads = λ z m. ground (arith, new);
    less =
        ground (arith, new, unseen-cons x c s.seen g.edges l new, length-append s.queue (x ∷ []));
  }

  touch-cases :
      (c etype x : Text) (s : Search)
      → linked g.edges x c ≡ true
      → Depends g.edges c start
      → State (same c) s
      → ((t : Search) × (touch g (etype, x) s ≡ some t) × Progress (same c) (x ∷ []) s t)
        ⊎ ((touch g (etype, x) s ≡ none) × Hole)
  unfolding touch elem
  touch-cases c etype x s l d st = elim (Bool-cases (elem x s.seen)) [
    | inl old ↦ inl (
      s,
      simp (old, touch),
      record {
        state = st;
        grows = λ z m. m;
        reads = λ z m. ground (arith, same_iff x z);
        less = omega arith;
      },
    )
    | inr new ↦ elim (entry-cases x etype) [
      | inl (missing, raises) ↦ inr (simp (new, raises, touch), (x, c, l, d, missing))
      | inr (e, known, i) ↦
          inl (_, simp (new, known, touch), State-touch c etype x s e i l d new st)
    ]
  ]
