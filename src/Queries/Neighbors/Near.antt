-- ===== src/Queries/Neighbors/Near.antt =====
-- The levels of `neighbors` against the distance in the graph, whichever way the edges lead.
use agents_universe.Prelude.{
  ℕ, suc, ◌≡◌, refl, sym, ap, inl, inr, Bool, true, false, ◌||◌, some, List, [], ◌∷◌, ◌++◌, arith,
  Bool-cases, All,
}
use agents_universe.Prelude.Text.{Text}
use agents_universe.Prelude.TextSet.{
  same, same_iff, elem, insert, distinct, elem-append, distinct-append,
}
use agents_universe.Prelude.Fallible.{bind-some, some_inj}
use agents_universe.RepoGraph.{GraphEdge, RepoGraph, node, fwd}
use agents_universe.Queries.{Entry, entry}
use agents_universe.Queries.Dependents.{linked, sources, ids, ids-append}
use agents_universe.Queries.Neighbors.{Direction, Hop, Walk, visit}

-- An edge leads from one to the other.
abbrev pub joined : List GraphEdge → Text → Text → Bool
joined es x y = linked es x y || linked es y x

-- The second node is at most so many edges away from the first.
pub data Near (es : List GraphEdge) (i : Text) : ℕ → Text → Type 0 where
  start : Near es i 0 i
  stay : {k : ℕ} {x : Text} → Near es i k x → Near es i (suc k) x
  step : {k : ℕ} {y : Text} (x : Text) → joined es x y ≡ true → Near es i k y → Near es i (suc k) x

pub sources-fwd : (es : List GraphEdge) (x y : Text) → elem x (sources (fwd es y)) ≡ linked es y x
unfolding fwd linked elem
sources-fwd [] x y = refl
sources-fwd (e ∷ es) x y = ground (arith, sources-fwd es x y)

pub All-sources {ℓ} :
    (P : Text → Type ℓ) (ps : List (Text × Text))
    → ((x : Text) → elem x (sources ps) ≡ true → P x)
    → All (λ p. P p.1) ps
unfolding elem
All-sources P [] f = tt
All-sources P ((etype, x) ∷ ps) f =
    (f x (ground (arith, same_iff x x)), All-sources P ps (λ y m. f y (ground arith)))

pub sources-All {ℓ} :
    (P : Text → Type ℓ) (ps : List (Text × Text))
    → All (λ p. P p.1) ps
    → (x : Text) → elem x (sources ps) ≡ true
    → P x
unfolding elem
sources-All P [] h x m = cc
sources-All P ((etype, y) ∷ ps) h x m = elim (Bool-cases (same y x)) [
  | inl e ↦ rw (← (same_iff y x).0 e) h.0
  | inr n ↦ sources-All P ps h.1 x (ground arith)
]

pub All-elem {ℓ} :
    (P : Text → Type ℓ) (xs : List Text) → ((x : Text) → elem x xs ≡ true → P x) → All P xs
unfolding elem
All-elem P [] f = tt
All-elem P (x ∷ xs) f =
    (f x (ground (arith, same_iff x x)), All-elem P xs (λ y m. f y (ground arith)))

pub elem-All {ℓ} :
    (P : Text → Type ℓ) (xs : List Text) → All P xs → (x : Text) → elem x xs ≡ true → P x
unfolding elem
elem-All P [] h x m = cc
elem-All P (y ∷ xs) h x m = elim (Bool-cases (same y x)) [
  | inl e ↦ rw (← (same_iff y x).0 e) h.0
  | inr n ↦ elem-All P xs h.1 x (ground arith)
]

module _ {Time Stats : Type 0} (g : RepoGraph Time Stats) (i : Text) where
  -- In the middle of a level, with what was seen before it.
  pub record Growing (k : ℕ) (old : List Text) (w : Walk) : Type 0 where
    pub once : distinct (ids w.found) ≡ true
    pub others : elem i (ids w.found) ≡ false
    pub members : (x : Text) → elem x w.seen ≡ (same i x || elem x (ids w.found))
    pub front : (x : Text) → elem x w.seen ≡ (elem x old || elem x w.next_frontier)
    pub sound : (x : Text) → elem x w.seen ≡ true → Near g.edges i (suc k) x

  entry-node_id :
      {E : Type 0} (x : Text) (extra : E) (e : Entry E) → entry g x extra ≡ some e → e.node_id ≡ x
  unfolding entry
  entry-node_id x extra e h =
      let (n, known, e') = bind-some (node g x) _ e h in sym (ap (λ e. e.node_id) (some_inj e'))

  Growing-insert :
      (k : ℕ) (old : List Text) (x c : Text) (w : Walk) (e : Entry Hop)
      → e.node_id ≡ x
      → joined g.edges x c ≡ true
      → Near g.edges i k c
      → elem x w.seen ≡ false
      → Growing k old w
      → Growing k old (record {
        seen = insert x w.seen;
        found = w.found ++ e ∷ [];
        next_frontier = w.next_frontier ++ x ∷ [];
      })
  unfolding insert elem
  Growing-insert k old x c w e j l d new st = record {
    once =
        rw (ids-append w.found e)
          (distinct-append (ids w.found) e.node_id st.once (ground (arith, st.members x)));
    others = rw (ids-append w.found e) (
        ground (
          arith,
          elem-append i (ids w.found) (e.node_id ∷ []),
          st.others,
          st.members x,
          same_iff i x,
          same_iff x i,
        ));
    members = λ z.
        rw (ids-append w.found e)
          (ground (arith, elem-append z (ids w.found) (e.node_id ∷ []), st.members z));
    front = λ z. ground (arith, elem-append z w.next_frontier (x ∷ []), st.front z);
    sound = λ z m. elim (Bool-cases (same x z)) [
      | inl e ↦ rw (← (same_iff x z).0 e) (step x l d)
      | inr ne ↦ st.sound z (ground arith)
    ];
  }

  pub visit-Growing :
      (k level : ℕ) (way : Direction) (old : List Text) (etype x c : Text) (w t : Walk)
      → joined g.edges x c ≡ true
      → Near g.edges i k c
      → Growing k old w
      → visit g level way (etype, x) w ≡ some t
      → Growing k old t
  unfolding visit insert elem
  visit-Growing k level way old etype x c w t l d st h = elim (Bool-cases (elem x w.seen)) [
    | inl seen ↦ let same : w ≡ t = some_inj (rw (seen, visit) at h) in rw (← same) st
    | inr new ↦
        let (e, known, h') =
          bind-some (entry g x (record { direction = way; via = etype; depth = level })) _ t
            (rw (new, visit) at h) in
        rw (← some_inj h') (Growing-insert k old x c w e (entry-node_id x _ e known) l d new st)
  ]
