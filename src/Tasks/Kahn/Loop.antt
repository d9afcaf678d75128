-- ===== src/Tasks/Kahn/Loop.antt =====
-- The loop of Kahn's algorithm: its invariant, and what it has visited at its end.
use agents_universe.Prelude.{
  ℕ, zero, suc, ◌+◌, ◌<◌, ◌≡◌, sym, ◌↔◌, true, false, List, [], ◌∷◌, ◌==◌, length, keep, arith,
  Bool-cases, inl, inr,
}
use mathlib.Core.List.{reverse}
use agents_universe.Prelude.Text.{Text}
use agents_universe.Prelude.TextSet.{
  same, same_iff, elem, subset, distinct, subset-elem, not-subset, subset-cons, subset_of,
  elem_head, elem-keep, distinct-keep, elem-reverse, distinct-reverse,
}
use agents_universe.Tasks.{Dependencies, relax, kahn, visits}
use agents_universe.Tasks.Kahn.{
  IsGraph, Order, start, visit, missing, missing-nil, missing-zero, subset-missing, missing-cons,
  relax-degree, relax-queue, relax-distinct,
}

module _ (g : Dependencies) (w : IsGraph g) where
  -- The dependencies of what is visited are visited.
  Order-closed :
      {visited : List Text} (x : Text)
      → Order g visited
      → elem x visited ≡ true
      → subset (g.deps x) visited ≡ true
  unfolding elem
  Order-closed x start m = cc
  Order-closed x (visit {visited} y ready o) m = elim (Bool-cases (same y x)) [
    | inl e ↦ subset-cons (g.deps x) visited y (rw (← (same_iff y x).0 e) ready)
    | inr ne ↦ subset-cons (g.deps x) visited y (Order-closed x o (ground arith))
  ]

  pub record State (visited : List Text) (degree : Text → ℕ) (queue : List Text) : Type 0 where
    pub order : Order g visited
    pub once : distinct queue ≡ true
    pub ready :
        (x : Text)
        → elem x queue ≡ true
        → (elem x g.tasks ≡ true) × (elem x visited ≡ false) × (missing visited (g.deps x) ≡ 0)
    pub degrees : (x : Text) → elem x g.tasks ≡ true → degree x ≡ missing visited (g.deps x)
    pub waits :
        (x : Text)
        → elem x g.tasks ≡ true
        → missing visited (g.deps x) ≡ 0
        → elem x visited ≡ false
        → elem x queue ≡ true

  State-relax :
      (visited : List Text) (degree : Text → ℕ) (c : Text) (queue : List Text)
      → State visited degree (c ∷ queue)
      → let (degree', queue') = relax degree (g.dependents c) queue in
        State (c ∷ visited) degree' queue'
  unfolding elem distinct
  State-relax visited degree c queue s =
      let (known, new, free) = s.ready c (ground (arith, same_iff c c)) in
      let ds = g.dependents c in
      let fewer = λ (x : Text). missing-cons c visited (g.deps x) (w.own x) new in
      record {
        order = visit c (missing-zero visited (g.deps c) free) s.order;
        once =
            relax-distinct degree ds queue (w.parts c) (ground (arith, s.once))
              (λ y m one. ground (arith, w.inverse c y, s.ready y, s.degrees y));
        ready = λ x m. ground (
          arith,
          relax-queue degree ds queue x (w.parts c),
          w.inverse c x,
          s.ready x,
          s.degrees x,
          fewer x,
          same_iff c x,
          Order-closed x s.order,
          subset-missing visited (g.deps x),
        );
        degrees = λ x t. ground (
          arith,
          relax-degree degree ds queue x (w.parts c),
          w.inverse c x,
          s.degrees x,
          fewer x,
        );
        waits = λ x t none_left fresh. ground (
          arith,
          relax-queue degree ds queue x (w.parts c),
          w.inverse c x,
          s.waits x,
          s.degrees x,
          fewer x,
          same_iff c x,
        );
      }

  -- What the loop visits, with the equation for its count.
  record Visited (before : List Text) (count : ℕ) : Type 0 where
    pub visited : List Text
    pub order : Order g visited
    pub total : count + missing visited g.tasks ≡ missing before g.tasks
    pub complete :
        (x : Text) → elem x g.tasks ≡ true → missing visited (g.deps x) ≡ 0 → elem x visited ≡ true

  kahn-Visited :
      (fuel : ℕ) (visited : List Text) (degree : Text → ℕ) (queue : List Text)
      → missing visited g.tasks < fuel
      → State visited degree queue
      → Visited visited (kahn fuel g degree queue)
  unfolding kahn elem
  kahn-Visited zero visited degree queue enough s = absurd (omega arith)
  kahn-Visited (suc fuel) visited degree [] enough s = record {
    visited = visited;
    order = s.order;
    total = omega arith;
    complete = λ x t free. ground (arith, s.waits x);
  }
  kahn-Visited (suc fuel) visited degree (c ∷ queue) enough s =
      let next = State-relax visited degree c queue s in
      let (known, new, free) = s.ready c (elem_head c queue) in
      let less = missing-cons c visited g.tasks w.unique new in
      let r =
        kahn-Visited fuel (c ∷ visited) (relax degree (g.dependents c) queue).0
          (relax degree (g.dependents c) queue).1 (ground arith) next in
      record {
        visited = r.visited;
        order = r.order;
        total = ground (arith, r.total);
        complete = r.complete;
      }

  State-start :
      State [] (λ x. length (g.deps x)) (reverse (keep (λ x. length (g.deps x) == 0) g.tasks))
  unfolding elem
  State-start =
      let free = λ (x : Text). length (g.deps x) == 0 in
      let first = keep free g.tasks in
      record {
        order = start;
        once = distinct-reverse first (distinct-keep free g.tasks w.unique);
        ready = λ x m.
            ground (arith, elem-reverse first x, elem-keep free g.tasks x, missing-nil (g.deps x));
        degrees = λ x t. sym (missing-nil (g.deps x));
        waits = λ x t none_left fresh.
            ground (arith, elem-reverse first x, elem-keep free g.tasks x, missing-nil (g.deps x));
      }

  visits-Visited : Visited [] (visits g)
  unfolding visits
  visits-Visited =
      kahn-Visited (suc (length g.tasks)) [] _ _ (omega (arith, missing-nil g.tasks)) State-start

  -- What can be done in some order has been visited.
  Order-visited :
      (r : Visited [] (visits g)) {possible : List Text} (x : Text)
      → Order g possible
      → elem x possible ≡ true
      → elem x g.tasks ≡ true
      → elem x r.visited ≡ true
  unfolding elem
  Order-visited r x start m t = cc
  Order-visited r x (visit {visited} y ready o) m t = elim (Bool-cases (same y x)) [
    | inr ne ↦ Order-visited r x o (ground arith) t
    | inl e ↦ elim (Bool-cases (subset (g.deps x) r.visited)) [
      | inl all ↦ r.complete x t (subset-missing r.visited (g.deps x) all)
      | inr hole ↦
          let (d, of_x, unvisited) = not-subset (g.deps x) r.visited hole in
          let behind = subset-elem (g.deps x) visited d (rw (← (same_iff y x).0 e) ready) of_x in
          cc (Order-visited r d o behind (w.closed x d of_x))
    ]
  ]

-- The loop ends, and it visits all tasks exactly when the tasks can be done one by one, each behind
-- its dependencies: it finds a cycle where there is one, and only there.
pub visits_iff :
    (g : Dependencies)
    → IsGraph g
    → (visits g ≡ length g.tasks) ↔ ((all : List Text) × Order g all × (subset g.tasks all ≡ true))
visits_iff g w =
    let r = visits-Visited g w in
    (
      (λ e. (
        r.visited,
        r.order,
        missing-zero r.visited g.tasks (omega (arith, r.total, missing-nil g.tasks)),
      )),
      (λ (all, o, covers).
          let whole =
            subset_of g.tasks r.visited
              (λ x t. Order-visited g w r x o (subset-elem g.tasks all x covers t) t) in
          omega (arith, r.total, missing-nil g.tasks, subset-missing r.visited g.tasks whole)),
    )
