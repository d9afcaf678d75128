-- ===== src/Queries/Answers.antt =====
-- The answers of `impact_set`: they come, and what is not cut is complete.
use agents_universe.Prelude.{
  ◌≡◌, ◌≢◌, refl, inl, inr, ◌↔◌, ◌≤◌, Bool, true, false, none, List, [], ◌∷◌, map, length,
  length-take, take_all, arith, Bool-cases, Option-cases, ap, ◌∙◌,
}
use agents_universe.Prelude.Text.{Text}
use agents_universe.Prelude.TextSet.{same, same_iff, elem, subset, distinct}
use agents_universe.RepoGraph.{GraphNode, GraphEdge, RepoGraph, last_node, node, parse_node_id}
use agents_universe.Queries.{Entry, Impact, done, impact_set, report, sorted_set}
use agents_universe.Queries.Dependents.{linked, Depends, ids}
use agents_universe.Queries.Dependents.Loop.{impact-cases}
use agents_universe.Queries.SortedSet.{
  ascending, sorted_set_ascends, elem-sorted_set, ascending-take,
}

pub last_node_of :
    (ns : List GraphNode) (i : Text) → elem i (map (λ n. n.id) ns) ≡ true → last_node ns i ≢ none
unfolding last_node elem
last_node_of [] i m = cc
last_node_of (n ∷ ns) i m = elim (Option-cases (last_node ns i)) [
  | inl behind ↦ ground (arith, last_node_of ns i)
  | inr (k, behind) ↦ rw behind (λ e. cc)
]

-- The graph has the source of each of its edges.
unfoldable pub is_closed : {Time Stats : Type 0} → RepoGraph Time Stats → Bool
is_closed g = subset (map (λ e. e.src) g.edges) (map (λ n. n.id) g.nodes)

pub linked-elem :
    (es : List GraphEdge) (known : List Text) (x y : Text)
    → subset (map (λ e. e.src) es) known ≡ true
    → linked es x y ≡ true
    → elem x known ≡ true
unfolding linked subset
linked-elem [] known x y c l = cc
linked-elem (e ∷ es) known x y c l = ground (arith, same_iff e.src x, linked-elem es known x y)

abbrev pub rel : Text → Text
rel i = (parse_node_id i).1.0

elem-files :
    (f : Text) (es : List (Entry Text))
    → (elem f (map (λ e. rel e.node_id) es) ≡ true)
      ↔ ((x : Text) × (elem x (ids es) ≡ true) × (rel x ≡ f))
unfolding elem
elem-files f [] = ((λ m. cc), (λ (x, m, e). cc))
elem-files f (e ∷ es) = (
  (λ m. elim (Bool-cases (same (rel e.node_id) f)) [
    | inl now ↦ (
      e.node_id,
      ground (arith, same_iff e.node_id e.node_id),
      (same_iff (rel e.node_id) f).0 now,
    )
    | inr later ↦ let (x, k, r) = (elem-files f es).0 (ground arith) in (x, ground (arith, k), r)
  ]),
  (λ (x, m, r). elim (Bool-cases (same e.node_id x)) [
    | inl now ↦
        let i = (same_iff e.node_id x).0 now in
        ground (arith, (same_iff (rel e.node_id) f).1 (ap rel i ∙ r))
    | inr later ↦ ground (arith, (elem-files f es).1 (x, ground arith, r))
  ]),
)

-- The search ends with an answer about any node, whether the graph has it or not, where the graph has
-- the source of each of its edges.
pub impact_set_returns :
    {Time Stats : Type 0} (g : RepoGraph Time Stats) (i : Text)
    → is_closed g ≡ true
    → (r : Impact) × (impact_set g i ≡ done r)
unfolding node is_closed
impact_set_returns g i c = elim (impact-cases g i) [
  | inl (affected, e, once, all) ↦ (report i affected, e)
  | inr (e, (x, y, l, d, missing)) ↦
      absurd (last_node_of g.nodes x (linked-elem g.edges _ x y c l) missing)
]

-- What an answer about a node promises: at most 200 nodes and at most 200 files, these in ascending
-- order; and where it is not marked as truncated, the nodes are those that depend on it through any
-- number of edges, but itself, each once, the files are those of these nodes, and the count is that
-- of the files.
pub record IsImpact {Time Stats : Type 0} (g : RepoGraph Time Stats) (i : Text) (r : Impact)
    : Type 0 where
  pub capped : (length r.affected_nodes ≤ 200) × (length r.affected_files ≤ 200)
  pub order : ascending r.affected_files ≡ true
  pub once : r.truncated ≡ false → distinct (ids r.affected_nodes) ≡ true
  pub nodes :
      r.truncated ≡ false
      → (x : Text) → (elem x (ids r.affected_nodes) ≡ true) ↔ ((x ≢ i) × Depends g.edges x i)
  pub files :
      r.truncated ≡ false
      → (f : Text)
      → (elem f r.affected_files ≡ true)
        ↔ ((x : Text) × (elem x (ids r.affected_nodes) ≡ true) × (rel x ≡ f))
  pub count : r.truncated ≡ false → r.count ≡ length r.affected_files

report-IsImpact :
    {Time Stats : Type 0} (g : RepoGraph Time Stats) (i : Text) (affected : List (Entry Text))
    → distinct (ids affected) ≡ true
    → ((x : Text) → (elem x (ids affected) ≡ true) ↔ ((x ≢ i) × Depends g.edges x i))
    → IsImpact g i (report i affected)
unfolding report
report-IsImpact g i affected once all =
    let files = map (λ e. rel e.node_id) affected in
    record {
      capped = (
        omega (arith, length-take 200 affected),
        omega (arith, length-take 200 (sorted_set files)),
      );
      order = ascending-take 200 (sorted_set files) (sorted_set_ascends files);
      once = λ w. rw (take_all 200 affected (ground arith)) once;
      nodes = λ w. rw (take_all 200 affected (ground arith)) all;
      files = λ w f.
          rw
            (
              take_all 200 affected (ground arith),
              take_all 200 (sorted_set files) (ground arith),
              elem-sorted_set f files,
            )
            (elem-files f affected);
      count = λ w. rw (take_all 200 (sorted_set files) (ground arith)) refl;
    }

-- An answer about a node lists at most 200 nodes and at most 200 files, the files in ascending
-- order. One that is not marked as truncated is complete: its nodes are those that depend on the
-- node through any number of edges, but itself, each once; its files are the files of these nodes,
-- and its count is theirs.
pub impact_set-IsImpact :
    {Time Stats : Type 0} (g : RepoGraph Time Stats) (i : Text) (r : Impact)
    → impact_set g i ≡ done r
    → IsImpact g i r
impact_set-IsImpact g i r h = elim (impact-cases g i) [
  | inl (affected, e, once, all) ↦
      let answer : report i affected ≡ r = ground arith in
      rw (← answer) (report-IsImpact g i affected once all)
  | inr (e, _) ↦ absurd (ground arith)
]
