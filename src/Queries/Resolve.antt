-- ===== src/Queries/Resolve.antt =====
-- The answers of `resolve_node`: which node a name stands for.
use agents_universe.Prelude.{
  ◌≡◌, ◌≢◌, refl, inl, inr, ◌≤◌, Bool, true, Option, none, some, List, [], ◌∷◌, map, length, keep,
  keep-yes, keep-no, arith, Bool-cases, Option-cases,
}
use agents_universe.Prelude.Text.{Text, strip}
use agents_universe.Prelude.TextSet.{elem, elem_head}
use agents_universe.RepoGraph.{GraphNode, RepoGraph, last_node, node, parse_node_id}
use agents_universe.Queries.{
  Entry, Reason, query_required, no_match, Resolution, found, ambiguous, error, is_file_match,
  is_symbol_match, is_suffix_match, entry, only, by_suffix, by_symbol, by_name, resolve_stripped,
  resolve_node,
}
use agents_universe.Queries.Answers.{last_node_of}

-- `ms`, or `later` where `ms` is empty.
abbrev pub or_later : List GraphNode → List GraphNode → List GraphNode
or_later [] later = later
or_later (m ∷ ms) later = m ∷ ms

-- The matches of the first of the rules that has any.
abbrev pub first_matches : List (GraphNode → Bool) → List GraphNode → List GraphNode
first_matches [] ns = []
first_matches (p ∷ ps) ns = or_later (keep p ns) (first_matches ps ns)

-- The rules in their order: a file by its path or a directory of it, a symbol by its name, and a
-- symbol by the end of its name.
abbrev pub rules : Text → List (GraphNode → Bool)
rules q = is_file_match q ∷ is_symbol_match q ∷ is_suffix_match q ∷ []

module _ {Time Stats : Type 0} (g : RepoGraph Time Stats) where
  -- What an answer to the stripped query says.
  pub data IsAnswer (q : Text) : Resolution → Type 0 where
    nothing_asked : q ≡ [] → IsAnswer q (error query_required)
    by_id : (e : Entry Unit) → node g q ≢ none → e.node_id ≡ q → IsAnswer q (found e)
    single :
        (e : Entry Unit) (n : GraphNode)
        → node g q ≡ none
        → first_matches (rules q) g.nodes ≡ n ∷ []
        → e.node_id ≡ n.id
        → IsAnswer q (found e)
    several :
        (why : Reason) (ms : List GraphNode)
        → node g q ≡ none
        → first_matches (rules q) g.nodes ≡ ms
        → 2 ≤ length ms
        → IsAnswer q (ambiguous (map (λ n. n.id) ms) why)
    unknown :
        node g q ≡ none → first_matches (rules q) g.nodes ≡ [] → IsAnswer q (error (no_match q))

  elem-ids-keep :
      (p : GraphNode → Bool) (ns : List GraphNode) (x : Text)
      → elem x (map (λ n. n.id) (keep p ns)) ≡ true
      → elem x (map (λ n. n.id) ns) ≡ true
  unfolding elem
  elem-ids-keep p [] x m = m
  elem-ids-keep p (n ∷ ns) x m = elim (Bool-cases (p n)) [
    | inl kept ↦
        let m' : elem x (map (λ n. n.id) (n ∷ keep p ns)) ≡ true = rw (keep-yes p n ns kept) at m in
        ground (arith, elem-ids-keep p ns x)
    | inr dropped ↦
        let m' : elem x (map (λ n. n.id) (keep p ns)) ≡ true = rw (keep-no p n ns dropped) at m in
        ground (arith, elem-ids-keep p ns x)
  ]

  entry_known :
      (x : Text) (n : GraphNode)
      → node g x ≡ some n
      → (e : Entry Unit) × (entry g x tt ≡ some e) × (e.node_id ≡ x)
  unfolding entry
  entry_known x n known = (
    record {
      node_id = x;
      name = n.name;
      type = n.type;
      rel = (parse_node_id x).1.0;
      line = n.line;
      extra = tt;
    },
    rw known refl,
    refl,
  )

  entry_of :
      (x : Text)
      → elem x (map (λ n. n.id) g.nodes) ≡ true
      → (e : Entry Unit) × (entry g x tt ≡ some e) × (e.node_id ≡ x)
  unfolding node
  entry_of x m = elim (Option-cases (last_node g.nodes x)) [
    | inl missing ↦ absurd (last_node_of g.nodes x m missing)
    | inr (n, known) ↦ entry_known x n known
  ]

  abbrev pub Answered : Text → Option Resolution → Type 0
  Answered q o = (r : Resolution) × (o ≡ some r) × IsAnswer q r

  -- One rule with its matches, where those before it have none.
  only-Answered :
      (q : Text) (ms later : List GraphNode) (why : List GraphNode → Reason)
      (next : Option Resolution)
      → node g q ≡ none
      → ((x : Text) → elem x (map (λ n. n.id) ms) ≡ true → elem x (map (λ n. n.id) g.nodes) ≡ true)
      → first_matches (rules q) g.nodes ≡ or_later ms later
      → (first_matches (rules q) g.nodes ≡ later → Answered q next)
      → Answered q (only g ms why next)
  unfolding only elem
  only-Answered q [] later why next missing known front rest = rest front
  only-Answered q (n ∷ []) later why next missing known front rest =
      let (e, entered, i) = entry_of n.id (known n.id (elem_head n.id [])) in
      (found e, rw entered refl, single e n missing front i)
  only-Answered q (n ∷ m ∷ ms) later why next missing known front rest =
      (_, refl, several (why (n ∷ m ∷ ms)) (n ∷ m ∷ ms) missing front (omega arith))

  by_name-Answered : (q : Text) → node g q ≡ none → Answered q (by_name g q)
  unfolding by_name by_symbol by_suffix
  by_name-Answered q missing =
      let stage = λ (p : GraphNode → Bool). only-Answered q (keep p g.nodes) in
      let known = λ (p : GraphNode → Bool). elem-ids-keep p g.nodes in
      stage (is_file_match q) _ _ _ missing (known (is_file_match q)) refl λ one.
        stage (is_symbol_match q) _ _ _ missing (known (is_symbol_match q)) one λ two.
          stage (is_suffix_match q) [] _ _ missing (known (is_suffix_match q)) two
            λ three. (error (no_match q), refl, unknown missing three)

  stripped-Answered : (q : Text) → Answered q (resolve_stripped g q)
  unfolding resolve_stripped entry_known
  stripped-Answered [] = (_, refl, nothing_asked refl)
  stripped-Answered (c ∷ q) = elim (Option-cases (node g (c ∷ q))) [
    | inl missing ↦
        let (r, named, answers) = by_name-Answered (c ∷ q) missing in
        (r, simp (missing, named, resolve_stripped), answers)
    | inr (n, known) ↦
        let (e, entered, i) = entry_known (c ∷ q) n known in
        (found e, simp (known, resolve_stripped), by_id e (λ missing. ground arith) i)
  ]

  -- A name gets an answer in every graph, and never an exception. A blank one gets an error; one that
  -- is a node's id gets that node; any other gets the only match of the first rule that has one, is
  -- ambiguous between all its matches where these are two or more, and gets an error where no rule
  -- has one.
  pub resolve_node-IsAnswer :
      (query : Text) → (r : Resolution) × (resolve_node g query ≡ some r) × IsAnswer (strip query) r
  unfolding resolve_node
  resolve_node-IsAnswer query = stripped-Answered (strip query)
