-- ===== src/Delegation/Tests.antt =====
-- Rosters of small projects.
use agents_universe.Prelude.{
  ◌≡◌, refl, true, ◌&&◌, not, none, some, List, [], ◌∷◌, ◌++◌, if◌then◌else◌,
}
use agents_universe.Prelude.Text.{Text, codes}
use agents_universe.Prelude.TextSet.{same, elem, distinct}
use agents_universe.Delegation.{
  scalar, neither, Post, DefinitionFile, validate_agent_slug, load_candidate,
  list_delegation_candidates, is_allowed, put_loaded,
}
use agents_universe.Delegation.Roster.{slugs, lookup, or_else}
use agents_universe.Delegation.Listed.{
  project_offer, framework_offer, lookup-list_delegation_candidates,
}

abbrev post : Text → Post
post slug = record {
  slug = some slug;
  display_name = [];
  description = codes "reviews";
  category = [];
  skills = scalar (codes "read, write");
  workflows = neither;
}

abbrev file : Text → Text → DefinitionFile
file slug path = record { name = slug ++ codes ".agent.md"; path = path; post = some (post slug) }

-- The file of `bar` has another name.
abbrev framework : List DefinitionFile
framework =
    file (codes "reviewer") (codes "/agents/reviewer.agent.md")
    ∷ record {
      name = codes "foo.agent.md";
      path = codes "/agents/foo.agent.md";
      post = some (post (codes "bar"));
    }
    ∷ []

abbrev project : Text × List DefinitionFile
project = (
  codes "shop",
  file (codes "shop--tester") (codes "/p/shop--tester.agent.md")
      ∷ file (codes "tester") (codes "/p/tester.agent.md")
      ∷ [],
)

roster_slugs :
    slugs (list_delegation_candidates (some project) (some framework) [] [])
    ≡ codes "reviewer" ∷ codes "shop--tester" ∷ []
unfolding list_delegation_candidates load_candidate same elem put_loaded is_allowed
roster_slugs = refl

roster_without :
    slugs (list_delegation_candidates (some project) (some framework) (codes "reviewer" ∷ []) [])
    ≡ codes "shop--tester" ∷ []
unfolding list_delegation_candidates load_candidate same elem put_loaded is_allowed
roster_without = refl

-- A slug that ends in a newline passes the test of path safety.
slug_newline : validate_agent_slug (codes "reviewer" ++ b'\n' ∷ []) ≡ true
unfolding validate_agent_slug
slug_newline = refl

lookup-list_delegation_candidates_example :
    let roster = list_delegation_candidates (some project) (some framework) (codes "x" ∷ []) [] in
    (distinct (slugs roster) ≡ true)
    × (lookup (codes "reviewer") roster ≡ (
        if not (elem (codes "reviewer") (codes "x" ∷ [])) && is_allowed [] (codes "reviewer")
        then or_else
            (project_offer (some project) (codes "reviewer"))
            (framework_offer (some framework) (codes "reviewer"))
        else none))
lookup-list_delegation_candidates_example =
    lookup-list_delegation_candidates (some project) (some framework) (codes "x" ∷ []) []
      (codes "reviewer")
