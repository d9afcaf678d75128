-- ===== src/Delegation.antt =====
-- The roster of the agents that a project may delegate to: packages/agent-core/src/agent_core,
-- delegation.py, with `validate_agent_slug` and `project_slug_from_workspace` of
-- definition_check.py.
-- A directory is the list of its definition files, sorted as the code reads them. Of a file the model
-- has its name, its path and its frontmatter, whose texts in several languages are already
-- normalized.
pub mod Roster
pub mod Listed
mod Tests
use agents_universe.Prelude.{
  ℕ, Bool, true, false, ◌&&◌, ◌||◌, not, Option, none, some, List, [], ◌∷◌, ◌++◌, map, ◌==◌, leb,
  ltb, ◌-◌, if◌then◌else◌, keep, take, length,
}
use agents_universe.Prelude.Text.{Text, codes, strip, split_on, starts_with, ends_with, text_lt}
use agents_universe.Prelude.TextSet.{same, elem}

pub data Field : Type 0 where
  scalar : Text → Field
  many : List Text → Field
  neither : Field

-- A slug is `none` where it is missing or no text.
pub record Post : Type 0 where
  pub slug : Option Text
  pub display_name : Text
  pub description : Text
  pub category : Text
  pub skills : Field
  pub workflows : Field

pub record DefinitionFile : Type 0 where
  pub name : Text
  pub path : Text
  pub post : Option Post

pub record DelegationCandidate : Type 0 where
  pub slug : Text
  pub display_name : Text
  pub description : Text
  pub category : Text
  pub skills : List Text
  pub workflows : List Text
  pub definition_path : Text

is_blank : Text → Bool
is_blank [] = true
is_blank (c ∷ t) = false

unfoldable pub as_list : Field → List Text
unfolding is_blank
as_list (scalar t) = keep (λ v. not (is_blank v)) (map strip (split_on b',' t))
as_list (many vs) = vs
as_list neither = []

-- [a-z0-9]
abbrev pub is_alnum : ℕ → Bool
is_alnum c = (leb b'a' c && leb c b'z') || (leb b'0' c && leb c b'9')

-- [a-z0-9-]*$, where `$` also matches before a newline at the end.
unfoldable pub slug_rest : Text → Bool
unfolding is_blank
slug_rest [] = true
slug_rest (c ∷ t) = ((is_alnum c || c == b'-') && slug_rest t) || (c == b'\n' && is_blank t)

unfoldable pub validate_agent_slug : Text → Bool
unfolding slug_rest
validate_agent_slug [] = false
validate_agent_slug (c ∷ t) = is_alnum c && slug_rest t

-- The prefix of a project's slugs, from the name of its directory.
unfoldable pub project_prefix : Text → Option Text
unfolding validate_agent_slug
project_prefix name = if validate_agent_slug name then some (name ++ codes "--") else none

abbrev pub agent_suffix : Text
agent_suffix = codes ".agent.md"

-- name.removesuffix(AGENT_SUFFIX)
unfoldable pub stem : Text → Text
unfolding ends_with
stem name =
    if ends_with agent_suffix name then take (length name - length agent_suffix) name else name

-- text or default
unfoldable pub or_default : Text → Text → Text
or_default [] d = d
or_default (c ∷ t) d = c ∷ t

lacks : Option Text → Text → Bool
unfolding starts_with
lacks none slug = false
lacks (some p) slug = not (starts_with p slug)

unfoldable pub candidate : DefinitionFile → Post → Text → DelegationCandidate
unfolding or_default as_list
candidate f p slug = record {
  slug = slug;
  display_name = or_default p.display_name slug;
  description = p.description;
  category = or_default p.category (codes "agile-development");
  skills = as_list p.skills;
  workflows = as_list p.workflows;
  definition_path = f.path;
}

unfoldable pub load_candidate : Option Text → DefinitionFile → Option DelegationCandidate
unfolding validate_agent_slug stem lacks candidate
load_candidate prefix f = elim f.post [
  | none ↦ none
  | some p ↦ elim p.slug [
    | none ↦ none
    | some slug ↦
        if validate_agent_slug slug && (same slug (stem f.name) && not (lacks prefix slug))
        then some (candidate f p slug)
        else none
  ]
]

-- found[candidate.slug] = candidate
unfoldable pub put : DelegationCandidate → List DelegationCandidate → List DelegationCandidate
put c [] = c ∷ []
put c (d ∷ ds) = let rest = put c ds in if same d.slug c.slug then c ∷ ds else d ∷ rest

-- if candidate: found[candidate.slug] = candidate
unfoldable pub put_loaded :
    Option DelegationCandidate → List DelegationCandidate → List DelegationCandidate
unfolding put
put_loaded none found = found
put_loaded (some c) found = put c found

unfoldable pub load_all :
    Option Text → List DefinitionFile → List DelegationCandidate → List DelegationCandidate
load_all prefix [] found = found
load_all prefix (f ∷ fs) found = load_all prefix fs (put_loaded (load_candidate prefix f) found)

unfoldable pub load_framework : Option (List DefinitionFile) → List DelegationCandidate
unfolding load_all
load_framework none = []
load_framework (some fs) = load_all none fs []

unfoldable pub load_project :
    Option (Text × List DefinitionFile) → List DelegationCandidate → List DelegationCandidate
unfolding load_all project_prefix
load_project none found = found
load_project (some (name, fs)) found = load_all (project_prefix name) fs found

-- The order of the keys (category, display_name, slug).
unfoldable pub key_lt : DelegationCandidate → DelegationCandidate → Bool
unfolding text_lt
key_lt c d =
    text_lt c.category d.category
    || (same c.category d.category
        && (text_lt c.display_name d.display_name
            || (same c.display_name d.display_name && text_lt c.slug d.slug)))

unfoldable pub insert_sorted :
    DelegationCandidate → List DelegationCandidate → List DelegationCandidate
unfolding key_lt
insert_sorted c [] = c ∷ []
insert_sorted c (d ∷ ds) =
    let rest = insert_sorted c ds in if key_lt d c then d ∷ rest else c ∷ d ∷ ds

unfoldable pub sorted : List DelegationCandidate → List DelegationCandidate
unfolding insert_sorted
sorted [] = []
sorted (c ∷ cs) = insert_sorted c (sorted cs)

-- `allowed is None or slug in allowed`: an empty allowlist is none.
unfoldable pub is_allowed : List Text → Text → Bool
is_allowed [] slug = true
is_allowed (a ∷ allow) slug = elem slug (a ∷ allow)

-- `none` for a directory is a root that is not given; a project comes with the name of its directory.
unfoldable pub list_delegation_candidates :
    Option (Text × List DefinitionFile)
    → Option (List DefinitionFile)
    → List Text
    → List Text
    → List DelegationCandidate
unfolding load_framework load_project sorted
list_delegation_candidates project framework exclude allow =
    let found = load_project project (load_framework framework) in
    sorted (keep (λ c. not (elem c.slug exclude) && is_allowed allow c.slug) found)
