-- ===== src/Routing.antt =====
-- packages/agent-core/src/agent_core/model_routing.py
pub mod Choice
mod Tests
use agents_universe.Prelude.{String, Option, none, some, List, [], ◌∷◌, if◌then◌else◌}
use text.Mathlib.Text.{◌==◌}
use agents_universe.Prelude.Dict.{Dict, get}

abbrev pub tiers : List String
tiers = "low" ∷ "mid" ∷ "high" ∷ []

-- `_FALLBACK.get(key, _DEFAULT_CHAIN)`
pub chain : String → List String
chain key =
    if key == "low"
    then "low" ∷ "mid" ∷ "high" ∷ []
    else if key == "mid"
    then "mid" ∷ "low" ∷ "high" ∷ []
    else if key == "high"
    then "high" ∷ "mid" ∷ "low" ∷ []
    else "mid" ∷ "low" ∷ "high" ∷ []

-- `none` is a complexity that is not a `str`.
pub key_of : Option String → String
key_of none = ""
key_of (some c) = c

-- `if config_id: return config_id`: a missing and an empty id are both passed over.
abbrev or_next : Option String → Option String → Option String
or_next none next = next
or_next (some id) next = if id == "" then next else some id

pub walk : Dict String → List String → Option String
walk tier_map [] = none
walk tier_map (tier ∷ rest) = or_next (get tier_map tier) (walk tier_map rest)

pub resolve_tier_config : Dict String → Option String → Option String
unfolding key_of chain
resolve_tier_config [] complexity = none
resolve_tier_config (entry ∷ rest) complexity = walk (entry ∷ rest) (chain (key_of complexity))

first_present : Dict String → List String → Option String
first_present tier_map [] = none
first_present tier_map (tier ∷ rest) = elim (get tier_map tier) [
  | none ↦ first_present tier_map rest
  | some _ ↦ some tier
]

pub cheapest_tier : Dict String → Option String
cheapest_tier tier_map = first_present tier_map tiers
