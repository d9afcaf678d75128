-- ===== src/Routing/Tests.antt =====
-- The theorems about the tier fallback at concrete maps.
use agents_universe.Prelude.{String, ◌≡◌, refl, some, [], ◌∷◌}
use agents_universe.Prelude.Dict.{Dict, get}
use agents_universe.Routing.{chain, key_of, walk, resolve_tier_config}

abbrev two_tiers : Dict String
two_tiers = ("mid", "gpt") ∷ ("high", "opus") ∷ []

high_for_unknown : resolve_tier_config two_tiers (some "high") ≡ some "opus"
unfolding resolve_tier_config walk get chain key_of
high_for_unknown = refl
