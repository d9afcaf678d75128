-- ===== src/Routing/Choice.antt =====
-- What the tier fallback of model_routing.py chooses.
use agents_universe.Prelude.{
  String, ◌≡◌, refl, ◌≢◌, ◌↔◌, Option, none, some, List, [], ◌∷◌, arith, eq_iff, ◌⊎◌, inl, inr, All,
  sym, ◌∙◌, Option-cases,
}
use agents_universe.Prelude.Dict.{Dict, get}
use agents_universe.Routing.{
  chain, key_of, walk, or_next, resolve_tier_config, first_present, cheapest_tier, tiers,
}

-- The tier has an id that is not empty.
abbrev pub Serves : Dict String → String → String → Type 0
Serves m tier id = (get m tier ≡ some id) × (id ≢ "")

-- The tier is missing, or its id is empty.
abbrev pub Idle : Dict String → String → Type 0
Idle m tier = (get m tier ≡ none) ⊎ (get m tier ≡ some "")

or_next_serves :
    (got next : Option String) (id : String)
    → or_next got next ≡ some id
    → ((got ≡ some id) × (id ≢ "")) ⊎ (next ≡ some id)
or_next_serves none next id h = inr h
or_next_serves (some c) next id h = ground (arith, eq_iff c "")

walk_sound :
    (m : Dict String) (ts : List String) (id : String)
    → walk m ts ≡ some id
    → (tier : String) × Serves m tier id
unfolding walk
walk_sound m [] id h = cc
walk_sound m (t ∷ ts) id h = elim (or_next_serves (get m t) (walk m ts) id h) [
  | inl here ↦ (t, here)
  | inr later ↦ walk_sound m ts id later
]

or_next-none :
    (got next : Option String)
    → (or_next got next ≡ none) ↔ (((got ≡ none) ⊎ (got ≡ some "")) × (next ≡ none))
or_next-none none next = ground arith
or_next-none (some c) next = ground (arith, eq_iff c "")

walk-none : (m : Dict String) (ts : List String) → (walk m ts ≡ none) ↔ All (Idle m) ts
unfolding walk
walk-none m [] = (λ _. tt, λ _. refl)
walk-none m (t ∷ ts) =
    let (split, join) = or_next-none (get m t) (walk m ts) in
    let (down, up) = walk-none m ts in
    (λ h. ((split h).0, down (split h).1), λ h. join (h.0, up h.1))

walk-nil : (ts : List String) → walk [] ts ≡ none
unfolding walk get
walk-nil [] = refl
walk-nil (t ∷ ts) = walk-nil ts

resolve-eq-walk :
    (m : Dict String) (c : Option String) → resolve_tier_config m c ≡ walk m (chain (key_of c))
unfolding resolve_tier_config
resolve-eq-walk [] c = sym (walk-nil (chain (key_of c)))
resolve-eq-walk (e ∷ m) c = refl

-- Every chain names the three tiers.
chain-All : (m : Dict String) (key : String) → All (Idle m) (chain key) ↔ All (Idle m) tiers
unfolding chain
chain-All m key = ground (arith, eq_iff key "low", eq_iff key "mid", eq_iff key "high")

-- No id is chosen exactly when no tier has an id that is not empty, whatever the complexity.
resolve-none :
    (m : Dict String) (c : Option String) → (resolve_tier_config m c ≡ none) ↔ All (Idle m) tiers
resolve-none m c =
    let (there, back) = walk-none m (chain (key_of c)) in
    let (fold, unfolded) = chain-All m (key_of c) in
    (
      λ h. fold (there (sym (resolve-eq-walk m c) ∙ h)),
      λ h. resolve-eq-walk m c ∙ back (unfolded h),
    )

-- A chosen id is not empty, and it is the id of some tier of the map.
pub resolve-Serves :
    (m : Dict String) (c : Option String) (id : String)
    → resolve_tier_config m c ≡ some id
    → (tier : String) × Serves m tier id
resolve-Serves m c id h = walk_sound m (chain (key_of c)) id (sym (resolve-eq-walk m c) ∙ h)

chain_head :
    (m : Dict String) (tier id : String)
    → (tier ≡ "low") ⊎ ((tier ≡ "mid") ⊎ (tier ≡ "high"))
    → Serves m tier id
    → walk m (chain tier) ≡ some id
unfolding walk chain
chain_head m tier id known s =
    ground (arith, eq_iff tier "low", eq_iff tier "mid", eq_iff tier "high", eq_iff id "")

-- A known tier whose id is not empty is served by exactly that id.
pub resolve_exact :
    (m : Dict String) (tier id : String)
    → (tier ≡ "low") ⊎ ((tier ≡ "mid") ⊎ (tier ≡ "high"))
    → Serves m tier id
    → resolve_tier_config m (some tier) ≡ some id
unfolding key_of
resolve_exact m tier id known s = resolve-eq-walk m (some tier) ∙ chain_head m tier id known s

or_next-some :
    (got next : Option String) (id : String)
    → got ≡ some id
    → got ≢ some ""
    → or_next got next ≡ some id
or_next-some none next id h clean = cc
or_next-some (some c) next id h clean = ground (arith, eq_iff c "")

walk-first_present :
    (m : Dict String) (ts : List String) (tier : String)
    → ((t : String) → get m t ≢ some "")
    → first_present m ts ≡ some tier
    → walk m ts ≡ get m tier
unfolding walk first_present
walk-first_present m [] tier clean h = cc
walk-first_present m (t ∷ ts) tier clean h = elim (Option-cases (get m t)) [
  | inl e ↦ rw e (walk-first_present m ts tier clean (rw (e, first_present) at h))
  | inr (id, e) ↦ ground (arith, or_next-some (get m t) (walk m ts) id e (clean t))
]

-- Where no tier has an empty id, the low chain serves the id of the cheapest tier.
pub resolve_cheapest :
    (m : Dict String) (tier : String)
    → ((t : String) → get m t ≢ some "")
    → cheapest_tier m ≡ some tier
    → resolve_tier_config m (some "low") ≡ get m tier
unfolding key_of cheapest_tier chain
resolve_cheapest m tier clean h =
    resolve-eq-walk m (some "low") ∙ walk-first_present m tiers tier clean h
