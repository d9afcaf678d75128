-- ===== src/Cron/Values.antt =====
-- The sets of numbers of scheduling/cron.py (`set[int]`, `frozenset[int]`), each as the ascending
-- list of its elements: what `sorted(values)` returns.
pub mod Laws
use agents_universe.Prelude.{
  ℕ, zero, suc, ◌+◌, ◌-◌, Bool, false, true, ◌||◌, List, [], ◌∷◌, ltb, leb, ◌==◌, if◌then◌else◌,
}

-- `v in values`
unfoldable pub elem : ℕ → List ℕ → Bool
elem v [] = false
elem v (x ∷ xs) = v == x || elem v xs

-- values.add(v)
unfoldable pub add : ℕ → List ℕ → List ℕ
add v [] = v ∷ []
add v (x ∷ xs) =
    let later = x ∷ add v xs in if ltb v x then v ∷ x ∷ xs else if v == x then x ∷ xs else later

-- values.discard(v)
unfoldable pub discard : ℕ → List ℕ → List ℕ
discard v [] = []
discard v (x ∷ xs) = let rest = discard v xs in if v == x then rest else x ∷ rest

-- values.update(items)
unfoldable pub update : List ℕ → List ℕ → List ℕ
update xs [] = xs
update xs (v ∷ vs) = update (add v xs) vs

-- The loop of `range(x, last + 1, step)`, with the rounds left.
range_from : ℕ → ℕ → ℕ → ℕ → List ℕ
range_from zero x last step = []
range_from (suc rounds) x last step =
    let rest = range_from rounds (x + step) last step in if leb x last then x ∷ rest else []

-- range(start, last + 1, step)
unfoldable pub range : ℕ → ℕ → ℕ → List ℕ
unfolding range_from
range start last step = range_from (suc last - start) start last step
