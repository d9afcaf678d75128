-- ===== src/Tasks/Kahn.antt =====
-- Kahn's algorithm of `_build_dependency_graph`: it accepts exactly the graphs that have an order.
pub mod Loop
use agents_universe.Prelude.{
  ℕ, zero, suc, ◌+◌, ◌-◌, ◌≤◌, ◌<◌, ◌≡◌, refl, sym, ap, ◌∙◌, ◌↔◌, ◌⊎◌, Bool, true, false, ◌&&◌,
  ◌||◌, not, List, [], ◌∷◌, ◌++◌, ◌==◌, if◌then◌else◌, length, keep, keep-yes, keep-no, arith,
  Bool-cases, inl, inr, ==_iff,
}
use mathlib.Core.List.{reverse, reverse-cons}
use agents_universe.Prelude.Text.{Text}
use agents_universe.Prelude.TextSet.{
  same, same_iff, elem, subset, distinct, elem-append, subset-elem,
}
use agents_universe.Tasks.{Dependencies, relax, kahn, visits}

pub record IsGraph (g : Dependencies) : Type 0 where
  pub unique : distinct g.tasks ≡ true
  pub own : (x : Text) → distinct (g.deps x) ≡ true
  pub parts : (c : Text) → distinct (g.dependents c) ≡ true
  pub inverse : (c x : Text) → elem x (g.dependents c) ≡ (elem x g.tasks && elem c (g.deps x))
  pub closed : (x d : Text) → elem d (g.deps x) ≡ true → elem d g.tasks ≡ true

-- The tasks can be done one by one, the last in front: each has its dependencies behind it.
pub data Order (g : Dependencies) : List Text → Type 0 where
  start : Order g []
  visit :
      {visited : List Text} (x : Text)
      → subset (g.deps x) visited ≡ true
      → Order g visited
      → Order g (x ∷ visited)

-- How many of `xs` are not among the visited.
unfoldable pub missing : List Text → List Text → ℕ
missing visited [] = 0
missing visited (x ∷ xs) = (if elem x visited then 0 else 1) + missing visited xs

pub missing-nil : (xs : List Text) → missing [] xs ≡ length xs
unfolding missing elem
missing-nil [] = refl
missing-nil (x ∷ xs) = omega (arith, missing-nil xs)

pub missing-zero : (visited xs : List Text) → missing visited xs ≡ 0 → subset xs visited ≡ true
unfolding missing subset
missing-zero visited [] h = refl
missing-zero visited (x ∷ xs) h = ground (arith, missing-zero visited xs)

pub subset-missing : (visited xs : List Text) → subset xs visited ≡ true → missing visited xs ≡ 0
unfolding missing subset
subset-missing visited [] h = refl
subset-missing visited (x ∷ xs) h = ground (arith, subset-missing visited xs)

missing_other :
    (c : Text) (visited xs : List Text)
    → elem c xs ≡ false
    → missing (c ∷ visited) xs ≡ missing visited xs
unfolding missing elem
missing_other c visited [] h = refl
missing_other c visited (x ∷ xs) h =
    ground (arith, same_iff c x, same_iff x c, missing_other c visited xs)

-- A visit takes one off the count of each list that has the visited text.
pub missing-cons :
    (c : Text) (visited xs : List Text)
    → distinct xs ≡ true
    → elem c visited ≡ false
    → missing (c ∷ visited) xs + (if elem c xs then 1 else 0) ≡ missing visited xs
unfolding missing elem distinct
missing-cons c visited [] u new = refl
missing-cons c visited (x ∷ xs) u new =
    ground
      (arith, same_iff c x, same_iff x c, missing-cons c visited xs, missing_other c visited xs)

pub relax-degree :
    (degree : Text → ℕ) (xs queue : List Text) (y : Text)
    → distinct xs ≡ true
    → (relax degree xs queue).0 y ≡ (if elem y xs then degree y - 1 else degree y)
unfolding relax distinct elem
relax-degree degree [] queue y u = refl
relax-degree degree (x ∷ xs) queue y u =
    let degree' = λ (z : Text). if same x z then degree z - 1 else degree z in
    let queue' = if degree x == 1 then x ∷ queue else queue in
    ground (arith, same_iff x y, relax-degree degree' xs queue' y)

pub relax-queue :
    (degree : Text → ℕ) (xs queue : List Text) (y : Text)
    → distinct xs ≡ true
    → elem y (relax degree xs queue).1 ≡ (elem y queue || (elem y xs && (degree y == 1)))
unfolding relax distinct elem
relax-queue degree [] queue y u = ground arith
relax-queue degree (x ∷ xs) queue y u =
    let degree' = λ (z : Text). if same x z then degree z - 1 else degree z in
    let queue' = if degree x == 1 then x ∷ queue else queue in
    ground (arith, same_iff x y, relax-queue degree' xs queue' y)

pub relax-distinct :
    (degree : Text → ℕ) (xs queue : List Text)
    → distinct xs ≡ true
    → distinct queue ≡ true
    → ((y : Text) → elem y xs ≡ true → (degree y == 1) ≡ true → elem y queue ≡ false)
    → distinct (relax degree xs queue).1 ≡ true
unfolding relax distinct elem
relax-distinct degree [] queue u q new = q
relax-distinct degree (x ∷ xs) queue u q new =
    let degree' = λ (z : Text). if same x z then degree z - 1 else degree z in
    let queue' = if degree x == 1 then x ∷ queue else queue in
    relax-distinct degree' xs queue' (ground arith) (ground (arith, new x, same_iff x x))
      (λ y m one. ground (arith, new y, same_iff x y))
