-- ===== src/Prelude/Fallible.antt =====
-- Code that may raise, as an option: `none` is the exception.
use mathlib.Core.Path.{◌≡◌, refl, ap}
use mathlib.Core.Option.{Option, none, some}
use mathlib.Core.List.{List, [], ◌∷◌}
use native.Mathlib.Omega.{arith}
use agents_universe.Prelude.Lists.{All, All-of}

infixl 5 ◌>>=◌
abbrev pub ◌>>=◌ {ℓ κ} : {A : Type ℓ} {B : Type κ} → Option A → (A → Option B) → Option B
none >>= f = none
some a >>= f = f a

-- `[f(x) for x in xs]`
unfoldable pub each {ℓ κ} : {A : Type ℓ} {B : Type κ} → (A → Option B) → List A → Option (List B)
each f [] = some []
each f (x ∷ xs) = do y ← f x; ys ← each f xs; some (y ∷ ys)

-- A loop `for x in xs` that changes a state.
unfoldable pub for_each {ℓ κ} :
    {A : Type ℓ} {S : Type κ} → (A → S → Option S) → List A → S → Option S
for_each f [] s = some s
for_each f (x ∷ xs) s = do t ← f x s; for_each f xs t

-- Both steps of a chain that returns have returned.
pub bind-some {ℓ κ} :
    {A : Type ℓ} {B : Type κ} (o : Option A) (f : A → Option B) (b : B)
    → (o >>= f) ≡ some b
    → (a : A) × (o ≡ some a) × (f a ≡ some b)
bind-some none f b e = absurd (ground arith)
bind-some (some a) f b e = (a, refl, e)

module _ {ℓ κ μ} {A : Type ℓ} {S : Type κ} (f : A → S → Option S) where
  -- What each step of a loop keeps holds at its end.
  pub for_each-keeps :
      (P : S → Type μ) (xs : List A) (s t : S)
      → All (λ x. (s t : S) → P s → f x s ≡ some t → P t) xs
      → P s
      → for_each f xs s ≡ some t
      → P t
  unfolding for_each
  for_each-keeps P [] s t k p e = let same : s ≡ t = ground arith in rw (← same) p
  for_each-keeps P (x ∷ xs) s t k p e =
      let (u, e', e'') = bind-some (f x s) (for_each f xs) t e in
      for_each-keeps P xs u t k.1 (k.0 s u p e') e''

  -- What a step brings about for its element, and the later ones keep, holds for all at the end.
  pub for_each-All :
      (P : A → S → Type μ) (xs : List A) (s t : S)
      → ((x : A) (s t : S) → f x s ≡ some t → P x t)
      → ((x y : A) (s t : S) → f y s ≡ some t → P x s → P x t)
      → for_each f xs s ≡ some t
      → All (λ x. P x t) xs
  unfolding for_each
  for_each-All P [] s t now later e = tt
  for_each-All P (x ∷ xs) s t now later e =
      let (u, e', e'') = bind-some (f x s) (for_each f xs) t e in
      (
        for_each-keeps (P x) xs u t (All-of (λ y s t p e. later x y s t e p) xs) (now x s u e') e'',
        for_each-All P xs u t now later e'',
      )

pub some_inj {ℓ} : {A : Type ℓ} {a b : A} → some a ≡ some b → a ≡ b
some_inj {A} {a} e = ap (λ (o : Option A). elim o [ none ↦ a | some c ↦ c ]) e

-- A loop whose steps all return returns.
pub for_each-returns {ℓ κ} :
    {A : Type ℓ} {S : Type κ} (f : A → S → Option S) (xs : List A) (s : S)
    → All (λ x. (s : S) → (t : S) × (f x s ≡ some t)) xs
    → (t : S) × (for_each f xs s ≡ some t)
unfolding for_each
for_each-returns f [] s h = (s, refl)
for_each-returns f (x ∷ xs) s h =
    let (u, e) = h.0 s in let (t, e') = for_each-returns f xs u h.1 in (t, rw (e, e') refl)
