-- ===== src/Prelude/TextSet.antt =====
-- Sets of texts, as lists without regard to order.
use Prim.Native.Nat.{◌≤◌}
use mathlib.Core.Path.{◌≡◌, refl}
use mathlib.Core.Logic.{◌↔◌, inl, inr}
use mathlib.Core.Bool.{Bool, true, false, ◌&&◌, ◌||◌, not}
use mathlib.Core.List.{List, [], ◌∷◌, ◌++◌, reverse, reverse-cons}
use native.Mathlib.Omega.{arith}
use agents_universe.Prelude.Tests.{if◌then◌else◌, ==_iff, Bool-cases}
use agents_universe.Prelude.Lists.{length, keep, keep-yes, keep-no}
use agents_universe.Prelude.Text.{Text, text_eq}

-- The test of two texts, kept shut.
unfoldable pub same : Text → Text → Bool
same s t = text_eq s t

pub same_iff : (s t : Text) → (same s t ≡ true) ↔ (s ≡ t)
unfolding same
same_iff [] [] = ground arith
same_iff [] (d ∷ t) = ground arith
same_iff (c ∷ s) [] = ground arith
same_iff (c ∷ s) (d ∷ t) = ground (arith, same_iff s t, ==_iff c d)

-- x in xs
unfoldable pub elem : Text → List Text → Bool
elem x [] = false
elem x (y ∷ ys) = same y x || elem x ys

-- xs.add(x)
unfoldable pub insert : Text → List Text → List Text
insert x xs = if elem x xs then xs else x ∷ xs

-- xs.discard(x)
unfoldable pub discard : Text → List Text → List Text
discard x [] = []
discard x (y ∷ ys) = let rest = discard x ys in if same y x then rest else y ∷ rest

-- xs <= ys
unfoldable pub subset : List Text → List Text → Bool
subset [] ys = true
subset (x ∷ xs) ys = elem x ys && subset xs ys

-- No text stands twice.
unfoldable pub distinct : List Text → Bool
distinct [] = true
distinct (x ∷ xs) = not (elem x xs) && distinct xs

pub elem-insert : (x y : Text) (xs : List Text) → elem y (insert x xs) ≡ (same x y || elem y xs)
unfolding insert elem
elem-insert x y xs = ground (arith, same_iff x y)

pub elem-discard :
    (x y : Text) (xs : List Text) → elem y (discard x xs) ≡ (elem y xs && not (same x y))
unfolding discard elem
elem-discard x y [] = refl
elem-discard x y (z ∷ zs) =
    ground (arith, same_iff z x, same_iff z y, same_iff x y, elem-discard x y zs)

pub elem-append : (x : Text) (xs ys : List Text) → elem x (xs ++ ys) ≡ (elem x xs || elem x ys)
unfolding elem
elem-append x [] ys = refl
elem-append x (y ∷ xs) ys = ground (arith, elem-append x xs ys)

pub subset-elem :
    (xs ys : List Text) (x : Text) → subset xs ys ≡ true → elem x xs ≡ true → elem x ys ≡ true
unfolding subset elem
subset-elem [] ys x h e = cc
subset-elem (z ∷ xs) ys x h e = ground (arith, same_iff z x, subset-elem xs ys x)

-- A member that is missing, where the inclusion fails.
pub not-subset :
    (xs ys : List Text)
    → subset xs ys ≡ false
    → (x : Text) × (elem x xs ≡ true) × (elem x ys ≡ false)
unfolding subset elem
not-subset [] ys h = cc
not-subset (z ∷ xs) ys h = elim (Bool-cases (elem z ys)) [
  | inl present ↦ let (x, e, m) = not-subset xs ys (ground arith) in (x, ground arith, m)
  | inr missing ↦ (z, ground (arith, same_iff z z), missing)
]

pub elem_head : (x : Text) (xs : List Text) → elem x (x ∷ xs) ≡ true
unfolding elem
elem_head x xs = ground (arith, same_iff x x)

pub elem-keep :
    (p : Text → Bool) (xs : List Text) (x : Text) → elem x (keep p xs) ≡ (elem x xs && p x)
unfolding elem
elem-keep p [] x = refl
elem-keep p (y ∷ ys) x = elim (Bool-cases (p y)) [
  | inl kept ↦ rw (keep-yes p y ys kept) (ground (arith, same_iff y x, elem-keep p ys x, kept))
  | inr dropped ↦
      rw (keep-no p y ys dropped) (ground (arith, same_iff y x, elem-keep p ys x, dropped))
]

pub distinct-keep :
    (p : Text → Bool) (xs : List Text) → distinct xs ≡ true → distinct (keep p xs) ≡ true
unfolding distinct
distinct-keep p [] u = refl
distinct-keep p (y ∷ ys) u = elim (Bool-cases (p y)) [
  | inl kept ↦ rw (keep-yes p y ys kept) (ground (arith, elem-keep p ys y, distinct-keep p ys))
  | inr dropped ↦ rw (keep-no p y ys dropped) (ground (arith, distinct-keep p ys))
]

pub distinct-append :
    (xs : List Text) (x : Text)
    → distinct xs ≡ true
    → elem x xs ≡ false
    → distinct (xs ++ x ∷ []) ≡ true
unfolding distinct elem
distinct-append [] x u new = refl
distinct-append (y ∷ ys) x u new =
    ground (arith, distinct-append ys x, elem-append y ys (x ∷ []), same_iff x y, same_iff y x)

pub elem-reverse : (xs : List Text) (x : Text) → elem x (reverse xs) ≡ elem x xs
unfolding elem
elem-reverse [] x = refl
elem-reverse (y ∷ ys) x =
    rw (reverse-cons y ys) (ground (arith, elem-append x (reverse ys) (y ∷ []), elem-reverse ys x))

pub distinct-reverse : (xs : List Text) → distinct xs ≡ true → distinct (reverse xs) ≡ true
unfolding distinct
distinct-reverse [] u = refl
distinct-reverse (y ∷ ys) u = rw (reverse-cons y ys) (
    distinct-append (reverse ys) y (distinct-reverse ys (ground arith))
      (ground (arith, elem-reverse ys y)))

pub distinct-insert :
    (x : Text) (xs : List Text) → distinct xs ≡ true → distinct (insert x xs) ≡ true
unfolding distinct insert
distinct-insert x xs u = ground arith

pub subset_of :
    (xs ys : List Text) → ((x : Text) → elem x xs ≡ true → elem x ys ≡ true) → subset xs ys ≡ true
subset_of xs ys f = elim (Bool-cases (subset xs ys)) [
  | inl all ↦ all
  | inr hole ↦ let (x, e, m) = not-subset xs ys hole in cc (f x e)
]

pub subset-cons : (xs ys : List Text) (c : Text) → subset xs ys ≡ true → subset xs (c ∷ ys) ≡ true
unfolding subset elem
subset-cons [] ys c h = refl
subset-cons (x ∷ xs) ys c h = ground (arith, subset-cons xs ys c)

pub length-discard : (x : Text) (xs : List Text) → length (discard x xs) ≤ length xs
unfolding discard
length-discard x [] = omega arith
length-discard x (y ∷ ys) = ground (arith, length-discard x ys)

-- A text in the middle of a list.
pub distinct_middle :
    (xs ys : List Text) (x : Text)
    → distinct (xs ++ x ∷ ys) ≡ (distinct (xs ++ ys) && not (elem x (xs ++ ys)))
unfolding distinct elem
distinct_middle [] ys x = ground arith
distinct_middle (z ∷ xs) ys x = ground (
  arith,
  distinct_middle xs ys x,
  elem-append z xs (x ∷ ys),
  elem-append z xs ys,
  same_iff x z,
  same_iff z x,
)
