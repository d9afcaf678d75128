-- ===== src/Queries/SortedSet.antt =====
-- `sorted({...})` of queries.py: ascending, and with the members of the set.
use agents_universe.Prelude.{
  ℕ, zero, suc, ◌≡◌, refl, Bool, true, false, ◌&&◌, ◌||◌, List, [], ◌∷◌, take, arith,
}
use agents_universe.Prelude.Text.{Text, text_lt}
use agents_universe.Prelude.TextSet.{same, same_iff, elem}
use agents_universe.Queries.{put_sorted, sorted_set}

-- The first of `xs`, where there is one, comes after `x`.
unfoldable pub below : Text → List Text → Bool
unfolding text_lt
below x [] = true
below x (y ∷ ys) = text_lt x y

unfoldable pub ascending : List Text → Bool
unfolding below
ascending [] = true
ascending (x ∷ xs) = below x xs && ascending xs

text_lt_total : (s t : Text) → same s t ≡ false → text_lt s t ≡ false → text_lt t s ≡ true
unfolding text_lt same
text_lt_total [] [] n l = cc
text_lt_total [] (d ∷ t) n l = cc
text_lt_total (c ∷ s) [] n l = refl
text_lt_total (c ∷ s) (d ∷ t) n l =
    ground (arith, same_iff s t, same_iff (c ∷ s) (d ∷ t), text_lt_total s t)

below-put_sorted :
    (x t : Text) (us : List Text)
    → text_lt x t ≡ true
    → below x us ≡ true
    → below x (put_sorted t us) ≡ true
unfolding below put_sorted
below-put_sorted x t [] l b = l
below-put_sorted x t (u ∷ us) l b = ground arith

put_sorted_ascends :
    (t : Text) (us : List Text) → ascending us ≡ true → ascending (put_sorted t us) ≡ true
unfolding ascending put_sorted
put_sorted_ascends t [] a = refl
put_sorted_ascends t (u ∷ us) a =
    ground (arith, text_lt_total t u, below-put_sorted u t us, put_sorted_ascends t us)

pub sorted_set_ascends : (ts : List Text) → ascending (sorted_set ts) ≡ true
unfolding ascending sorted_set
sorted_set_ascends [] = refl
sorted_set_ascends (t ∷ ts) = put_sorted_ascends t (sorted_set ts) (sorted_set_ascends ts)

elem-put_sorted : (x t : Text) (us : List Text) → elem x (put_sorted t us) ≡ (same x t || elem x us)
unfolding elem put_sorted
elem-put_sorted x t [] = ground (arith, same_iff x t, same_iff t x)
elem-put_sorted x t (u ∷ us) =
    ground (arith, same_iff x t, same_iff t x, same_iff t u, same_iff u x, elem-put_sorted x t us)

pub elem-sorted_set : (x : Text) (ts : List Text) → elem x (sorted_set ts) ≡ elem x ts
unfolding elem sorted_set
elem-sorted_set x [] = refl
elem-sorted_set x (t ∷ ts) =
    ground
      (arith, same_iff x t, same_iff t x, elem-put_sorted x t (sorted_set ts), elem-sorted_set x ts)

below-take : (x : Text) (n : ℕ) (xs : List Text) → below x xs ≡ true → below x (take n xs) ≡ true
unfolding below
below-take x zero xs b = refl
below-take x (suc n) [] b = refl
below-take x (suc n) (y ∷ xs) b = b

pub ascending-take : (n : ℕ) (xs : List Text) → ascending xs ≡ true → ascending (take n xs) ≡ true
unfolding ascending
ascending-take zero xs a = refl
ascending-take (suc n) [] a = refl
ascending-take (suc n) (x ∷ xs) a = ground (arith, below-take x n xs, ascending-take n xs)
