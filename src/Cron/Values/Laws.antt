-- ===== src/Cron/Values/Laws.antt =====
-- The laws of the sets of Cron.Values: membership, order and bounds.
use native.Mathlib.Nat.{mod-eq-sub-mod, mod-eq_of_lt}
use native.Mathlib.Decide.{dec_le, ℕ_discrete}
use agents_universe.Prelude.{
  sym, ap, ◌∙◌, ◌≢◌, ℕ, zero, suc, ◌+◌, ◌-◌, ◌%◌, ◌≤◌, ◌<◌, ◌≡◌, refl, ◌↔◌, inl, inr, true, false,
  ◌||◌, List, [], ◌∷◌, arith, leb, ◌==◌, if◌then◌else◌, All, Bool-cases, leb→le,
}
use agents_universe.Cron.Values.{elem, add, discard, update, range_from, range}

-- Strictly ascending from `lo`.
abbrev pub Above : ℕ → List ℕ → Type 0
Above lo [] = Unit
Above lo (x ∷ xs) = (lo ≤ x) × Above (suc x) xs

abbrev pub Below : ℕ → List ℕ → Type 0
Below hi = All (λ x. x ≤ hi)

pub Above-weaken : (lo lo' : ℕ) (xs : List ℕ) → lo' ≤ lo → Above lo xs → Above lo' xs
Above-weaken lo lo' [] h a = tt
Above-weaken lo lo' (x ∷ xs) h a = (omega arith, a.1)

pub elem-add : (v w : ℕ) (xs : List ℕ) → elem w (add v xs) ≡ (w == v || elem w xs)
unfolding elem add
elem-add v w [] = refl
elem-add v w (x ∷ xs) = ground (arith, elem-add v w xs)

pub Above-add : (v lo : ℕ) (xs : List ℕ) → lo ≤ v → Above lo xs → Above lo (add v xs)
unfolding add
Above-add v lo [] h a = (h, tt)
Above-add v lo (x ∷ xs) h a = ground (arith, Above-add v (suc x) xs)

pub Below-add : (v hi : ℕ) (xs : List ℕ) → v ≤ hi → Below hi xs → Below hi (add v xs)
unfolding add
Below-add v hi [] h b = (h, tt)
Below-add v hi (x ∷ xs) h b = ground (arith, Below-add v hi xs)

pub elem-Above : (v lo : ℕ) (xs : List ℕ) → Above lo xs → elem v xs ≡ true → lo ≤ v
unfolding elem
elem-Above v lo [] a e = cc
elem-Above v lo (x ∷ xs) a e = ground (arith, elem-Above v (suc x) xs)

pub elem-Below : (v hi : ℕ) (xs : List ℕ) → Below hi xs → elem v xs ≡ true → v ≤ hi
unfolding elem
elem-Below v hi [] b e = cc
elem-Below v hi (x ∷ xs) b e = ground (arith, elem-Below v hi xs)

pub elem-discard :
    (v w : ℕ) (xs : List ℕ) → elem w (discard v xs) ≡ (if w == v then false else elem w xs)
unfolding elem discard
elem-discard v w [] = ground arith
elem-discard v w (x ∷ xs) = ground (arith, elem-discard v w xs)

pub Above-discard : (v lo : ℕ) (xs : List ℕ) → Above lo xs → Above lo (discard v xs)
unfolding discard
Above-discard v lo [] a = tt
Above-discard v lo (x ∷ xs) a =
    ground (arith, Above-discard v (suc x) xs, Above-weaken (suc x) lo (discard v xs))

pub Below-discard : (v hi : ℕ) (xs : List ℕ) → Below hi xs → Below hi (discard v xs)
unfolding discard
Below-discard v hi [] b = tt
Below-discard v hi (x ∷ xs) b = ground (arith, Below-discard v hi xs)

-- Without its greatest value a set is bounded by the next one.
pub Below-tighten :
    (hi : ℕ) (xs : List ℕ) → Below (suc hi) xs → elem (suc hi) xs ≡ false → Below hi xs
unfolding elem
Below-tighten hi [] b e = tt
Below-tighten hi (x ∷ xs) b e = ground (arith, Below-tighten hi xs)

pub elem-update : (w : ℕ) (xs vs : List ℕ) → elem w (update xs vs) ≡ (elem w vs || elem w xs)
unfolding update elem
elem-update w xs [] = refl
elem-update w xs (v ∷ vs) = ground (arith, elem-update w (add v xs) vs, elem-add v w xs)

pub Above-update :
    (lo : ℕ) (xs vs : List ℕ) → All (λ v. lo ≤ v) vs → Above lo xs → Above lo (update xs vs)
unfolding update
Above-update lo xs [] h a = a
Above-update lo xs (v ∷ vs) h a = Above-update lo (add v xs) vs h.1 (Above-add v lo xs h.0 a)

pub Below-update : (hi : ℕ) (xs vs : List ℕ) → Below hi vs → Below hi xs → Below hi (update xs vs)
unfolding update
Below-update hi xs [] h b = b
Below-update hi xs (v ∷ vs) h b = Below-update hi (add v xs) vs h.1 (Below-add v hi xs h.0 b)

-- The numbers of `range(start, last + 1, step)`.
abbrev pub InRange : ℕ → ℕ → ℕ → ℕ → Type 0
InRange start last step v = (start ≤ v) × (v ≤ last) × ((v - start) % step ≡ 0)

InRange-step :
    (x last step v : ℕ) → 0 < step → v ≢ x → InRange x last step v ↔ InRange (x + step) last step v
InRange-step x last step v p ne = (forth, back)
  where
    shift : x + step ≤ v → (v - x) % step ≡ (v - (x + step)) % step
    shift h =
        mod-eq-sub-mod {n = v - x} {m = step} (omega arith) ∙ ap (λ (d : ℕ). d % step) (omega arith)

    forth : InRange x last step v → InRange (x + step) last step v
    forth (lo, hi, m) = elim (dec_le (x + step) v) [
      | yes h ↦ (h, hi, sym (shift h) ∙ m)
      | no h ↦ absurd (omega (arith, mod-eq_of_lt {n = v - x} {m = step} (omega arith)))
    ]

    back : InRange (x + step) last step v → InRange x last step v
    back (lo, hi, m) = (omega arith, hi, shift lo ∙ m)

range_from-elem :
    (n x last step v : ℕ)
    → 0 < step
    → last < x + n
    → (elem v (range_from n x last step) ≡ true) ↔ InRange x last step v
unfolding elem range_from
range_from-elem zero x last step v p f = (λ h. cc, λ h. absurd (omega arith))
range_from-elem (suc n) x last step v p f = elim (ℕ_discrete v x) [
  | yes e ↦ rw e (ground arith)
  | no ne ↦ ground (
    arith,
    InRange-step x last step v p ne,
    range_from-elem n (x + step) last step v p (omega arith),
  )
]

-- `range(start, last + 1, step)` holds the numbers of the progression, and no other.
pub elem-range :
    (start last step v : ℕ)
    → 0 < step
    → (elem v (range start last step) ≡ true) ↔ InRange start last step v
unfolding range
elem-range start last step v p =
    range_from-elem (suc last - start) start last step v p (omega arith)

range_from-All :
    (n lo x last step : ℕ) → lo ≤ x → All (λ v. (lo ≤ v) × (v ≤ last)) (range_from n x last step)
unfolding range_from
range_from-All zero lo x last step h = tt
range_from-All (suc n) lo x last step h = elim (Bool-cases (leb x last)) [
  | inl e ↦ rw e ((h, leb→le x last e), range_from-All n lo (x + step) last step (omega arith))
  | inr e ↦ rw e tt
]

All-both {ℓ κ μ} :
    {A : Type ℓ} (P : A → Type κ) (Q : A → Type μ) (xs : List A)
    → All (λ x. P x × Q x) xs
    → All P xs × All Q xs
All-both P Q [] h = (tt, tt)
All-both P Q (x ∷ xs) h = let (ps, qs) = All-both P Q xs h.1 in ((h.0.0, ps), (h.0.1, qs))

pub range-All :
    (start last step : ℕ)
    → All (λ v. start ≤ v) (range start last step) × All (λ v. v ≤ last) (range start last step)
unfolding range
range-All start last step =
    All-both _ _ (range start last step)
      (range_from-All (suc last - start) start start last step (omega arith))
