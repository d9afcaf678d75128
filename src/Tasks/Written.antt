-- ===== src/Tasks/Written.antt =====
-- A dependency list that the model wrote as one text.
use agents_universe.Prelude.{
  ◌≡◌, refl, Bool, false, List, [], ◌∷◌, ◌++◌, map, arith, keep, ℕ, ==_iff,
}
use agents_universe.Prelude.Text.{Text, codes, strip, split_on, has_char}
use agents_universe.Prelude.TextSet.{elem}
use agents_universe.Tasks.{translate, translate_all, written, has_text, valid}

split_on_none : (c : ℕ) (t : Text) → has_char c t ≡ false → split_on c t ≡ t ∷ []
unfolding split_on
split_on_none c [] h = refl
split_on_none c (d ∷ t) h = ground (arith, split_on_none c t)

split_on-append :
    (c : ℕ) (s t : Text) → has_char c s ≡ false → split_on c (s ++ c ∷ t) ≡ s ∷ split_on c t
unfolding split_on
split_on-append c [] t h = ground (arith, ==_iff c c)
split_on-append c (d ∷ s) t h = ground (arith, split_on-append c s t)

translate_other : (os ids : List Text) (x : Text) → elem x os ≡ false → translate os ids x ≡ x
unfolding translate elem
translate_other [] ids x h = refl
translate_other (o ∷ os) [] x h = refl
translate_other (o ∷ os) (i ∷ ids) x h = ground (arith, translate_other os ids x)

valid_dropped :
    (ids : List Text) (p : Text → Bool) (f : Text → Text) (a x : Text)
    → elem (f x) ids ≡ false
    → valid ids (map f (keep p (a ∷ x ∷ []))) ≡ valid ids (map f (keep p (a ∷ [])))
unfolding valid
valid_dropped ids p f a x h = ground arith

blank_char : (b : Text) → has_char b',' b ≡ false → has_char b',' (b' ' ∷ b) ≡ false
blank_char b h = ground arith

-- Of a list written as `a, b` the second task is lost: the blank behind the comma stays with its
-- id, which then is none of the plan's, and the graph drops it.
written_loses :
    (os ids : List Text) (a b : Text)
    → has_char b',' a ≡ false
    → has_char b',' b ≡ false
    → elem (b' ' ∷ b) os ≡ false
    → elem (b' ' ∷ b) ids ≡ false
    → valid ids (translate_all os ids (written (a ++ (codes ", " ++ b))))
      ≡ valid ids (translate_all os ids (written a))
unfolding translate_all
written_loses os ids a b ca cb unknown fresh =
    let rest = b' ' ∷ b in
    rw
      (
        split_on-append b',' a rest ca,
        split_on_none b',' a ca,
        split_on_none b',' rest (blank_char b cb),
      )
      (valid_dropped ids (λ d. has_text (strip d)) (translate os ids) a rest
        (rw (translate_other os ids rest unknown) fresh))
