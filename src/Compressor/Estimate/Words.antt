-- ===== src/Compressor/Estimate/Words.antt =====
-- One wide character hides the length of an unbroken ASCII text from `_estimate_tokens`.
use mathlib.Core.List.{reverse, reverse-cons}
use agents_universe.Prelude.{
  ℕ, ◌/◌, ◌≤◌, ◌<◌, ◌≡◌, refl, true, false, not, [], ◌∷◌, ◌++◌, arith, length, keep, keep-yes,
  keep-no, All, ap, ◌∙◌,
}
use agents_universe.Prelude.Text.{Text, is_space, isascii, split, words_from, add_word}
use agents_universe.Compressor.Estimate.{is_cjk, not_cjk, estimate_tokens}

-- Characters of one unbroken ASCII word.
abbrev pub IsWord : Text → Type 0
IsWord = All (λ c. (c < 128) × (is_space c ≡ false) × (is_cjk c ≡ false))

isascii-word : (t : Text) → IsWord t → isascii t ≡ true
unfolding isascii
isascii-word [] w = refl
isascii-word (c ∷ t) w = ground (arith, isascii-word t w.1)

isascii-wide : (t : Text) (c : ℕ) → 127 < c → isascii (t ++ c ∷ []) ≡ false
unfolding isascii
isascii-wide [] c h = ground arith
isascii-wide (d ∷ t) c h = ground (arith, isascii-wide t c h)

keep-cjk-word : (t : Text) (c : ℕ) → IsWord t → is_cjk c ≡ true → keep is_cjk (t ++ c ∷ []) ≡ c ∷ []
keep-cjk-word [] c w h = keep-yes is_cjk c [] h
keep-cjk-word (d ∷ t) c w h = keep-no is_cjk d _ w.0.2 ∙ keep-cjk-word t c w.1 h

not_cjk_lem : (c : ℕ) → not_cjk c ≡ not (is_cjk c)
unfolding not_cjk
not_cjk_lem c = refl

keep-not_cjk-word : (t : Text) (c : ℕ) → IsWord t → is_cjk c ≡ true → keep not_cjk (t ++ c ∷ []) ≡ t
keep-not_cjk-word [] c w h = keep-no not_cjk c [] (not_cjk_lem c ∙ ap not h)
keep-not_cjk-word (d ∷ t) c w h =
    keep-yes not_cjk d (t ++ c ∷ []) (not_cjk_lem d ∙ ap not w.0.2)
    ∙ ap (◌∷◌ d) (keep-not_cjk-word t c w.1 h)

add_word_snoc : (t : Text) (c : ℕ) → length (add_word (t ++ c ∷ []) []) ≡ 1
add_word_snoc [] c = refl
add_word_snoc (d ∷ t) c = refl

-- A word that has begun is one word.
words_from-word : (t word : Text) (c : ℕ) → IsWord t → length (words_from (c ∷ word) t) ≡ 1
unfolding words_from
words_from-word [] word c w = rw (reverse-cons c word) (add_word_snoc (reverse word) c)
words_from-word (d ∷ t) word c w = rw w.0.1 (words_from-word t (c ∷ word) d w.1)

split-word : (c : ℕ) (t : Text) → IsWord (c ∷ t) → length (split (c ∷ t)) ≡ 1
unfolding split
split-word c t w = rw w.0.1 (words_from-word t [] c w.1)

-- The estimate of an unbroken ASCII word is at least a quarter of its length; with one character
-- of the CJK class behind it, the estimate is 1, however long the word is.
pub estimate_word_cjk :
    (a c : ℕ) (t : Text)
    → IsWord (a ∷ t)
    → 127 < c
    → is_cjk c ≡ true
    → (length (a ∷ t) / 4 ≤ estimate_tokens (a ∷ t)) × (estimate_tokens ((a ∷ t) ++ c ∷ []) ≡ 1)
unfolding estimate_tokens
estimate_word_cjk a c t w h wide = (
  rw (isascii-word (a ∷ t) w) (omega arith),
  rw
      (
        isascii-wide (a ∷ t) c h,
        keep-cjk-word (a ∷ t) c w wide,
        keep-not_cjk-word (a ∷ t) c w wide,
        split-word a t w,
      )
      refl,
)

pub estimate-nil : estimate_tokens [] ≡ 0
unfolding estimate_tokens isascii split
estimate-nil = refl
