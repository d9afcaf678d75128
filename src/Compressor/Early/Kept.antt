-- ===== src/Compressor/Early/Kept.antt =====
-- The lines that the cap on the summary's input keeps.
use mathlib.Core.List.{reverse, reverse-cons, reverse-reverse, append_assoc, append-nil}
use mathlib.Core.Path.{subst}
use agents_universe.Prelude.{
  ℕ, ◌+◌, ◌≤◌, ◌<◌, ◌≡◌, refl, ap, ◌∙◌, ◌⊎◌, inl, inr, List, [], ◌∷◌, ◌++◌, arith, ltb, length,
  Bool-cases,
}
use agents_universe.Prelude.Text.{Text}
use agents_universe.Compressor.Early.{chars, keep_recent, kept_lines}

-- `kept` is an end of `lines` that fits the cap, or one line; and one line more would not fit.
pub record IsKept (cap : ℕ) (lines kept : List Text) : Type 0 where
  pub dropped : List Text
  pub split : lines ≡ dropped ++ kept
  pub fits : (chars kept ≤ cap) ⊎ (length kept ≤ 1)
  pub tight :
      (dropped ≡ [])
      ⊎ ((ds : List Text) × (d : Text) × (dropped ≡ ds ++ d ∷ [])
          × (cap < length d + 1 + chars kept))
  pub nonempty : (kept ≡ []) → lines ≡ []

move_line :
    (line : Text) (rest kept : List Text)
    → reverse (line ∷ rest) ++ kept ≡ reverse rest ++ line ∷ kept
move_line line rest kept =
    ap (λ (x : List Text). x ++ kept) (reverse-cons line rest)
    ∙ append_assoc (reverse rest) (line ∷ []) kept

keep_recent-IsKept :
    (cap : ℕ) (rest : List Text) (size : ℕ) (kept : List Text)
    → size ≡ chars kept
    → (chars kept ≤ cap) ⊎ (length kept ≤ 1)
    → IsKept cap (reverse rest ++ kept) (keep_recent cap rest size kept)
unfolding keep_recent
keep_recent-IsKept cap [] size kept s f = record {
  dropped = [];
  split = refl;
  fits = f;
  tight = inl refl;
  nonempty = λ e. e;
}
keep_recent-IsKept cap (line ∷ rest) size [] s f = rw (move_line line rest []) (
    keep_recent-IsKept cap rest (size + length line + 1) (line ∷ []) (omega arith)
      (inr (omega arith)))
keep_recent-IsKept cap (line ∷ rest) size (k ∷ kept) s f =
    elim (Bool-cases (ltb cap (size + length line + 1))) [
      | inl full ↦ rw full (record {
        dropped = reverse (line ∷ rest);
        split = refl;
        fits = f;
        tight = inr (reverse rest, line, reverse-cons line rest, ground arith);
        nonempty = λ e. cc;
      })
      | inr room ↦
          rw (room, move_line line rest (k ∷ kept))
            (keep_recent-IsKept cap rest (size + length line + 1) (line ∷ k ∷ kept) (omega arith)
              (inl (ground arith)))
    ]

-- The kept lines are the most recent ones: they fit the cap or are a single line, there are none
-- only if there were none, and one line more would pass the cap.
kept_lines-IsKept : (cap : ℕ) (lines : List Text) → IsKept cap lines (kept_lines cap lines)
unfolding kept_lines
kept_lines-IsKept cap lines =
    subst (λ (x : List Text). IsKept cap x (keep_recent cap (reverse lines) 0 []))
      (append-nil (reverse (reverse lines)) ∙ reverse-reverse lines)
      (keep_recent-IsKept cap (reverse lines) 0 [] refl (inr (omega arith)))
