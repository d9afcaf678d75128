-- ===== src/Compressor/Truncate/Search.antt =====
-- The binary search for the cut of an oversized tool message. It needs no monotone estimate.
use agents_universe.Prelude.{
  ℕ, zero, suc, ◌+◌, ◌-◌, ◌/◌, ◌≤◌, ◌<◌, ◌≡◌, refl, ap, false, ◌⊎◌, inl, inr, arith, ltb, leb,
  length, take, take_all, Bool-cases,
}
use agents_universe.Prelude.Text.{Text}
use agents_universe.Compressor.Estimate.{estimate_tokens}
use agents_universe.Compressor.Estimate.Words.{estimate-nil}
use agents_universe.Compressor.Truncate.{search, cutoff, tool_budget}

-- The cut: the prefix fits the budget, and the prefix that is one character longer does not.
pub record IsCut (content : Text) (n : ℕ) : Type 0 where
  pub inside : n < length content
  pub fits : estimate_tokens (take n content) ≤ tool_budget
  pub tight : tool_budget < estimate_tokens (take (n + 1) content)

search-IsCut :
    (fuel : ℕ) (content : Text) (lo hi : ℕ)
    → lo ≤ hi
    → hi - lo < fuel
    → hi ≤ length content
    → tool_budget < estimate_tokens content
    → estimate_tokens (take lo content) ≤ tool_budget
    → (hi ≡ length content) ⊎ (tool_budget < estimate_tokens (take (hi + 1) content))
    → IsCut content (search fuel content lo hi)
unfolding search
search-IsCut zero content lo hi o f b big fits tight = absurd (omega arith)
search-IsCut (suc fuel) content lo hi o f b big fits tight = elim (Bool-cases (ltb lo hi)) [
  | inl more ↦
      elim (Bool-cases (leb (estimate_tokens (take ((lo + hi + 1) / 2) content)) tool_budget)) [
        | inl small ↦
            rw (more, small)
              (search-IsCut fuel content ((lo + hi + 1) / 2) hi (ground arith) (ground arith) b big
                (ground arith) tight)
        | inr large ↦
            rw (more, large)
              (search-IsCut fuel content lo ((lo + hi + 1) / 2 - 1) (ground arith) (ground arith)
                (ground arith) big fits (inr (above (ground arith) large)))
      ]
  | inr done ↦ let met : lo ≡ hi = ground arith in rw done (stop met)
]
  where
    mid : ℕ
    mid = (lo + hi + 1) / 2

    above :
        mid ≡ suc (mid - 1)
        → leb (estimate_tokens (take mid content)) tool_budget ≡ false
        → tool_budget < estimate_tokens (take (mid - 1 + 1) content)
    above pos h = let same : mid - 1 + 1 ≡ mid = omega arith in rw same (ground arith)

    not_whole : ¬ (lo ≡ length content)
    not_whole e = omega (arith, ap estimate_tokens (take_all lo content (omega arith)))

    stop : lo ≡ hi → IsCut content lo
    stop met = record {
      inside = ground (arith, not_whole);
      fits = fits;
      tight = elim tight [ inl whole ↦ absurd (not_whole (omega arith)) | inr t ↦ rw met t ];
    }

-- A text over the budget is cut strictly inside, at a prefix that fits the budget while the prefix
-- with one character more does not.
pub cutoff-IsCut :
    (content : Text) → tool_budget < estimate_tokens content → IsCut content (cutoff content)
unfolding cutoff
cutoff-IsCut content big =
    search-IsCut (suc (length content)) content 0 (length content) (omega arith) (omega arith)
      (omega arith) big (omega (arith, estimate-nil)) (inl refl)
