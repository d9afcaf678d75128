-- ===== src/Compressor/History/Outcome.antt =====
-- What `compress_history` may return.
use agents_universe.Prelude.{
  ℕ, ◌-◌, take, drop, ◌≤◌, ◌<◌, ◌≡◌, refl, ◌≢◌, ◌⊎◌, inl, inr, Bool, true, false, ◌&&◌, not, Option,
  none, some, List, [], ◌∷◌, ◌++◌, arith, leb, length, Bool-cases, leb→le, Option-cases, List-cases,
}
use agents_universe.Prelude.Int.{ℤ}
use agents_universe.Prelude.Text.{Text, strip}
use agents_universe.Compressor.Message.{Message}
use agents_universe.Compressor.Estimate.{estimate_history_tokens}
use agents_universe.Compressor.Truncate.{truncate_oversized_tool_messages}
use agents_universe.Compressor.Early.{split_early_recent, format_early_history, recent_turns_keep}
use agents_universe.Compressor.Early.Split.{IsSplit, split_lem}
use agents_universe.Compressor.History.{
  build_summary_pair, summary_request, summary_input_max_chars, summarized, with_summary, answered,
  under_threshold, compress_history,
}

-- The history may go on as it is.
abbrev pub is_small : (ℕ → ℕ) → List Message → ℤ → Bool → Bool
is_small escaped ms token_budget force =
    not force && under_threshold (estimate_history_tokens escaped ms) token_budget

-- There is nothing to summarize, or the provider raises, or its answer is blank.
abbrev pub NoSummary : (List Message → Option Text) → Text → Type 0
NoSummary complete text =
    (text ≡ [])
    ⊎ ((complete (summary_request text) ≡ none)
        ⊎ ((response : Text) × (complete (summary_request text) ≡ some response)
            × (strip response ≡ [])))

-- The early messages, all but the recent ones, were replaced by a summary that the provider wrote of
-- them.
pub record IsSummarized (complete : List Message → Option Text) (ms r : List Message) : Type 0 where
  pub early : List Message
  pub recent : List Message
  pub split : split_early_recent ms ≡ (early, recent)
  pub whole : early ++ recent ≡ ms
  pub few : length recent ≤ recent_turns_keep
  -- the recent ones are the last eight, but for those at their front that dangle
  pub parts :
      IsSplit
        (take (length ms - recent_turns_keep) ms)
        (drop (length ms - recent_turns_keep) ms)
        (early, recent)
  pub text : Text
  pub formatted : format_early_history early (some summary_input_max_chars) ≡ some text
  pub written : text ≢ []
  pub response : Text
  pub completed : complete (summary_request text) ≡ some response
  pub summary : strip response ≢ []
  pub made : r ≡ build_summary_pair (strip response) ++ recent

pub data IsCompressed (complete : List Message → Option Text) (escaped : ℕ → ℕ) (ms : List Message)
    (token_budget : ℤ) (force : Bool) (r : List Message) : Type 0 where
  kept :
      is_small escaped ms token_budget force ≡ true
      → r ≡ ms
      → IsCompressed complete escaped ms token_budget force r
  truncated :
      is_small escaped ms token_budget force ≡ false
      → length ms ≤ recent_turns_keep
      → r ≡ (truncate_oversized_tool_messages ms).0
      → IsCompressed complete escaped ms token_budget force r
  unsummarized :
      is_small escaped ms token_budget force ≡ false
      → recent_turns_keep < length ms
      → (text : Text)
      → format_early_history (split_early_recent ms).0 (some summary_input_max_chars) ≡ some text
      → NoSummary complete text
      → r ≡ ms
      → IsCompressed complete escaped ms token_budget force r
  replaced :
      is_small escaped ms token_budget force ≡ false
      → recent_turns_keep < length ms
      → IsSummarized complete ms r
      → IsCompressed complete escaped ms token_budget force r

module _ (complete : List Message → Option Text) where
  -- What becomes of a text to summarize.
  summarized-cases :
      (ms recent : List Message) (o : Option Text) (r : List Message)
      → summarized complete ms recent o ≡ some r
      → (text : Text) × (o ≡ some text)
        × ((NoSummary complete text × (r ≡ ms))
            ⊎ ((response : Text) × (complete (summary_request text) ≡ some response)
                × (text ≢ [])
                × (strip response ≢ [])
                × (r ≡ build_summary_pair (strip response) ++ recent)))
  unfolding summarized answered with_summary
  summarized-cases ms recent none r e = cc
  summarized-cases ms recent (some []) r e = ([], refl, inl (inl refl, ground arith))
  summarized-cases ms recent (some (c ∷ t)) r e = (
    c ∷ t,
    refl,
    elim (Option-cases (complete (summary_request (c ∷ t)))) [
      | inl failed ↦ inl (inr (inl failed), ground arith)
      | inr (response, done) ↦ elim (List-cases (strip response)) [
        | inl blank ↦ inl (inr (inr (response, done, blank)), ground arith)
        | inr (d, rest, full) ↦ inr (response, done, (λ b. cc), (λ b. ground arith), ground arith)
      ]
    ],
  )

  module _ (escaped : ℕ → ℕ) where
    -- Where no force is put and the estimate is within the threshold, the history comes back as it
    -- was. Otherwise, if it has at most eight messages, it comes back with its oversized tool
    -- results truncated. Of a longer one the early messages are replaced by a summary pair, made of
    -- the answer of the provider to a request with their text, in front of the recent ones, the
    -- last eight but for those at their front that dangle; it comes back as it was only where the
    -- early messages have no text, or the provider raises or answers with nothing but blanks.
    pub compress_history-cases :
        (ms : List Message) (token_budget : ℤ) (force : Bool) (r : List Message)
        → compress_history complete escaped ms token_budget force ≡ some r
        → IsCompressed complete escaped ms token_budget force r
    unfolding compress_history
    compress_history-cases ms token_budget force r e =
        elim (Bool-cases (is_small escaped ms token_budget force)) [
          | inl small ↦ kept small (ground arith)
          | inr over ↦ elim (Bool-cases (leb (length ms) recent_turns_keep)) [
            | inl short ↦ truncated over (leb→le _ _ short) (ground arith)
            | inr long ↦
                let (text, formatted, ends) =
                  summarized-cases ms (split_early_recent ms).1
                    (format_early_history (split_early_recent ms).0 (some summary_input_max_chars))
                    r (rw (over, long) at e) in
                elim ends [
                  | inl (no_summary, same) ↦
                      unsummarized over (ground arith) text formatted no_summary same
                  | inr (response, completed, written, summary, made) ↦
                      replaced over (ground arith) (record {
                        early = (split_early_recent ms).0;
                        recent = (split_early_recent ms).1;
                        split = refl;
                        whole = (split_lem ms).0;
                        few = (split_lem ms).1;
                        parts = (split_lem ms).2;
                        text = text;
                        formatted = formatted;
                        written = written;
                        response = response;
                        completed = completed;
                        summary = summary;
                        made = made;
                      })
                ]
          ]
        ]

    -- While the provider raises, or answers with nothing but blanks, no message is lost: the result
    -- is the history, or, if it has at most eight messages, the history truncated.
    compress_history_failed :
        (ms : List Message) (token_budget : ℤ) (force : Bool) (r : List Message)
        → ((p : List Message) (t : Text) → complete p ≡ some t → strip t ≡ [])
        → compress_history complete escaped ms token_budget force ≡ some r
        → (r ≡ ms) ⊎ (r ≡ (truncate_oversized_tool_messages ms).0)
    compress_history_failed ms token_budget force r blank e =
        elim (compress_history-cases ms token_budget force r e) [
          | kept small same ↦ inl same
          | truncated over short cut ↦ inr cut
          | unsummarized over long text formatted no_summary same ↦ inl same
          | replaced over long s ↦
              absurd (s.summary (blank (summary_request s.text) s.response s.completed))
        ]
