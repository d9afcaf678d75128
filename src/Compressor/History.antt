-- ===== src/Compressor/History.antt =====
-- `build_summary_pair` and `compress_history` of compressor.py. The provider is
-- the argument `complete`: the text of its response, or `none` where the call raises.
pub mod Outcome
use agents_universe.Prelude.{
  ℕ, suc, ◌+◌, ◌-◌, ◌*◌, ◌/◌, Bool, true, false, ◌&&◌, ◌||◌, not, Option, none, some, List, [], ◌∷◌,
  ◌++◌, leb, if◌then◌else◌, length,
}
use agents_universe.Prelude.Int.{ℤ, pos, negsuc}
use agents_universe.Prelude.Text.{Text, codes, strip}
use agents_universe.Compressor.Message.{Role, system, user, assistant, plain, Message}
use agents_universe.Compressor.Estimate.{estimate_history_tokens}
use agents_universe.Compressor.Truncate.{truncate_oversized_tool_messages}
use agents_universe.Compressor.Early.{split_early_recent, format_early_history, recent_turns_keep}

-- total_tokens <= int(token_budget * COMPRESS_THRESHOLD_RATIO): `int` truncates towards zero.
unfoldable pub under_threshold : ℕ → ℤ → Bool
under_threshold tokens (pos n) = leb tokens (n * 6 / 10)
under_threshold tokens (negsuc n) = leb (tokens + suc n * 6 / 10) 0

abbrev pub summary_input_max_chars : ℕ
summary_input_max_chars = 60_000

abbrev summary_marker : Text
summary_marker = codes "[Earlier conversation summary"

summary_prompt : Text
summary_prompt =
    codes
      "Summarize the conversation so far concisely. Preserve:\n- Key facts and decisions made\n- Important tool call results (file paths, URLs, data found)\n- Unresolved questions or pending work\n- Context needed to continue the conversation\n\nBe factual and brief. Output only the summary, no preamble."

message : Role → Text → Message
message role content = record {
  role = role;
  content = plain content;
  tool_calls = [];
  tool_call_id = [];
  name = [];
}

pub build_summary_pair : Text → List Message
unfolding message
build_summary_pair summary =
    message user
      (summary_marker ++ (codes " - this is automated context, not a user message]\n\n" ++ summary))
    ∷ message assistant (codes "Understood, I have the earlier conversation context.")
    ∷ []

pub summary_request : Text → List Message
unfolding message summary_prompt
summary_request early_text =
    message system summary_prompt
    ∷ message user (codes "Conversation to summarize:\n\n" ++ early_text)
    ∷ []

-- An empty summary keeps the history.
with_summary : List Message → List Message → Text → List Message
with_summary ms recent [] = ms
with_summary ms recent (c ∷ t) = build_summary_pair (c ∷ t) ++ recent

answered : List Message → List Message → Option Text → List Message
unfolding with_summary
answered ms recent none = ms
answered ms recent (some response) = with_summary ms recent (strip response)

module _ (complete : List Message → Option Text) where
  summarized : List Message → List Message → Option Text → Option (List Message)
  unfolding answered
  summarized ms recent none = none
  summarized ms recent (some []) = some ms
  summarized ms recent (some (c ∷ t)) =
      some (answered ms recent (complete (summary_request (c ∷ t))))

  module _ (escaped : ℕ → ℕ) where
    -- `none`: formatting the early messages raises on a malformed tool call.
    unfoldable pub compress_history : List Message → ℤ → Bool → Option (List Message)
    unfolding summarized
    compress_history ms token_budget force =
        let (early, recent) = split_early_recent ms in
        if not force && under_threshold (estimate_history_tokens escaped ms) token_budget
        then some ms
        else if leb (length ms) recent_turns_keep
        then some (truncate_oversized_tool_messages ms).0
        else summarized ms recent (format_early_history early (some summary_input_max_chars))
