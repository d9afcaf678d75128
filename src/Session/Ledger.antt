-- ===== src/Session/Ledger.antt =====
-- The prompt ledger of session.py, and the pause after an unanswered prompt.
use agents_universe.Prelude.{String, Bool, true, false, ◌&&◌, Option, none, some, if◌then◌else◌}
use text.Mathlib.Text.{◌==◌}
use agents_universe.Session.{
  Session, Status, answered, timed_out, dismissed, PromptOutcome, Signature,
}

unfoldable pub same_signature : Signature → Signature → Bool
same_signature (field_key, question) (field_key', question') =
    field_key == field_key' && question == question'

unfoldable pub is_answered : Status → Bool
is_answered answered = true
is_answered timed_out = false
is_answered dismissed = false

-- An answered entry is kept against a failure.
unfoldable pub merged : Option PromptOutcome → PromptOutcome → PromptOutcome
merged none new = new
merged (some existing) new =
    if is_answered existing.status then (if is_answered new.status then new else existing) else new

unfoldable pub get_prompt_outcome : Session → Option Signature → Option PromptOutcome
get_prompt_outcome s none = none
get_prompt_outcome s (some signature) = s.prompt_outcomes signature

unfoldable pub record_prompt_outcome : Session → Option Signature → Status → Option String → Session
unfolding merged
record_prompt_outcome s none status value = s
record_prompt_outcome s (some signature) status value =
    let new = merged (s.prompt_outcomes signature) (record { status = status; value = value }) in
    record s {
      prompt_outcomes =
          λ other. if same_signature signature other then some new else s.prompt_outcomes other;
    }

unfoldable pub note_prompt_timeout : Session → Session
note_prompt_timeout s = record s { prompts_paused = true }

unfoldable pub if_answered : Option PromptOutcome → Option PromptOutcome
if_answered none = none
if_answered (some outcome) = if is_answered outcome.status then some outcome else none

-- The pause ends, and only the answers stay.
unfoldable pub note_user_present : Session → Session
unfolding if_answered
note_user_present s = record s {
  prompts_paused = false;
  prompt_outcomes = λ signature. if_answered (s.prompt_outcomes signature);
}
