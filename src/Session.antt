-- ===== src/Session.antt =====
-- packages/agent-core/src/agent_core/session.py: the state of a `ConversationSession`, and the
-- operations on its counters and flags. The children have the prompt ledger, the event stream, the
-- injected inputs, and the session as the sequence of what happens to it.
pub mod Ledger
pub mod Stream
pub mod Inputs
pub mod Actions
mod Tests
use agents_universe.Prelude.{
  ℕ, suc, ◌+◌, Bool, true, false, not, String, Option, none, some, List, [], ltb, if◌then◌else◌,
}
use agents_universe.Prelude.Int.{ℤ, pos, negsuc}
use agents_universe.Prelude.Dict.{Dict}

-- `SessionEvent`; the payload is only carried.
pub record SessionEvent : Type 0 where
  pub type : String
  pub payload : String

-- How a prompt ended.
pub data Status : Type 0 where
  answered timed_out dismissed : Status

pub record PromptOutcome : Type 0 where
  pub status : Status
  pub value : Option String

-- (field key, question)
abbrev pub Signature : Type 0
Signature = String × String

-- The `persisted` future of an entry.
pub data Persisted : Type 0 where
  absent pending : Persisted
  resolved : Bool → Persisted

-- `UserInputEntry`, an object that the agent and the handler share: a reference is its place.
pub record UserInputEntry : Type 0 where
  pub message_id : String
  pub content : String
  pub attachment_records : Option (List String)
  pub persisted : Persisted

pub record Session : Type 0 where
  pub token_budget : ℕ
  pub tokens_used : ℕ
  -- `_event_queue`; the sentinel is `none`
  pub event_queue : List (Option SessionEvent)
  -- the calls of `emit` that wait in `put`, the first to be woken in front
  pub putters : List SessionEvent
  pub closed : Bool
  pub abort_event : Bool
  pub abort_reason : Option String
  pub prompt_outcomes : Signature → Option PromptOutcome
  pub prompts_paused : Bool
  pub user_input_queue : List ℕ
  pub pending_input_by_id : Dict ℕ
  -- the entry objects
  pub entries : ℕ → UserInputEntry

-- `__init__`, with the objects that exist.
abbrev pub new_session : ℕ → ℕ → (ℕ → UserInputEntry) → Session
new_session token_budget tokens_used entries = record {
  token_budget = token_budget;
  tokens_used = tokens_used;
  event_queue = [];
  putters = [];
  closed = false;
  abort_event = false;
  abort_reason = none;
  prompt_outcomes = λ signature. none;
  prompts_paused = false;
  user_input_queue = [];
  pending_input_by_id = [];
  entries = entries;
}

unfoldable pub budget_exceeded : Session → Bool
budget_exceeded s = ltb s.token_budget s.tokens_used

-- `if count > 0`
unfoldable pub charge : ℤ → ℕ → ℕ
charge (pos n) used = used + n
charge (negsuc n) used = used

unfoldable pub add_tokens : Session → ℤ → Session × Bool
unfolding charge
add_tokens s count =
    let s' = record s { tokens_used = charge count s.tokens_used } in (s', not (budget_exceeded s'))

-- The first cause stays.
unfoldable pub first_cause : Option String → String → String
first_cause none reason = reason
first_cause (some cause) reason = cause

unfoldable pub abort : Session → String → Session
unfolding first_cause
abort s reason = record s {
  abort_event = true;
  abort_reason = some (first_cause s.abort_reason reason);
}
