-- ===== src/Session/Actions.antt =====
-- A session as the sequence of what happens to it.
pub mod Answers
pub mod Aborts
pub mod Queues
pub mod Inbox
pub mod Verdicts
use agents_universe.Prelude.{ℕ, Bool, String, Option, none, some, List, [], ◌∷◌}
use agents_universe.Prelude.Int.{ℤ}
use agents_universe.Session.{Session, SessionEvent, Status, Signature, add_tokens, abort}
use agents_universe.Session.Ledger.{record_prompt_outcome, note_prompt_timeout, note_user_present}
use agents_universe.Session.Stream.{emit, wake, expire, next_event, close}
use agents_universe.Session.Inputs.{enqueue_user_input, dequeue_user_input, resolve_input_persisted}

-- One constructor for each call, and for each way a waiting `put` goes on.
pub data Action : Type 0 where
  recorded : Option Signature → Status → Option String → Action
  prompt_timeout user_present : Action
  emitted : SessionEvent → Action
  woken expired consumed closing : Action
  aborting : String → Action
  enqueued : ℕ → Action
  dequeued : Action
  persisted : String → Bool → Option (List String) → Action
  tokens : ℤ → Action

unfoldable pub act : Session → Action → Session
act s (recorded signature status value) = record_prompt_outcome s signature status value
act s prompt_timeout = note_prompt_timeout s
act s user_present = note_user_present s
act s (emitted event) = emit s event
act s woken = wake s
act s expired = expire s
act s consumed = next_event s
act s closing = close s
act s (aborting reason) = abort s reason
act s (enqueued ref) = (enqueue_user_input s ref).0
act s dequeued = (dequeue_user_input s).0
act s (persisted message_id ok records) = resolve_input_persisted s message_id ok records
act s (tokens count) = (add_tokens s count).0

unfoldable pub run : Session → List Action → Session
run s [] = s
run s (a ∷ actions) = run (act s a) actions
