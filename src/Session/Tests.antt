-- ===== src/Session/Tests.antt =====
-- The theorems about sessions at concrete sequences of actions.
use agents_universe.Prelude.{
  ℕ, ◌≤◌, ◌≡◌, refl, String, none, some, List, [], ◌∷◌, ◌++◌, false, length,
}
use agents_universe.Session.{
  Session, SessionEvent, UserInputEntry, Signature, answered, timed_out, pending, new_session,
}
use agents_universe.Session.Ledger.{same_signature, note_user_present}
use agents_universe.Session.Stream.{drain, close, queued, emit, event_maxsize}
use agents_universe.Session.Stream.Closing.{let_through}
use agents_universe.Session.Inputs.{enqueue_user_input, dequeue_user_input, dequeue_from}
use agents_universe.Session.Actions.{
  Action, recorded, user_present, emitted, closing, aborting, enqueued, dequeued, act, run,
}
use agents_universe.Session.Actions.Answers.{
  answer, answer_of, last_answer, given, latest, answer-run,
}
use agents_universe.Session.Actions.Queues.{drain-close-run}
use agents_universe.Session.Actions.Inbox.{all_taken, all_handed, taken_in, inputs-run}
use agents_universe.Session.Actions.Aborts.{first_of, cause_of, latest_cause, abort_reason-run}

abbrev entry : ℕ → UserInputEntry
entry ref = record {
  message_id = "m";
  content = "hello";
  attachment_records = none;
  persisted = pending;
}

abbrev fresh : Session
fresh = new_session 128_000 0 entry

abbrev question : Signature
question = ("db", "Which database?")

abbrev asked_twice : List Action
asked_twice =
    recorded (some question) answered (some "main")
    ∷ recorded (some question) timed_out none
    ∷ user_present
    ∷ []

answer-run_example : answer ((run fresh asked_twice).prompt_outcomes question) ≡ some (some "main")
unfolding last_answer given latest answer answer_of same_signature
answer-run_example = answer-run fresh asked_twice question

abbrev event : String → SessionEvent
event type = record { type = type; payload = "" }

abbrev talk : List Action
talk = emitted (event "stream_delta") ∷ emitted (event "stream_end") ∷ []

talk_stays_open : (run fresh talk).closed ≡ false
unfolding run act emit
talk_stays_open = refl

drain-close-run_example :
    let s = run fresh talk in
    (drain (close s).event_queue ≡ some (let_through s))
    × (length (close s).event_queue ≤ event_maxsize)
drain-close-run_example = drain-close-run 128_000 0 entry talk talk_stays_open

talk_received : let_through (run fresh talk) ≡ event "stream_delta" ∷ event "stream_end" ∷ []
unfolding let_through run act emit queued
talk_received = refl

abbrev three_messages : List Action
three_messages = enqueued 0 ∷ enqueued 1 ∷ dequeued ∷ enqueued 2 ∷ []

inputs-run_example :
    all_handed fresh three_messages ++ (run fresh three_messages).user_input_queue ≡ 0 ∷ 1 ∷ 2 ∷ []
unfolding all_taken taken_in act enqueue_user_input dequeue_user_input dequeue_from
    note_user_present
inputs-run_example = inputs-run fresh three_messages

abbrev two_aborts : List Action
two_aborts = closing ∷ aborting "stop" ∷ aborting "crash" ∷ []

abort_reason-run_example : (run fresh two_aborts).abort_reason ≡ some "stop"
unfolding first_of cause_of latest_cause
abort_reason-run_example = abort_reason-run fresh two_aborts
