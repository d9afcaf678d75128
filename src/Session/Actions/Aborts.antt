-- ===== src/Session/Actions/Aborts.antt =====
-- The abort of a session: its cause, and why it stays.
use agents_universe.Prelude.{
  Bool, ℕ, String, ◌≡◌, refl, sym, ap, ◌∙◌, Option, none, some, List, [], ◌∷◌, arith,
}
use agents_universe.Prelude.Dict.{get}
use agents_universe.Session.{
  Session, SessionEvent, Status, Signature, abort, first_cause, add_tokens,
}
use agents_universe.Session.Ledger.{record_prompt_outcome, note_prompt_timeout, note_user_present}
use agents_universe.Session.Stream.{emit, wake, admit, expire, expire_first, next_event, close}
use agents_universe.Session.Inputs.{
  enqueue_user_input, dequeue_user_input, dequeue_from, resolve_input_persisted, settle,
}
use agents_universe.Session.Actions.{
  Action, recorded, prompt_timeout, user_present, emitted, woken, expired, consumed, closing,
  aborting, enqueued, dequeued, persisted, tokens, act, run,
}

unfoldable pub latest_cause : Option String → Option String → Option String
latest_cause none new = new
latest_cause (some cause) new = some cause

-- The cause of the abort that an action makes, if it makes one.
unfoldable pub cause_of : Session → Action → Option String
cause_of s (aborting reason) = some reason
cause_of s expired = elim s.putters [ [] ↦ none | e ∷ rest ↦ some "event_queue_blocked" ]
cause_of s a = none

-- The causes in the order in which they come.
unfoldable pub first_of : Session → List Action → Option String
first_of s [] = none
first_of s (a ∷ actions) = latest_cause (cause_of s a) (first_of (act s a) actions)

record-cause :
    (s : Session) (question : Option Signature) (status : Status) (value : Option String)
    → (record_prompt_outcome s question status value).abort_reason ≡ s.abort_reason
unfolding record_prompt_outcome
record-cause s none status value = refl
record-cause s (some question) status value = refl

cause_nil : (o : Option String) → latest_cause o none ≡ o
unfolding latest_cause
cause_nil none = refl
cause_nil (some c) = refl

abort-cause :
    (o : Option String) (reason : String)
    → some (first_cause o reason) ≡ latest_cause o (some reason)
unfolding first_cause latest_cause
abort-cause none reason = refl
abort-cause (some c) reason = refl

expire-cause :
    (s : Session) (waiting : List SessionEvent)
    → (expire_first s waiting).abort_reason
      ≡ latest_cause s.abort_reason
          (elim waiting [ [] ↦ none | e ∷ rest ↦ some "event_queue_blocked" ])
unfolding expire_first abort
expire-cause s [] = sym (cause_nil s.abort_reason)
expire-cause s (e ∷ rest) = abort-cause s.abort_reason "event_queue_blocked"

admit-cause :
    (s : Session) (waiting : List SessionEvent) → (admit s waiting).abort_reason ≡ s.abort_reason
unfolding admit
admit-cause s [] = refl
admit-cause s (e ∷ rest) = ground arith

dequeue-cause :
    (s : Session) (queue : List ℕ) → (dequeue_from s queue).0.abort_reason ≡ s.abort_reason
unfolding dequeue_from
dequeue-cause s [] = refl
dequeue-cause s (ref ∷ rest) = refl

settle-cause :
    (s : Session) (o : Option ℕ) (ok : Bool) (records : Option (List String))
    → (settle s o ok records).abort_reason ≡ s.abort_reason
unfolding settle
settle-cause s none ok records = refl
settle-cause s (some ref) ok records = refl

cause-act :
    (s : Session) (a : Action) → (act s a).abort_reason ≡ latest_cause s.abort_reason (cause_of s a)
unfolding act cause_of note_prompt_timeout note_user_present emit wake expire next_event close abort
    add_tokens enqueue_user_input dequeue_user_input resolve_input_persisted
cause-act s (recorded question status value) =
    record-cause s question status value ∙ sym (cause_nil s.abort_reason)
cause-act s prompt_timeout = sym (cause_nil s.abort_reason)
cause-act s user_present = sym (cause_nil s.abort_reason)
cause-act s (emitted e) = ground (arith, cause_nil s.abort_reason)
cause-act s woken = admit-cause s s.putters ∙ sym (cause_nil s.abort_reason)
cause-act s expired = expire-cause s s.putters
cause-act s consumed = sym (cause_nil s.abort_reason)
cause-act s closing = ground (arith, cause_nil s.abort_reason)
cause-act s (aborting reason) = abort-cause s.abort_reason reason
cause-act s (enqueued ref) = ground (arith, cause_nil s.abort_reason)
cause-act s dequeued = dequeue-cause s s.user_input_queue ∙ sym (cause_nil s.abort_reason)
cause-act s (persisted message_id ok records) =
    settle-cause _ (get s.pending_input_by_id message_id) ok records
    ∙ sym (cause_nil s.abort_reason)
cause-act s (tokens count) = sym (cause_nil s.abort_reason)

cause_assoc :
    (a b c : Option String) → latest_cause (latest_cause a b) c ≡ latest_cause a (latest_cause b c)
unfolding latest_cause
cause_assoc none b c = refl
cause_assoc (some a) b c = refl

-- The cause that a session records for its abort is the first one, of the calls of `abort` and of
-- the events that waited too long for a full queue.
pub abort_reason-run :
    (s : Session) (actions : List Action)
    → (run s actions).abort_reason ≡ latest_cause s.abort_reason (first_of s actions)
unfolding run first_of
abort_reason-run s [] = sym (cause_nil s.abort_reason)
abort_reason-run s (a ∷ actions) =
    abort_reason-run (act s a) actions
    ∙ ap (λ o. latest_cause o (first_of (act s a) actions)) (cause-act s a)
    ∙ cause_assoc s.abort_reason (cause_of s a) (first_of (act s a) actions)
