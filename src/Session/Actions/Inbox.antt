-- ===== src/Session/Actions/Inbox.antt =====
-- The injected messages: each one is handed out once, in the order of arrival.
use agents_universe.Prelude.{
  ℕ, ◌≡◌, refl, sym, ap, ◌∙◌, Bool, String, Option, none, some, List, [], ◌∷◌, ◌++◌, leb, length,
  arith, Bool-cases, inl, inr, if◌then◌else◌,
}
use mathlib.Core.List.{append_assoc, append-nil}
use agents_universe.Prelude.Dict.{get}
use agents_universe.Session.{Session, SessionEvent, Status, Signature, abort, add_tokens}
use agents_universe.Session.Ledger.{record_prompt_outcome, note_prompt_timeout, note_user_present}
use agents_universe.Session.Stream.{emit, wake, admit, expire, expire_first, next_event, close}
use agents_universe.Session.Inputs.{
  input_maxsize, enqueue_user_input, dequeue_user_input, dequeue_from, resolve_input_persisted,
  settle,
}
use agents_universe.Session.Actions.{
  Action, recorded, prompt_timeout, user_present, emitted, woken, expired, consumed, closing,
  aborting, enqueued, dequeued, persisted, tokens, act, run,
}

abbrev if_some {ℓ} : {A : Type ℓ} → Option A → List A
if_some none = []
if_some (some a) = a ∷ []

-- What an action puts into the queue: the entry, if `enqueue_user_input` accepts it.
unfoldable pub taken_in : Session → Action → List ℕ
taken_in s (enqueued ref) = if (enqueue_user_input s ref).1 then ref ∷ [] else []
taken_in s a = []

-- What an action hands to the agent.
unfoldable pub handed_out : Session → Action → List ℕ
handed_out s dequeued = if_some (dequeue_user_input s).1
handed_out s a = []

unfoldable pub all_taken : Session → List Action → List ℕ
all_taken s [] = []
all_taken s (a ∷ actions) = taken_in s a ++ all_taken (act s a) actions

unfoldable pub all_handed : Session → List Action → List ℕ
all_handed s [] = []
all_handed s (a ∷ actions) = handed_out s a ++ all_handed (act s a) actions

record-inputs :
    (s : Session) (question : Option Signature) (status : Status) (value : Option String)
    → (record_prompt_outcome s question status value).user_input_queue ≡ s.user_input_queue
unfolding record_prompt_outcome
record-inputs s none status value = refl
record-inputs s (some question) status value = refl

admit-inputs :
    (s : Session) (waiting : List SessionEvent)
    → (admit s waiting).user_input_queue ≡ s.user_input_queue
unfolding admit
admit-inputs s [] = refl
admit-inputs s (e ∷ rest) = ground arith

expire-inputs :
    (s : Session) (waiting : List SessionEvent)
    → (expire_first s waiting).user_input_queue ≡ s.user_input_queue
unfolding expire_first abort
expire-inputs s [] = refl
expire-inputs s (e ∷ rest) = refl

settle-inputs :
    (s : Session) (o : Option ℕ) (ok : Bool) (records : Option (List String))
    → (settle s o ok records).user_input_queue ≡ s.user_input_queue
unfolding settle
settle-inputs s none ok records = refl
settle-inputs s (some ref) ok records = refl

inputs-dequeue :
    (s : Session) (queue : List ℕ)
    → s.user_input_queue ≡ queue
    → if_some (dequeue_from s queue).1 ++ (dequeue_from s queue).0.user_input_queue ≡ queue
unfolding dequeue_from
inputs-dequeue s [] h = h
inputs-dequeue s (ref ∷ rest) h = refl

inputs-enqueue :
    (s : Session) (ref : ℕ)
    → (enqueue_user_input s ref).0.user_input_queue
      ≡ s.user_input_queue ++ taken_in s (enqueued ref)
unfolding enqueue_user_input note_user_present taken_in
inputs-enqueue s ref = elim (Bool-cases (leb input_maxsize (length s.user_input_queue))) [
  | inl is_full ↦ rw is_full (sym (append-nil s.user_input_queue))
  | inr room ↦ rw room
]

inputs-act :
    (s : Session) (a : Action)
    → handed_out s a ++ (act s a).user_input_queue ≡ s.user_input_queue ++ taken_in s a
unfolding act handed_out taken_in note_prompt_timeout note_user_present emit wake expire next_event
    close abort add_tokens dequeue_user_input resolve_input_persisted
inputs-act s (recorded question status value) =
    record-inputs s question status value ∙ sym (append-nil s.user_input_queue)
inputs-act s prompt_timeout = sym (append-nil s.user_input_queue)
inputs-act s user_present = sym (append-nil s.user_input_queue)
inputs-act s (emitted e) = ground (arith, append-nil s.user_input_queue)
inputs-act s woken = admit-inputs s s.putters ∙ sym (append-nil s.user_input_queue)
inputs-act s expired = expire-inputs s s.putters ∙ sym (append-nil s.user_input_queue)
inputs-act s consumed = sym (append-nil s.user_input_queue)
inputs-act s closing = ground (arith, append-nil s.user_input_queue)
inputs-act s (aborting reason) = sym (append-nil s.user_input_queue)
inputs-act s (enqueued ref) = inputs-enqueue s ref
inputs-act s dequeued =
    inputs-dequeue s s.user_input_queue refl ∙ sym (append-nil s.user_input_queue)
inputs-act s (persisted message_id ok records) =
    settle-inputs _ (get s.pending_input_by_id message_id) ok records
    ∙ sym (append-nil s.user_input_queue)
inputs-act s (tokens count) = sym (append-nil s.user_input_queue)

-- Whatever happens to a session, the messages that the agent has taken, followed by those that
-- still wait, are those that waited at the start, followed by those that were accepted since: none
-- is lost, repeated or overtaken.
pub inputs-run :
    (s : Session) (actions : List Action)
    → all_handed s actions ++ (run s actions).user_input_queue
      ≡ s.user_input_queue ++ all_taken s actions
unfolding run all_handed all_taken
inputs-run s [] = sym (append-nil s.user_input_queue)
inputs-run s (a ∷ actions) =
    append_assoc (handed_out s a) (all_handed (act s a) actions)
      (run (act s a) actions).user_input_queue
    ∙ ap (◌++◌ (handed_out s a)) (inputs-run (act s a) actions)
    ∙ sym (append_assoc (handed_out s a) (act s a).user_input_queue (all_taken (act s a) actions))
    ∙ ap (λ q. q ++ all_taken (act s a) actions) (inputs-act s a)
    ∙ append_assoc s.user_input_queue (taken_in s a) (all_taken (act s a) actions)
