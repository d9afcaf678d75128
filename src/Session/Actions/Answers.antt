-- ===== src/Session/Actions/Answers.antt =====
-- The answers that a session remembers, whatever else happens to it.
use agents_universe.Prelude.{
  Bool, true, false, ℕ, String, ◌≡◌, refl, Option, none, some, List, [], ◌∷◌, arith, if◌then◌else◌,
  Bool-cases, inl, inr, sym, eq_iff, ap, ◌∙◌,
}
use agents_universe.Prelude.Dict.{get, pop}
use agents_universe.Session.{
  Session, SessionEvent, abort, add_tokens, Status, answered, timed_out, dismissed, PromptOutcome,
  Signature,
}
use agents_universe.Session.Ledger.{
  is_answered, merged, if_answered, same_signature, record_prompt_outcome, note_prompt_timeout,
  note_user_present,
}
use agents_universe.Session.Stream.{emit, wake, admit, expire, expire_first, next_event, close}
use agents_universe.Session.Inputs.{
  enqueue_user_input, dequeue_user_input, dequeue_from, resolve_input_persisted, settle,
}
use agents_universe.Session.Actions.{
  Action, recorded, prompt_timeout, user_present, emitted, woken, expired, consumed, closing,
  aborting, enqueued, dequeued, persisted, tokens, act, run,
}

unfoldable pub answer_of : Status → Option String → Option (Option String)
answer_of answered value = some value
answer_of timed_out value = none
answer_of dismissed value = none

-- The answer that an entry of the ledger holds.
unfoldable pub answer : Option PromptOutcome → Option (Option String)
answer none = none
answer (some outcome) = answer_of outcome.status outcome.value

unfoldable pub latest {ℓ} : {A : Type ℓ} → Option A → Option A → Option A
latest none old = old
latest (some new) old = some new

-- The answer that an action records for this question.
unfoldable pub given : Action → Signature → Option (Option String)
given (recorded (some question) status value) signature =
    if same_signature question signature then answer_of status value else none
given (recorded none status value) signature = none
given prompt_timeout signature = none
given user_present signature = none
given (emitted event) signature = none
given woken signature = none
given expired signature = none
given consumed signature = none
given closing signature = none
given (aborting reason) signature = none
given (enqueued ref) signature = none
given dequeued signature = none
given (persisted message_id ok records) signature = none
given (tokens count) signature = none

-- The last answer that the user gave to this question.
unfoldable pub last_answer : List Action → Signature → Option (Option String)
last_answer [] signature = none
last_answer (a ∷ actions) signature = latest (last_answer actions signature) (given a signature)

answer_of-answered :
    (status : Status) (value : Option String)
    → is_answered status ≡ true
    → answer_of status value ≡ some value
unfolding answer_of is_answered
answer_of-answered answered value h = refl
answer_of-answered timed_out value h = cc
answer_of-answered dismissed value h = cc

answer_of-failed :
    (status : Status) (value : Option String)
    → is_answered status ≡ false
    → answer_of status value ≡ none
unfolding answer_of is_answered
answer_of-failed answered value h = cc
answer_of-failed timed_out value h = refl
answer_of-failed dismissed value h = refl

answer-merged :
    (o : Option PromptOutcome) (status : Status) (value : Option String)
    → answer (some (merged o (record { status = status; value = value })))
      ≡ latest (answer_of status value) (answer o)
unfolding answer merged latest
answer-merged none status value = elim (Bool-cases (is_answered status)) [
  | inl won ↦ rw (answer_of-answered status value won)
  | inr failed ↦ rw (answer_of-failed status value failed)
]
answer-merged (some old) status value = elim (Bool-cases (is_answered status)) [
  | inl won ↦ elim (Bool-cases (is_answered old.status)) [
    | inl kept ↦ rw (kept, won, answer_of-answered status value won)
    | inr lost ↦ rw (lost, answer_of-answered status value won)
  ]
  | inr failed ↦ elim (Bool-cases (is_answered old.status)) [
    | inl kept ↦ rw (kept, failed, answer_of-failed status value failed)
    | inr lost ↦
        rw (lost, answer_of-failed status value failed, answer_of-failed old.status old.value lost)
  ]
]

answer-if_answered : (o : Option PromptOutcome) → answer (if_answered o) ≡ answer o
unfolding answer if_answered
answer-if_answered none = refl
answer-if_answered (some o) = elim (Bool-cases (is_answered o.status)) [
  | inl kept ↦ rw kept
  | inr lost ↦ rw (lost, answer_of-failed o.status o.value lost)
]

same_signature_eq : (p q : Signature) → same_signature p q ≡ true → p ≡ q
unfolding same_signature
same_signature_eq (a, b) (c, d) h = ground (arith, eq_iff a c, eq_iff b d)

answer-record :
    (s : Session) (question : Option Signature) (status : Status) (value : Option String)
    (signature : Signature)
    → answer ((record_prompt_outcome s question status value).prompt_outcomes signature)
      ≡ latest
          (given (recorded question status value) signature)
          (answer (s.prompt_outcomes signature))
unfolding record_prompt_outcome given latest
answer-record s none status value signature = refl
answer-record s (some question) status value signature =
    elim (Bool-cases (same_signature question signature)) [
      | inl same ↦ rw (
        same,
        sym (same_signature_eq question signature same),
        answer-merged (s.prompt_outcomes question) status value,
      )
      | inr other ↦ rw other
    ]

admit-outcomes :
    (s : Session) (waiting : List SessionEvent)
    → (admit s waiting).prompt_outcomes ≡ s.prompt_outcomes
unfolding admit
admit-outcomes s [] = refl
admit-outcomes s (event ∷ rest) = ground arith

expire_first-outcomes :
    (s : Session) (waiting : List SessionEvent)
    → (expire_first s waiting).prompt_outcomes ≡ s.prompt_outcomes
unfolding expire_first abort
expire_first-outcomes s [] = refl
expire_first-outcomes s (event ∷ rest) = refl

dequeue_from-outcomes :
    (s : Session) (queue : List ℕ) → (dequeue_from s queue).0.prompt_outcomes ≡ s.prompt_outcomes
unfolding dequeue_from
dequeue_from-outcomes s [] = refl
dequeue_from-outcomes s (ref ∷ rest) = refl

settle-outcomes :
    (s : Session) (o : Option ℕ) (ok : Bool) (records : Option (List String))
    → (settle s o ok records).prompt_outcomes ≡ s.prompt_outcomes
unfolding settle
settle-outcomes s none ok records = refl
settle-outcomes s (some ref) ok records = refl

answer-enqueue :
    (s : Session) (ref : ℕ) (signature : Signature)
    → answer ((enqueue_user_input s ref).0.prompt_outcomes signature)
      ≡ answer (s.prompt_outcomes signature)
unfolding enqueue_user_input note_user_present
answer-enqueue s ref signature = ground (arith, answer-if_answered (s.prompt_outcomes signature))

answer-act :
    (s : Session) (a : Action) (signature : Signature)
    → answer ((act s a).prompt_outcomes signature)
      ≡ latest (given a signature) (answer (s.prompt_outcomes signature))
unfolding act given latest note_prompt_timeout note_user_present emit next_event close abort
    add_tokens wake expire dequeue_user_input resolve_input_persisted
answer-act s (recorded question status value) signature =
    answer-record s question status value signature
answer-act s prompt_timeout signature = refl
answer-act s user_present signature = answer-if_answered (s.prompt_outcomes signature)
answer-act s (emitted event) signature = ground arith
answer-act s woken signature = rw (admit-outcomes s s.putters)
answer-act s expired signature = rw (expire_first-outcomes s s.putters)
answer-act s consumed signature = refl
answer-act s closing signature = ground arith
answer-act s (aborting reason) signature = refl
answer-act s (enqueued ref) signature = answer-enqueue s ref signature
answer-act s dequeued signature = rw (dequeue_from-outcomes s s.user_input_queue)
answer-act s (persisted message_id ok records) signature = rw (
    settle-outcomes (record s { pending_input_by_id = pop s.pending_input_by_id message_id })
      (get s.pending_input_by_id message_id) ok records)
answer-act s (tokens count) signature = refl

latest_assoc {ℓ} : {A : Type ℓ} (a b c : Option A) → latest (latest a b) c ≡ latest a (latest b c)
unfolding latest
latest_assoc none b c = refl
latest_assoc (some a) b c = refl

-- Whatever happens to a session, the answer that its ledger holds for a question is the last one
-- that the user gave to it, or, if the user gave none, the one that was there before.
pub answer-run :
    (s : Session) (actions : List Action) (signature : Signature)
    → answer ((run s actions).prompt_outcomes signature)
      ≡ latest (last_answer actions signature) (answer (s.prompt_outcomes signature))
unfolding run last_answer latest
answer-run s [] signature = refl
answer-run s (a ∷ actions) signature =
    answer-run (act s a) actions signature
    ∙ ap (latest (last_answer actions signature)) (answer-act s a signature)
    ∙ sym (
        latest_assoc (last_answer actions signature) (given a signature)
          (answer (s.prompt_outcomes signature)))
