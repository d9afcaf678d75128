-- ===== src/Session/Actions/Verdicts.antt =====
-- The verdict on an injected message: whether it was stored.
use agents_universe.Prelude.{
  ℕ, Bool, String, ◌≡◌, refl, ap, ◌∙◌, Option, none, some, List, [], ◌∷◌, arith, ==_iff, Bool-cases,
  inl, inr, ◌==◌,
}
use agents_universe.Prelude.Dict.{get, pop}
use agents_universe.Session.{
  Session, SessionEvent, Status, Signature, resolved, UserInputEntry, abort, add_tokens,
}
use agents_universe.Session.Ledger.{record_prompt_outcome, note_prompt_timeout, note_user_present}
use agents_universe.Session.Stream.{emit, wake, admit, expire, expire_first, next_event, close}
use agents_universe.Session.Inputs.{
  enqueue_user_input, dequeue_user_input, dequeue_from, resolve_input_persisted, settle, settled,
  set_result,
}
use agents_universe.Session.Actions.{
  Action, recorded, prompt_timeout, user_present, emitted, woken, expired, consumed, closing,
  aborting, enqueued, dequeued, persisted, tokens, act, run,
}

-- The verdict that an entry has at this reference.
abbrev pub HasVerdict : Session → ℕ → Bool → Type 0
HasVerdict s ref ok = (s.entries ref).persisted ≡ resolved ok

settled-verdict :
    (entry : UserInputEntry) (ok verdict : Bool) (records : Option (List String))
    → entry.persisted ≡ resolved verdict
    → (settled entry ok records).persisted ≡ resolved verdict
unfolding settled set_result
settled-verdict entry ok verdict records h = rw h

settle-HasVerdict :
    (s : Session) (o : Option ℕ) (ok : Bool) (records : Option (List String)) (ref : ℕ)
    (verdict : Bool)
    → HasVerdict s ref verdict
    → HasVerdict (settle s o ok records) ref verdict
unfolding settle
settle-HasVerdict s none ok records ref verdict h = h
settle-HasVerdict s (some other) ok records ref verdict h = elim (Bool-cases (other == ref)) [
  | inl same ↦
      rw (same, (==_iff other ref).0 same) (settled-verdict (s.entries ref) ok verdict records h)
  | inr differs ↦ rw differs h
]

record-entries :
    (s : Session) (question : Option Signature) (status : Status) (value : Option String)
    → (record_prompt_outcome s question status value).entries ≡ s.entries
unfolding record_prompt_outcome
record-entries s none status value = refl
record-entries s (some question) status value = refl

admit-entries : (s : Session) (waiting : List SessionEvent) → (admit s waiting).entries ≡ s.entries
unfolding admit
admit-entries s [] = refl
admit-entries s (e ∷ rest) = ground arith

expire-entries :
    (s : Session) (waiting : List SessionEvent) → (expire_first s waiting).entries ≡ s.entries
unfolding expire_first abort
expire-entries s [] = refl
expire-entries s (e ∷ rest) = refl

dequeue-entries : (s : Session) (queue : List ℕ) → (dequeue_from s queue).0.entries ≡ s.entries
unfolding dequeue_from
dequeue-entries s [] = refl
dequeue-entries s (ref ∷ rest) = refl

enqueue-entries : (s : Session) (ref : ℕ) → (enqueue_user_input s ref).0.entries ≡ s.entries
unfolding enqueue_user_input note_user_present
enqueue-entries s ref = ground arith

kept_verdict :
    {new old : ℕ → UserInputEntry} (ref : ℕ) (ok : Bool)
    → new ≡ old
    → (old ref).persisted ≡ resolved ok
    → (new ref).persisted ≡ resolved ok
kept_verdict ref ok e h = ap (λ entries. (entries ref).persisted) e ∙ h

act-HasVerdict :
    (s : Session) (a : Action) (ref : ℕ) (ok : Bool)
    → HasVerdict s ref ok
    → HasVerdict (act s a) ref ok
unfolding act note_prompt_timeout note_user_present emit wake expire next_event close abort
    add_tokens dequeue_user_input resolve_input_persisted
act-HasVerdict s (recorded question status value) ref ok h =
    kept_verdict ref ok (record-entries s question status value) h
act-HasVerdict s prompt_timeout ref ok h = h
act-HasVerdict s user_present ref ok h = h
act-HasVerdict s (emitted e) ref ok h = ground arith
act-HasVerdict s woken ref ok h = kept_verdict ref ok (admit-entries s s.putters) h
act-HasVerdict s expired ref ok h = kept_verdict ref ok (expire-entries s s.putters) h
act-HasVerdict s consumed ref ok h = h
act-HasVerdict s closing ref ok h = ground arith
act-HasVerdict s (aborting reason) ref ok h = h
act-HasVerdict s (enqueued other) ref ok h = kept_verdict ref ok (enqueue-entries s other) h
act-HasVerdict s dequeued ref ok h = kept_verdict ref ok (dequeue-entries s s.user_input_queue) h
act-HasVerdict s (persisted message_id stored records) ref ok h =
    settle-HasVerdict (record s { pending_input_by_id = pop s.pending_input_by_id message_id })
      (get s.pending_input_by_id message_id) stored records ref ok h
act-HasVerdict s (tokens count) ref ok h = h

-- The first verdict on an injected message stays, whatever happens to the session after it.
run-HasVerdict :
    (s : Session) (actions : List Action) (ref : ℕ) (ok : Bool)
    → HasVerdict s ref ok
    → HasVerdict (run s actions) ref ok
unfolding run
run-HasVerdict s [] ref ok h = h
run-HasVerdict s (a ∷ actions) ref ok h =
    run-HasVerdict (act s a) actions ref ok (act-HasVerdict s a ref ok h)
