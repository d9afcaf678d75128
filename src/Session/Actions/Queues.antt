-- ===== src/Session/Actions/Queues.antt =====
-- The two queues of a session, whatever happens to it.
use agents_universe.Prelude.{
  ℕ, ◌≤◌, ◌≡◌, refl, sym, ◌∙◌, Bool, false, String, Option, none, some, List, [], ◌∷◌, leb, length,
  length-append, length-drop, arith, Bool-cases, inl, inr,
}
use agents_universe.Prelude.Dict.{get}
use agents_universe.Session.{
  Session, SessionEvent, Status, Signature, UserInputEntry, new_session, abort, add_tokens,
}
use agents_universe.Session.Ledger.{record_prompt_outcome, note_prompt_timeout, note_user_present}
use agents_universe.Session.Stream.{
  event_maxsize, full, emit, wake, admit, expire, expire_first, next_event, drain, close,
}
use agents_universe.Session.Stream.Closing.{
  IsOpen, IsOpen-emit, IsOpen-drop, let_through, drain-close, length-close,
}
use agents_universe.Session.Inputs.{
  input_maxsize, enqueue_user_input, dequeue_user_input, dequeue_from, resolve_input_persisted,
  settle,
}
use agents_universe.Session.Actions.{
  Action, recorded, prompt_timeout, user_present, emitted, woken, expired, consumed, closing,
  aborting, enqueued, dequeued, persisted, tokens, act, run,
}

-- The queue is within its size, and has no sentinel before `close`.
pub record IsStream (s : Session) : Type 0 where
  pub bounded : length s.event_queue ≤ event_maxsize
  pub unsealed : s.closed ≡ false → IsOpen s.event_queue

same-IsStream :
    (s t : Session) → t.event_queue ≡ s.event_queue → t.closed ≡ s.closed → IsStream s → IsStream t
same-IsStream s t q c w = record {
  bounded = rw q w.bounded;
  unsealed = λ h. rw q (w.unsealed (sym c ∙ h));
}

IsStream-emit : (s : Session) (e : SessionEvent) → IsStream s → IsStream (emit s e)
unfolding emit
IsStream-emit s e w = elim (Bool-cases s.closed) [
  | inl shut ↦ simp shut w
  | inr live ↦ elim (Bool-cases (full s)) [
    | inl is_full ↦ simp (live, is_full) (same-IsStream s _ refl (sym live) w)
    | inr room ↦
        simp (live, room)
          (record {
            bounded = grind (arith, length-append s.event_queue (some e ∷ []));
            unsealed = λ h. IsOpen-emit s.event_queue e (w.unsealed live);
          })
  ]
]

IsStream-admit :
    (s : Session) (waiting : List SessionEvent) → IsStream s → IsStream (admit s waiting)
unfolding admit
IsStream-admit s [] w = w
IsStream-admit s (e ∷ rest) w = elim (Bool-cases (full s)) [
  | inl is_full ↦ rw is_full w
  | inr room ↦ rw room (record {
    bounded = grind (arith, length-append s.event_queue (some e ∷ []));
    unsealed = λ h. IsOpen-emit s.event_queue e (w.unsealed h);
  })
]

IsStream-expire :
    (s : Session) (waiting : List SessionEvent) → IsStream s → IsStream (expire_first s waiting)
unfolding expire_first abort
IsStream-expire s [] w = w
IsStream-expire s (e ∷ rest) w = same-IsStream s _ refl refl w

IsStream-close : (s : Session) → IsStream s → IsStream (close s)
unfolding close
IsStream-close s w = elim (Bool-cases s.closed) [
  | inl shut ↦ simp shut w
  | inr live ↦ record { bounded = length-close s live; unsealed = rw live (λ h. cc) }
]

IsStream-record :
    (s : Session) (question : Option Signature) (status : Status) (value : Option String)
    → IsStream s
    → IsStream (record_prompt_outcome s question status value)
unfolding record_prompt_outcome
IsStream-record s none status value w = w
IsStream-record s (some question) status value w = same-IsStream s _ refl refl w

IsStream-enqueue : (s : Session) (ref : ℕ) → IsStream s → IsStream (enqueue_user_input s ref).0
unfolding enqueue_user_input note_user_present
IsStream-enqueue s ref w = elim (Bool-cases (leb input_maxsize (length s.user_input_queue))) [
  | inl is_full ↦ rw is_full w
  | inr room ↦ rw room (same-IsStream s _ refl refl w)
]

IsStream-dequeue : (s : Session) (queue : List ℕ) → IsStream s → IsStream (dequeue_from s queue).0
unfolding dequeue_from
IsStream-dequeue s [] w = w
IsStream-dequeue s (ref ∷ rest) w = same-IsStream s _ refl refl w

IsStream-settle :
    (s : Session) (o : Option ℕ) (ok : Bool) (records : Option (List String))
    → IsStream s
    → IsStream (settle s o ok records)
unfolding settle
IsStream-settle s none ok records w = w
IsStream-settle s (some ref) ok records w = same-IsStream s _ refl refl w

IsStream-act : (s : Session) (a : Action) → IsStream s → IsStream (act s a)
unfolding act note_prompt_timeout note_user_present next_event abort add_tokens wake expire
    dequeue_user_input resolve_input_persisted
IsStream-act s (recorded question status value) w = IsStream-record s question status value w
IsStream-act s prompt_timeout w = same-IsStream s _ refl refl w
IsStream-act s user_present w = same-IsStream s _ refl refl w
IsStream-act s (emitted e) w = IsStream-emit s e w
IsStream-act s woken w = IsStream-admit s s.putters w
IsStream-act s expired w = IsStream-expire s s.putters w
IsStream-act s consumed w = record {
  bounded = omega (arith, w.bounded, length-drop 1 s.event_queue);
  unsealed = λ h. IsOpen-drop s.event_queue (w.unsealed h);
}
IsStream-act s closing w = IsStream-close s w
IsStream-act s (aborting reason) w = same-IsStream s _ refl refl w
IsStream-act s (enqueued ref) w = IsStream-enqueue s ref w
IsStream-act s dequeued w = IsStream-dequeue s s.user_input_queue w
IsStream-act s (persisted message_id ok records) w =
    IsStream-settle _ (get s.pending_input_by_id message_id) ok records
      (same-IsStream s _ refl refl w)
IsStream-act s (tokens count) w = same-IsStream s _ refl refl w

-- Whatever happens to a session, its event queue holds at most 1000 items, and no sentinel before
-- it is closed.
run-IsStream : (s : Session) (actions : List Action) → IsStream s → IsStream (run s actions)
unfolding run
run-IsStream s [] w = w
run-IsStream s (a ∷ actions) w = run-IsStream (act s a) actions (IsStream-act s a w)

IsStream-new :
    (token_budget tokens_used : ℕ) (entries : ℕ → UserInputEntry)
    → IsStream (new_session token_budget tokens_used entries)
unfolding IsOpen
IsStream-new token_budget tokens_used entries = record { bounded = omega arith; unsealed = λ h. tt }

-- When a session that is not closed yet is closed, whatever happened to it before, the sentinel
-- finds room in the queue, and the consumer that reads on receives the events of the queue in
-- order and stops: all of them, or, if the queue is full, the newest 999 durable ones.
pub drain-close-run :
    (token_budget tokens_used : ℕ) (entries : ℕ → UserInputEntry) (actions : List Action)
    → (run (new_session token_budget tokens_used entries) actions).closed ≡ false
    → let s = run (new_session token_budget tokens_used entries) actions in
      (drain (close s).event_queue ≡ some (let_through s))
      × (length (close s).event_queue ≤ event_maxsize)
drain-close-run token_budget tokens_used entries actions live =
    let s = run (new_session token_budget tokens_used entries) actions in
    let w = run-IsStream _ actions (IsStream-new token_budget tokens_used entries) in
    (drain-close s live (w.unsealed live), length-close s live)
