-- ===== src/Session/Inputs.antt =====
-- The injected user messages of session.py.
use agents_universe.Prelude.{
  ℕ, Bool, true, false, String, Option, none, some, List, [], ◌∷◌, ◌++◌, leb, ◌==◌, if◌then◌else◌,
  length,
}
use agents_universe.Prelude.Dict.{get, put, pop}
use agents_universe.Session.{Session, UserInputEntry, Persisted, absent, pending, resolved}
use agents_universe.Session.Ledger.{note_user_present}

abbrev pub input_maxsize : ℕ
input_maxsize = 20

-- The entry is given by its reference.
unfoldable pub enqueue_user_input : Session → ℕ → Session × Bool
enqueue_user_input s ref = if leb input_maxsize (length s.user_input_queue) then (s, false) else (
  note_user_present (record s {
    user_input_queue = s.user_input_queue ++ ref ∷ [];
    pending_input_by_id = put s.pending_input_by_id (s.entries ref).message_id ref;
  }),
  true,
)

unfoldable pub dequeue_from : Session → List ℕ → Session × Option ℕ
dequeue_from s [] = (s, none)
dequeue_from s (ref ∷ rest) = (record s { user_input_queue = rest }, some ref)

-- The entry stays registered by its id.
unfoldable pub dequeue_user_input : Session → Session × Option ℕ
unfolding dequeue_from
dequeue_user_input s = dequeue_from s s.user_input_queue

or_old : Option (List String) → Option (List String) → Option (List String)
or_old none old = old
or_old (some records) old = some records

unfoldable pub set_result : Persisted → Bool → Persisted
set_result absent ok = absent
set_result pending ok = resolved ok
set_result (resolved old) ok = resolved old

unfoldable pub settled : UserInputEntry → Bool → Option (List String) → UserInputEntry
unfolding or_old set_result
settled entry ok records = record entry {
  attachment_records = or_old records entry.attachment_records;
  persisted = set_result entry.persisted ok;
}

unfoldable pub settle : Session → Option ℕ → Bool → Option (List String) → Session
settle s none ok records = s
settle s (some ref) ok records = record s {
  entries = λ other. if ref == other then settled (s.entries ref) ok records else s.entries other;
}

unfoldable pub resolve_input_persisted : Session → String → Bool → Option (List String) → Session
unfolding settle
resolve_input_persisted s message_id ok records =
    settle (record s { pending_input_by_id = pop s.pending_input_by_id message_id })
      (get s.pending_input_by_id message_id) ok records
