-- ===== src/Connections.antt =====
-- packages/api/src/api/websocket/manager.py: `ConnectionManager`. Its maps are dictionaries by
-- conversation id, its set of claims a dictionary without values. A socket is a number, and so is the
-- identity of an event or of a lock: the next unused one.
pub mod Actions
pub mod Invariant
pub mod Turns
pub mod Aborts
pub mod Sends
mod Tests
use agents_universe.Prelude.{
  ℕ, suc, Bool, true, false, ◌&&◌, ◌||◌, not, String, Option, none, some, List, [], ◌∷◌, ◌++◌, ltb,
  leb, ◌==◌, if◌then◌else◌, length, drop, keep,
}
use agents_universe.Prelude.Dict.{Dict, get, put, pop}
use text.Mathlib.Text.{◌==◌ as str_eq}

-- An `asyncio.Event`.
pub record Event : Type 0 where
  pub id : ℕ
  pub is_set : Bool

-- What the manager reads of a `ConversationSession`.
pub record SessionRef : Type 0 where
  pub user_id : Option String
  pub project_id : Option String

pub record Note : Type 0 where
  pub note : String
  pub timestamp : ℕ

pub record Manager : Type 0 where
  pub connections : Dict (List ℕ)
  pub abort_events : Dict Event
  pub abort_reasons : Dict String
  pub sessions : Dict SessionRef
  pub session_memories : Dict (List Note)
  pub claimed_turns : Dict (Unit {0})
  pub delegation_gates : Dict ℕ
  pub pending_injections : Dict (List String)
  pub unused : ℕ

unfoldable pub new_manager : Manager
new_manager = record {
  connections = [];
  abort_events = [];
  abort_reasons = [];
  sessions = [];
  session_memories = [];
  claimed_turns = [];
  delegation_gates = [];
  pending_injections = [];
  unused = 0;
}

-- `key in d`
unfoldable pub has {ℓ} : {V : Type ℓ} → Dict V → String → Bool
has d k = elim (get d k) [ none ↦ false | some v ↦ true ]

abbrev pub max_ws_per_conversation : ℕ
max_ws_per_conversation = 8

abbrev pub pending_injection_limit : ℕ
pending_injection_limit = 20

-- Turn claims.

unfoldable pub claim_turn : Manager → String → Manager × Bool
claim_turn m c =
    if has m.claimed_turns c
    then (m, false)
    else (record m { claimed_turns = put m.claimed_turns c tt }, true)

unfoldable pub release_turn : Manager → String → Manager
release_turn m c = record m {
  claimed_turns = pop m.claimed_turns c;
  delegation_gates = pop m.delegation_gates c;
}

unfoldable pub is_session_active : Manager → String → Bool
is_session_active m c = has m.sessions c

unfoldable pub is_turn_active : Manager → String → Bool
is_turn_active m c = has m.claimed_turns c || is_session_active m c

-- Abort events.

unfoldable pub ensure_abort_event : Manager → String → Manager
ensure_abort_event m c = if has m.abort_events c then m else record m {
  abort_events = put m.abort_events c (record { id = m.unused; is_set = false });
  unused = suc m.unused;
}

-- `setdefault`
unfoldable pub set_default {ℓ} : {V : Type ℓ} → Dict V → String → V → Dict V
set_default d k v = if has d k then d else put d k v

unfoldable pub signal_abort : Manager → String → String → Manager
signal_abort m c reason = elim (get m.abort_events c) [
  | none ↦ m
  | some e ↦ record m {
    abort_reasons = set_default m.abort_reasons c reason;
    abort_events = put m.abort_events c (record e { is_set = true });
  }
]

unfoldable pub get_abort_reason : Manager → String → Option String
get_abort_reason m c = get m.abort_reasons c

unfoldable pub reset_abort : Manager → String → Manager
reset_abort m c = elim (get m.abort_events c) [
  | none ↦ m
  | some e ↦ record m {
    abort_reasons = pop m.abort_reasons c;
    abort_events = put m.abort_events c (record e { is_set = false });
  }
]

-- What disconnect() and deregister_session() take away.
unfoldable pub forget : Manager → String → Manager
forget m c = record m {
  abort_events = pop m.abort_events c;
  abort_reasons = pop m.abort_reasons c;
  session_memories = pop m.session_memories c;
}

-- Sockets.

unfoldable pub has_socket : List ℕ → ℕ → Bool
has_socket [] ws = false
has_socket (v ∷ socks) ws = v == ws || has_socket socks ws

unfoldable pub add_socket : List ℕ → ℕ → List ℕ
add_socket socks ws = if has_socket socks ws then socks else ws ∷ socks

unfoldable pub discard_socket : List ℕ → ℕ → List ℕ
discard_socket socks ws = keep (λ v. not (v == ws)) socks

-- The sockets of the conversation, where no key stands for the empty set.
unfoldable pub sockets : Manager → String → List ℕ
sockets m c = elim (get m.connections c) [ none ↦ [] | some socks ↦ socks ]

-- `if not socks: self._connections.pop(...)`
unfoldable pub store_sockets : Manager → String → List ℕ → Manager
store_sockets m c [] = record m { connections = pop m.connections c }
store_sockets m c (ws ∷ socks) = record m { connections = put m.connections c (ws ∷ socks) }

-- connect(), with the code 4409 where the socket is closed at once.
unfoldable pub connect : Manager → String → ℕ → Manager × Option ℕ
connect m c ws =
    let socks = add_socket (sockets m c) ws in
    let m' = ensure_abort_event (record m { connections = put m.connections c socks }) c in
    if ltb max_ws_per_conversation (length socks)
    then (store_sockets m' c (discard_socket socks ws), some 4409)
    else (m', none)

-- `socks.discard(ws)` on the conversation's set, if there is one.
unfoldable pub remove_socket : Manager → String → ℕ → Manager
remove_socket m c ws = elim (get m.connections c) [
  | none ↦ m
  | some socks ↦ store_sockets m c (discard_socket socks ws)
]

unfoldable pub leave : Manager → String → Option ℕ → Manager
leave m c none = record m { connections = pop m.connections c }
leave m c (some ws) = remove_socket m c ws

unfoldable pub disconnect : Manager → String → Option ℕ → Manager
disconnect m c ws =
    let m' = leave m c ws in
    if not (has m'.connections c) && (not (has m'.sessions c) && not (has m'.claimed_turns c))
    then forget m' c
    else m'

-- _evict(), without the closing of the socket.
unfoldable pub evict : Manager → String → ℕ → Manager
evict m c ws = remove_socket m c ws

-- The sends of one frame, each to its end. `delivers` is what the network does.
unfoldable pub send_all : (ℕ → Bool) → Manager → String → List ℕ → Manager × Bool
send_all delivers m c [] = (m, false)
send_all delivers m c (ws ∷ socks) =
    let (m', any) = send_all delivers (if delivers ws then m else evict m c ws) c socks in
    (m', delivers ws || any)

-- `encodes`: json.dumps() takes the payload.
unfoldable pub send : (ℕ → Bool) → Bool → Manager → String → Manager × Bool
send delivers encodes m c = elim (sockets m c) [
  | [] ↦ (m, false)
  | ws ∷ socks ↦ if encodes then send_all delivers m c (ws ∷ socks) else (m, false)
]

-- Sessions.

unfoldable pub register_session : Manager → String → SessionRef → Manager
register_session m c s = record m { sessions = put m.sessions c s }

unfoldable pub deregister_session : Manager → String → Manager
deregister_session m c =
    let m' = record m { sessions = pop m.sessions c } in
    if has m'.connections c then m' else forget m' c

unfoldable pub same_name : Option String → String → Bool
same_name none name = false
same_name (some n) name = str_eq n name

unfoldable pub get_running_conversations : Dict SessionRef → String → List String
get_running_conversations [] user = []
get_running_conversations ((c, s) ∷ rest) user =
    let others = get_running_conversations rest user in
    if same_name s.user_id user then c ∷ others else others

unfoldable pub get_running_for_project : Dict SessionRef → String → List String
get_running_for_project [] project = []
get_running_for_project ((c, s) ∷ rest) project =
    let others = get_running_for_project rest project in
    if same_name s.project_id project then c ∷ others else others

unfoldable pub delegation_gate : Manager → String → Manager × ℕ
delegation_gate m c = elim (get m.delegation_gates c) [
  | some gate ↦ (m, gate)
  | none ↦ (
    record m { delegation_gates = put m.delegation_gates c m.unused; unused = suc m.unused },
    m.unused,
  )
]

-- Injected messages of the time before the session is registered.

unfoldable pub pending : Manager → String → List String
pending m c = elim (get m.pending_injections c) [ none ↦ [] | some buf ↦ buf ]

unfoldable pub enqueue_pending_injection : Manager → String → String → Manager × Bool
enqueue_pending_injection m c msg =
    let buf = pending m c in
    if leb pending_injection_limit (length buf)
    then (record m { pending_injections = put m.pending_injections c buf }, false)
    else (record m { pending_injections = put m.pending_injections c (buf ++ msg ∷ []) }, true)

-- drain_pending_injections() and discard_pending_injections()
unfoldable pub drain_pending_injections : Manager → String → Manager × List String
drain_pending_injections m c =
    (record m { pending_injections = pop m.pending_injections c }, pending m c)

unfoldable pub has_pending_injections : Manager → String → Bool
has_pending_injections m c = ltb 0 (length (pending m c))

-- Session notes.

unfoldable pub memories : Manager → String → List Note
memories m c = elim (get m.session_memories c) [ none ↦ [] | some notes ↦ notes ]

-- `setdefault`: the list that is returned is the one of the manager.
unfoldable pub get_session_memories : Manager → String → Manager × List Note
get_session_memories m c =
    (record m { session_memories = put m.session_memories c (memories m c) }, memories m c)

unfoldable pub add_session_memory : Manager → String → Note → Manager
add_session_memory m c n =
    let notes = memories m c in
    let room = if leb 20 (length notes) then drop 1 notes else notes in
    record m { session_memories = put m.session_memories c (room ++ n ∷ []) }
