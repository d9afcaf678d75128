-- ===== src/Connections/Invariant.antt =====
-- What holds of a manager after any sequence of calls.
use agents_universe.Prelude.{
  ℕ, ◌≤◌, ◌≡◌, ◌≢◌, refl, Bool, true, false, ◌&&◌, not, String, Option, none, some, List, [], ◌∷◌,
  ◌++◌, ltb, leb, length, length-append, arith, eq_iff, Bool-cases, Option-cases, inl, inr,
}
use agents_universe.Prelude.Dict.{get, put, pop, get-put, get-pop}
use text.Mathlib.Text.{◌==◌ as str_eq}
use agents_universe.Connections.{
  Event, Manager, new_manager, has, claim_turn, release_turn, ensure_abort_event, set_default,
  signal_abort, reset_abort, forget, add_socket, discard_socket, sockets, store_sockets, connect,
  remove_socket, leave, disconnect, evict, register_session, deregister_session, delegation_gate,
  pending, enqueue_pending_injection, drain_pending_injections, get_session_memories,
  add_session_memory, has_socket,
}
use agents_universe.Connections.Actions.{
  Action, claims, releases, connects, disconnects, evicts, registers, deregisters, gates, ensures,
  signals, resets, enqueues, drains, recalls, notes, perform, run,
}

-- From one to eight sockets.
abbrev pub IsHeld : Option (List ℕ) → Type 0
IsHeld none = Unit
IsHeld (some socks) = (1 ≤ length socks) × (length socks ≤ 8)

abbrev pub is_signalled : Option Event → Bool
is_signalled none = false
is_signalled (some e) = e.is_set

abbrev pub is_some {ℓ} : {A : Type ℓ} → Option A → Bool
is_some none = false
is_some (some a) = true

abbrev pub or_empty {ℓ} : {A : Type ℓ} → Option (List A) → List A
or_empty none = []
or_empty (some xs) = xs

-- What holds of one conversation: its sockets, its event, its abort reason and its buffer.
pub record IsFine (socks : Option (List ℕ)) (e : Option Event) (reason : Option String)
    (buf : Option (List String)) : Type 0 where
  pub held : IsHeld socks
  pub stoppable : is_some socks ≡ true → is_some e ≡ true
  pub attributed : is_some reason ≡ is_signalled e
  pub buffered : length (or_empty buf) ≤ 20

abbrev pub IsFineIn : Manager → String → Type 0
IsFineIn m c =
    IsFine (get m.connections c) (get m.abort_events c) (get m.abort_reasons c)
      (get m.pending_injections c)

abbrev IsManager : Manager → Type 0
IsManager m = (c : String) → IsFineIn m c

length-discard_socket : (socks : List ℕ) (ws : ℕ) → length (discard_socket socks ws) ≤ length socks
unfolding discard_socket
length-discard_socket [] ws = omega arith
length-discard_socket (v ∷ socks) ws = ground (arith, length-discard_socket socks ws)

ensure-IsManager : (m : Manager) (c : String) → IsManager m → IsManager (ensure_abort_event m c)
unfolding ensure_abort_event has
ensure-IsManager m c v d =
    ground (
      arith,
      v d,
      get-put c (record { id = m.unused; is_set = false }) m.abort_events d,
      eq_iff c d,
    )

signal-IsManager :
    (m : Manager) (c reason : String) → IsManager m → IsManager (signal_abort m c reason)
unfolding signal_abort set_default has
signal-IsManager m c reason v d = elim (Option-cases (get m.abort_events c)) [
  | inl no_event ↦ rw (no_event, signal_abort) (v d)
  | inr (e, known) ↦
      rw (known, signal_abort)
        (ground (
          arith,
          v d,
          get-put c (record e { is_set = true }) m.abort_events d,
          get-put c reason m.abort_reasons d,
          eq_iff c d,
        ))
]

reset-IsManager : (m : Manager) (c : String) → IsManager m → IsManager (reset_abort m c)
unfolding reset_abort
reset-IsManager m c v d = elim (Option-cases (get m.abort_events c)) [
  | inl no_event ↦ rw (no_event, reset_abort) (v d)
  | inr (e, known) ↦
      rw (known, reset_abort)
        (ground (
          arith,
          v d,
          get-put c (record e { is_set = false }) m.abort_events d,
          get-pop m.abort_reasons c d,
          eq_iff c d,
        ))
]

forget-IsManager :
    (m : Manager) (c : String) → get m.connections c ≡ none → IsManager m → IsManager (forget m c)
unfolding forget
forget-IsManager m c left v d =
    ground (arith, v d, get-pop m.abort_events c d, get-pop m.abort_reasons c d, eq_iff c d, left)

length-discard-add :
    (socks : List ℕ) (ws : ℕ) → length (discard_socket (add_socket socks ws) ws) ≤ length socks
unfolding add_socket discard_socket
length-discard-add socks ws = ground (arith, length-discard_socket socks ws)

store-IsManager :
    (m : Manager) (c : String) (socks : List ℕ)
    → length socks ≤ 8
    → has m.abort_events c ≡ true
    → ((d : String) → c ≢ d → IsFineIn m d)
    → IsFine none (get m.abort_events c) (get m.abort_reasons c) (get m.pending_injections c)
    → IsManager (store_sockets m c socks)
unfolding store_sockets has
store-IsManager m c [] few event others v d = elim (Bool-cases (str_eq c d)) [
  | inl same ↦ ground (arith, v, get-pop m.connections c d, eq_iff c d)
  | inr other ↦ ground (arith, others d, get-pop m.connections c d, eq_iff c d)
]
store-IsManager m c (ws ∷ socks) few event others v d = elim (Bool-cases (str_eq c d)) [
  | inl same ↦ ground (arith, v, get-put c (ws ∷ socks) m.connections d, eq_iff c d)
  | inr other ↦ ground (arith, others d, get-put c (ws ∷ socks) m.connections d, eq_iff c d)
]

sockets_few : (m : Manager) (c : String) → IsManager m → length (sockets m c) ≤ 8
unfolding sockets
sockets_few m c v = ground (arith, v c)

add_socket_some : (socks : List ℕ) (ws : ℕ) → 1 ≤ length (add_socket socks ws)
unfolding add_socket has_socket
add_socket_some [] ws = omega arith
add_socket_some (x ∷ socks) ws = ground arith

connect-IsManager : (m : Manager) (c : String) (ws : ℕ) → IsManager m → IsManager (connect m c ws).0
unfolding connect ensure_abort_event has
connect-IsManager m c ws v =
    let socks = add_socket (sockets m c) ws in
    let fresh : Event = record { id = m.unused; is_set = false } in
    let m' = ensure_abort_event (record m { connections = put m.connections c socks }) c in
    elim (Bool-cases (ltb 8 (length socks))) [
      | inl full ↦
          rw (full, connect)
            (store-IsManager m' c (discard_socket socks ws)
              (omega (arith, length-discard-add (sockets m c) ws, sockets_few m c v))
              (ground (arith, get-put c fresh m.abort_events c, eq_iff c c))
              (λ d other. ground (
                arith,
                v d,
                get-put c fresh m.abort_events d,
                get-put c socks m.connections d,
                eq_iff c d,
              ))
              (ground (arith, v c, get-put c fresh m.abort_events c, eq_iff c c)))
      | inr room ↦
          rw (room, connect)
            (λ d. ground (
              arith,
              v d,
              get-put c fresh m.abort_events d,
              get-put c socks m.connections d,
              eq_iff c d,
              add_socket_some (sockets m c) ws,
            ))
    ]

remove-IsManager :
    (m : Manager) (c : String) (ws : ℕ) → IsManager m → IsManager (remove_socket m c ws)
unfolding remove_socket has
remove-IsManager m c ws v = elim (Option-cases (get m.connections c)) [
  | inl no_one ↦ rw (no_one, remove_socket) v
  | inr (socks, known) ↦
      rw (known, remove_socket)
        (store-IsManager m c (discard_socket socks ws)
          (ground (arith, v c, known, length-discard_socket socks ws)) (ground (arith, v c, known))
          (λ d other. v d) (ground (arith, v c)))
]

leave-IsManager :
    (m : Manager) (c : String) (ws : Option ℕ) → IsManager m → IsManager (leave m c ws)
unfolding leave
leave-IsManager m c none v = λ d. ground (arith, v d, get-pop m.connections c d, eq_iff c d)
leave-IsManager m c (some ws) v = remove-IsManager m c ws v

disconnect-IsManager :
    (m : Manager) (c : String) (ws : Option ℕ) → IsManager m → IsManager (disconnect m c ws)
unfolding disconnect has
disconnect-IsManager m c ws v =
    let m' = leave m c ws in
    elim (Bool-cases
      (not (has m'.connections c) && (not (has m'.sessions c) && not (has m'.claimed_turns c)))) [
        | inl last ↦
            rw (last, disconnect) (forget-IsManager m' c (ground arith) (leave-IsManager m c ws v))
        | inr more ↦ rw (more, disconnect) (leave-IsManager m c ws v)
      ]

deregister-IsManager : (m : Manager) (c : String) → IsManager m → IsManager (deregister_session m c)
unfolding deregister_session has
deregister-IsManager m c v = elim (Option-cases (get m.connections c)) [
  | inl left ↦
      rw (left, deregister_session, has)
        (forget-IsManager (record m { sessions = pop m.sessions c }) c left v)
  | inr (socks, stays) ↦ rw (stays, deregister_session, has) v
]

enqueue-IsManager :
    (m : Manager) (c msg : String) → IsManager m → IsManager (enqueue_pending_injection m c msg).0
unfolding enqueue_pending_injection pending
enqueue-IsManager m c msg v d = elim (Bool-cases (leb 20 (length (pending m c)))) [
  | inl full ↦
      rw (full, enqueue_pending_injection)
        (ground (arith, v c, v d, get-put c (pending m c) m.pending_injections d, eq_iff c d))
  | inr room ↦
      rw (room, enqueue_pending_injection)
        (ground (
          arith,
          v d,
          get-put c (pending m c ++ msg ∷ []) m.pending_injections d,
          length-append (pending m c) (msg ∷ []),
          eq_iff c d,
        ))
]

drain-IsManager :
    (m : Manager) (c : String) → IsManager m → IsManager (drain_pending_injections m c).0
unfolding drain_pending_injections
drain-IsManager m c v d = ground (arith, v d, get-pop m.pending_injections c d, eq_iff c d)

perform-IsManager : (a : Action) (m : Manager) → IsManager m → IsManager (perform a m)
unfolding perform claim_turn release_turn evict register_session delegation_gate
    get_session_memories add_session_memory
perform-IsManager (claims c) m v = λ d. ground (arith, v d)
perform-IsManager (releases c) m v = v
perform-IsManager (connects c ws) m v = connect-IsManager m c ws v
perform-IsManager (disconnects c ws) m v = disconnect-IsManager m c ws v
perform-IsManager (evicts c ws) m v = remove-IsManager m c ws v
perform-IsManager (registers c s) m v = v
perform-IsManager (deregisters c) m v = deregister-IsManager m c v
perform-IsManager (gates c) m v = λ d. ground (arith, v d)
perform-IsManager (ensures c) m v = ensure-IsManager m c v
perform-IsManager (signals c reason) m v = signal-IsManager m c reason v
perform-IsManager (resets c) m v = reset-IsManager m c v
perform-IsManager (enqueues c msg) m v = enqueue-IsManager m c msg v
perform-IsManager (drains c) m v = drain-IsManager m c v
perform-IsManager (recalls c) m v = v
perform-IsManager (notes c n) m v = v

run-keeps : (calls : List Action) (m : Manager) → IsManager m → IsManager (run calls m)
unfolding run
run-keeps [] m v = v
run-keeps (a ∷ calls) m v = run-keeps calls (perform a m) (perform-IsManager a m v)

-- After any sequence of calls on a new manager: a conversation with sockets has from one to eight of
-- them, and an abort event; its event is set exactly when a reason is recorded; and at most twenty
-- messages wait for its session.
pub run-IsFineIn : (calls : List Action) (c : String) → IsFineIn (run calls new_manager) c
unfolding new_manager get
run-IsFineIn calls c =
    run-keeps calls new_manager
      (λ c. record { held = tt; stoppable = λ h. cc; attributed = refl; buffered = omega arith }) c
