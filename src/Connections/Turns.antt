-- ===== src/Connections/Turns.antt =====
-- When a turn of a conversation can be claimed.
use agents_universe.Prelude.{
  ℕ, ◌≡◌, refl, Bool, false, ◌&&◌, ◌||◌, not, String, Option, none, some, List, [], ◌∷◌,
  Option-cases, inl, inr, ap, sym, ◌∙◌, arith, eq_iff,
}
use agents_universe.Prelude.Dict.{get, put, get-put, get-pop}
use text.Mathlib.Text.{◌==◌ as str_eq}
use agents_universe.Connections.{
  Manager, new_manager, has, claim_turn, release_turn, ensure_abort_event, signal_abort,
  reset_abort, forget, store_sockets, connect, remove_socket, leave, disconnect, evict,
  register_session, deregister_session, delegation_gate, enqueue_pending_injection,
  drain_pending_injections, get_session_memories, add_session_memory, sockets, add_socket,
  discard_socket,
}
use agents_universe.Connections.Actions.{
  Action, claims, releases, connects, disconnects, evicts, registers, deregisters, gates, ensures,
  signals, resets, enqueues, drains, recalls, notes, perform, run,
}

-- The last claim or release of the conversation was a claim, or, if there is none, it was claimed
-- before.
unfoldable pub claimed_after : String → Bool → List Action → Bool
claimed_after c b [] = b
claimed_after c b (claims d ∷ calls) = claimed_after c (str_eq d c || b) calls
claimed_after c b (releases d ∷ calls) = claimed_after c (not (str_eq d c) && b) calls
claimed_after c b (a ∷ calls) = claimed_after c b calls

-- The sockets are stored without a change of anything else.
pub store_only :
    (m : Manager) (c : String) (socks : List ℕ)
    → store_sockets m c socks ≡ record m { connections = (store_sockets m c socks).connections }
unfolding store_sockets
store_only m c [] = refl
store_only m c (ws ∷ socks) = refl

pub remove_only :
    (m : Manager) (c : String) (ws : ℕ)
    → remove_socket m c ws ≡ record m { connections = (remove_socket m c ws).connections }
unfolding remove_socket
remove_only m c ws = elim (Option-cases (get m.connections c)) [
  | inl no_one ↦ rw (no_one, remove_socket) refl
  | inr (socks, known) ↦ rw (known, remove_socket) (store_only m c (discard_socket socks ws))
]

pub leave_only :
    (m : Manager) (c : String) (ws : Option ℕ)
    → leave m c ws ≡ record m { connections = (leave m c ws).connections }
unfolding leave
leave_only m c none = refl
leave_only m c (some ws) = remove_only m c ws

leave-claims :
    (m : Manager) (c : String) (ws : Option ℕ) → (leave m c ws).claimed_turns ≡ m.claimed_turns
leave-claims m c ws = ap (λ m. m.claimed_turns) (leave_only m c ws)

disconnect-claims :
    (m : Manager) (c : String) (ws : Option ℕ) → (disconnect m c ws).claimed_turns ≡ m.claimed_turns
unfolding disconnect forget
disconnect-claims m c ws = ground (arith, leave-claims m c ws)

connect-claims :
    (m : Manager) (c : String) (ws : ℕ) → (connect m c ws).0.claimed_turns ≡ m.claimed_turns
unfolding connect ensure_abort_event
connect-claims m c ws =
    let socks = add_socket (sockets m c) ws in
    let m' = ensure_abort_event (record m { connections = put m.connections c socks }) c in
    ground
      (arith, ap (λ (m : Manager). m.claimed_turns) (store_only m' c (discard_socket socks ws)))

signal-claims :
    (m : Manager) (c reason : String) → (signal_abort m c reason).claimed_turns ≡ m.claimed_turns
unfolding signal_abort
signal-claims m c reason = ground arith

reset-claims : (m : Manager) (c : String) → (reset_abort m c).claimed_turns ≡ m.claimed_turns
unfolding reset_abort
reset-claims m c = ground arith

ensure-claims :
    (m : Manager) (c : String) → (ensure_abort_event m c).claimed_turns ≡ m.claimed_turns
unfolding ensure_abort_event
ensure-claims m c = ground arith

deregister-claims :
    (m : Manager) (c : String) → (deregister_session m c).claimed_turns ≡ m.claimed_turns
unfolding deregister_session forget
deregister-claims m c = ground arith

gate-claims : (m : Manager) (c : String) → (delegation_gate m c).0.claimed_turns ≡ m.claimed_turns
unfolding delegation_gate
gate-claims m c = ground arith

enqueue-claims :
    (m : Manager) (c msg : String)
    → (enqueue_pending_injection m c msg).0.claimed_turns ≡ m.claimed_turns
unfolding enqueue_pending_injection
enqueue-claims m c msg = ground arith

has-claim_turn :
    (m : Manager) (c d : String)
    → has (claim_turn m d).0.claimed_turns c ≡ (str_eq d c || has m.claimed_turns c)
unfolding claim_turn has
has-claim_turn m c d = ground (arith, get-put d tt m.claimed_turns c, eq_iff d c)

has-release_turn :
    (m : Manager) (c d : String)
    → has (release_turn m d).claimed_turns c ≡ (not (str_eq d c) && has m.claimed_turns c)
unfolding release_turn has
has-release_turn m c d = ground (arith, get-pop m.claimed_turns d c, eq_iff d c)

perform-claims :
    (c : String) (a : Action) (calls : List Action) (m : Manager)
    → claimed_after c (has m.claimed_turns c) (a ∷ calls)
      ≡ claimed_after c (has (perform a m).claimed_turns c) calls
unfolding claimed_after perform evict register_session drain_pending_injections get_session_memories
    add_session_memory
perform-claims c (claims d) calls m = rw (has-claim_turn m c d)
perform-claims c (releases d) calls m = rw (has-release_turn m c d)
perform-claims c (connects d ws) calls m = rw (connect-claims m d ws)
perform-claims c (disconnects d ws) calls m = rw (disconnect-claims m d ws)
perform-claims c (evicts d ws) calls m =
    rw (ap (λ (m : Manager). m.claimed_turns) (remove_only m d ws))
perform-claims c (registers d s) calls m = refl
perform-claims c (deregisters d) calls m = rw (deregister-claims m d)
perform-claims c (gates d) calls m = rw (gate-claims m d)
perform-claims c (ensures d) calls m = rw (ensure-claims m d)
perform-claims c (signals d reason) calls m = rw (signal-claims m d reason)
perform-claims c (resets d) calls m = rw (reset-claims m d)
perform-claims c (enqueues d msg) calls m = rw (enqueue-claims m d msg)
perform-claims c (drains d) calls m = refl
perform-claims c (recalls d) calls m = refl
perform-claims c (notes d n) calls m = refl

run-claims :
    (c : String) (calls : List Action) (m : Manager)
    → has (run calls m).claimed_turns c ≡ claimed_after c (has m.claimed_turns c) calls
unfolding run claimed_after
run-claims c [] m = refl
run-claims c (a ∷ calls) m = run-claims c calls (perform a m) ∙ sym (perform-claims c a calls m)

-- After any calls on a new manager, a claim of a conversation succeeds exactly when the last of its
-- claims and releases, if there was one, was a release.
pub claim-run :
    (c : String) (calls : List Action)
    → (claim_turn (run calls new_manager) c).1 ≡ not (claimed_after c false calls)
unfolding claim_turn new_manager has get
claim-run c calls = ground (arith, run-claims c calls new_manager)
