-- ===== src/Connections/Actions.antt =====
-- The life of a manager as a sequence of calls. Each runs to its end without a wait inside its lock, so
-- that the calls of concurrent tasks come one after the other, in any order.
use agents_universe.Prelude.{ℕ, Bool, true, false, String, Option, List, [], ◌∷◌}
use text.Mathlib.Text.{◌==◌ as str_eq}
use agents_universe.Connections.{
  Manager, SessionRef, Note, claim_turn, release_turn, ensure_abort_event, signal_abort,
  reset_abort, connect, disconnect, evict, register_session, deregister_session, delegation_gate,
  enqueue_pending_injection, drain_pending_injections, get_session_memories, add_session_memory,
}

pub data Action : Type 0 where
  claims : String → Action
  releases : String → Action
  connects : String → ℕ → Action
  disconnects : String → Option ℕ → Action
  evicts : String → ℕ → Action
  registers : String → SessionRef → Action
  deregisters : String → Action
  gates : String → Action
  ensures : String → Action
  signals : String → String → Action
  resets : String → Action
  enqueues : String → String → Action
  drains : String → Action
  recalls : String → Action
  notes : String → Note → Action

unfoldable pub perform : Action → Manager → Manager
perform (claims c) m = (claim_turn m c).0
perform (releases c) m = release_turn m c
perform (connects c ws) m = (connect m c ws).0
perform (disconnects c ws) m = disconnect m c ws
perform (evicts c ws) m = evict m c ws
perform (registers c s) m = register_session m c s
perform (deregisters c) m = deregister_session m c
perform (gates c) m = (delegation_gate m c).0
perform (ensures c) m = ensure_abort_event m c
perform (signals c reason) m = signal_abort m c reason
perform (resets c) m = reset_abort m c
perform (enqueues c msg) m = (enqueue_pending_injection m c msg).0
perform (drains c) m = (drain_pending_injections m c).0
perform (recalls c) m = (get_session_memories m c).0
perform (notes c n) m = add_session_memory m c n

unfoldable pub run : List Action → Manager → Manager
run [] m = m
run (a ∷ calls) m = run calls (perform a m)

-- The call ends the turn of the conversation, or a part of it.
unfoldable pub ends : String → Action → Bool
ends c (releases d) = str_eq d c
ends c (deregisters d) = str_eq d c
ends c (resets d) = str_eq d c
ends c a = false

unfoldable pub never : (Action → Bool) → List Action → Bool
never p [] = true
never p (a ∷ calls) = elim (p a) [ true ↦ false | false ↦ never p calls ]
