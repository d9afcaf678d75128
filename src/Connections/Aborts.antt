-- ===== src/Connections/Aborts.antt =====
-- A stop reaches the turn that runs.
use agents_universe.Prelude.{
  ℕ, ◌≡◌, true, false, String, Option, none, some, List, [], ◌∷◌, Option-cases, inl, inr, ap, arith,
  eq_iff,
}
use agents_universe.Prelude.Dict.{get, put, get-put, get-pop}
use agents_universe.Connections.{
  Event, Manager, has, claim_turn, release_turn, ensure_abort_event, set_default, signal_abort,
  reset_abort, forget, get_abort_reason, connect, leave, disconnect, evict, register_session,
  deregister_session, delegation_gate, enqueue_pending_injection, drain_pending_injections,
  get_session_memories, add_session_memory, sockets, add_socket, discard_socket,
}
use agents_universe.Connections.Actions.{
  Action, claims, releases, connects, disconnects, evicts, registers, deregisters, gates, ensures,
  signals, resets, enqueues, drains, recalls, notes, perform, run, ends, never,
}
use agents_universe.Connections.Turns.{store_only, leave_only}

-- The turn of the conversation is claimed, and the event that it waits on is set, for that reason.
pub record Stopped (c : String) (id : ℕ) (reason : String) (m : Manager) : Type 0 where
  pub claimed : has m.claimed_turns c ≡ true
  pub event : get m.abort_events c ≡ some (record { id = id; is_set = true })
  pub cause : get_abort_reason m c ≡ some reason

module _ (c : String) (id : ℕ) (reason : String) where
  connect-Stopped :
      (m : Manager) (d : String) (ws : ℕ)
      → Stopped c id reason m
      → Stopped c id reason (connect m d ws).0
  unfolding connect ensure_abort_event has get_abort_reason
  connect-Stopped m d ws t =
      let socks = add_socket (sockets m d) ws in
      let m' = ensure_abort_event (record m { connections = put m.connections d socks }) d in
      let only = store_only m' d (discard_socket socks ws) in
      ground (
        arith,
        ap (λ (m : Manager). m.claimed_turns) only,
        ap (λ (m : Manager). m.abort_events) only,
        ap (λ (m : Manager). m.abort_reasons) only,
        get-put d (record { id = m.unused; is_set = false }) m.abort_events c,
        eq_iff d c,
      )

  leave-Stopped :
      (m : Manager) (d : String) (ws : Option ℕ)
      → Stopped c id reason m
      → Stopped c id reason (leave m d ws)
  unfolding has get_abort_reason
  leave-Stopped m d ws t =
      let only = leave_only m d ws in
      ground (
        arith,
        ap (λ (m : Manager). m.claimed_turns) only,
        ap (λ (m : Manager). m.abort_events) only,
        ap (λ (m : Manager). m.abort_reasons) only,
      )

  disconnect-Stopped :
      (m : Manager) (d : String) (ws : Option ℕ)
      → Stopped c id reason m
      → Stopped c id reason (disconnect m d ws)
  unfolding disconnect forget has get_abort_reason
  disconnect-Stopped m d ws t =
      let m' = leave m d ws in
      ground (
        arith,
        leave-Stopped m d ws t,
        get-pop m'.abort_events d c,
        get-pop m'.abort_reasons d c,
        eq_iff d c,
        λ (e : d ≡ c). ap (λ k. has m'.claimed_turns k) e,
      )

  signal-Stopped :
      (m : Manager) (d r : String)
      → Stopped c id reason m
      → Stopped c id reason (signal_abort m d r)
  unfolding signal_abort set_default has get_abort_reason
  signal-Stopped m d r t = elim (Option-cases (get m.abort_events d)) [
    | inl no_event ↦ rw (no_event, signal_abort) t
    | inr (e, known) ↦
        rw (known, signal_abort)
          (ground (
            arith,
            t,
            known,
            get-put d (record e { is_set = true }) m.abort_events c,
            get-put d r m.abort_reasons c,
            eq_iff d c,
          ))
  ]

  perform-Stopped :
      (a : Action) (m : Manager)
      → ends c a ≡ false
      → Stopped c id reason m
      → Stopped c id reason (perform a m)
  unfolding ends perform has get_abort_reason claim_turn release_turn evict register_session
      deregister_session forget reset_abort ensure_abort_event delegation_gate
      enqueue_pending_injection drain_pending_injections get_session_memories add_session_memory
      leave
  perform-Stopped (claims d) m go t = ground (arith, get-put d tt m.claimed_turns c, eq_iff d c)
  perform-Stopped (releases d) m go t = ground (arith, get-pop m.claimed_turns d c, eq_iff d c)
  perform-Stopped (connects d ws) m go t = connect-Stopped m d ws t
  perform-Stopped (disconnects d ws) m go t = disconnect-Stopped m d ws t
  perform-Stopped (evicts d ws) m go t = leave-Stopped m d (some ws) t
  perform-Stopped (registers d s) m go t = ground arith
  perform-Stopped (deregisters d) m go t =
      ground (arith, get-pop m.abort_events d c, get-pop m.abort_reasons d c, eq_iff d c)
  perform-Stopped (gates d) m go t = ground arith
  perform-Stopped (ensures d) m go t =
      ground
        (arith, get-put d (record { id = m.unused; is_set = false }) m.abort_events c, eq_iff d c)
  perform-Stopped (signals d r) m go t = signal-Stopped m d r t
  perform-Stopped (resets d) m go t = elim (Option-cases (get m.abort_events d)) [
    | inl no_event ↦ rw (no_event, reset_abort) t
    | inr (e, known) ↦
        rw (known, reset_abort)
          (ground (
            arith,
            t,
            get-put d (record e { is_set = false }) m.abort_events c,
            get-pop m.abort_reasons d c,
            eq_iff d c,
          ))
  ]
  perform-Stopped (enqueues d msg) m go t = ground arith
  perform-Stopped (drains d) m go t = ground arith
  perform-Stopped (recalls d) m go t = ground arith
  perform-Stopped (notes d n) m go t = ground arith

  run-Stopped :
      (calls : List Action) (m : Manager)
      → never (ends c) calls ≡ true
      → Stopped c id reason m
      → Stopped c id reason (run calls m)
  unfolding run never
  run-Stopped [] m go t = t
  run-Stopped (a ∷ calls) m go t =
      run-Stopped calls (perform a m) (ground arith) (perform-Stopped a m (ground arith) t)

-- A stop reaches the turn: where the turn of a conversation is claimed and nobody has stopped it yet,
-- a stop sets the event that the turn waits on, and the event stays there, set, with the reason of
-- that stop, whatever else happens before the turn is released, its session is deregistered or the
-- abort is reset: also when all sockets leave.
pub stop_reaches :
    (m : Manager) (c reason : String) (e : Event) (calls : List Action)
    → has m.claimed_turns c ≡ true
    → get m.abort_events c ≡ some e
    → get_abort_reason m c ≡ none
    → never (ends c) calls ≡ true
    → Stopped c e.id reason (run calls (signal_abort m c reason))
unfolding signal_abort set_default has get_abort_reason
stop_reaches m c reason e calls claimed known fresh go =
    run-Stopped c e.id reason calls (signal_abort m c reason) go (
      rw (known, signal_abort)
        (ground (
          arith,
          claimed,
          fresh,
          get-put c (record e { is_set = true }) m.abort_events c,
          get-put c reason m.abort_reasons c,
          eq_iff c c,
        )))
