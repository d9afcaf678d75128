-- ===== src/Connections/Tests.antt =====
-- The connection manager on small inputs.
use agents_universe.Prelude.{◌≡◌, refl, true, false, not, none, List, [], ◌∷◌, ◌==◌, keep}
use agents_universe.Connections.{
  new_manager, claim_turn, signal_abort, send, sockets, connect, disconnect, has, get_abort_reason,
  ensure_abort_event, add_socket, has_socket,
}
use agents_universe.Prelude.Dict.{get, put, pop}
use agents_universe.Connections.Actions.{
  Action, claims, releases, connects, disconnects, signals, perform, run, ends, never,
}
use agents_universe.Connections.Invariant.{IsFineIn, run-IsFineIn}
use agents_universe.Connections.Turns.{claimed_after, claim-run}
use agents_universe.Connections.Aborts.{Stopped, stop_reaches}
use agents_universe.Connections.Sends.{any_delivered, send_lem}

abbrev calls : List Action
calls = connects "c" 1 ∷ connects "c" 2 ∷ claims "c" ∷ []

run-IsFineIn_example : IsFineIn (run (signals "c" "stop" ∷ calls) new_manager) "c"
run-IsFineIn_example = run-IsFineIn (signals "c" "stop" ∷ calls) "c"

claim-run_example :
    (claim_turn (run (releases "d" ∷ calls) new_manager) "c").1
    ≡ not (claimed_after "c" false (releases "d" ∷ calls))
claim-run_example = claim-run "c" (releases "d" ∷ calls)

stop_reaches_example : Stopped "c" 0 "ws_abort_frame" (
    run
      (disconnects "c" none ∷ releases "d" ∷ [])
      (signal_abort (run calls new_manager) "c" "ws_abort_frame"))
unfolding run perform connect disconnect claim_turn has get put pop new_manager get_abort_reason
    ends never ensure_abort_event sockets add_socket has_socket
stop_reaches_example =
    stop_reaches (run calls new_manager) "c" "ws_abort_frame" (record { id = 0; is_set = false })
      (disconnects "c" none ∷ releases "d" ∷ []) refl refl refl refl

send_lem_example :
    (sockets (send (λ ws. ws == 2) true (run calls new_manager) "c").0 "c"
      ≡ keep (λ ws. ws == 2) (sockets (run calls new_manager) "c"))
    × ((send (λ ws. ws == 2) true (run calls new_manager) "c").1
        ≡ any_delivered (λ ws. ws == 2) (sockets (run calls new_manager) "c"))
    × (send (λ ws. ws == 2) false (run calls new_manager) "c" ≡ (run calls new_manager, false))
send_lem_example = send_lem (λ ws. ws == 2) (run calls new_manager) "c"
