-- ===== src/Runs/Tests.antt =====
-- The theorems about conversation runs at concrete tables.
use agents_universe.Prelude.Dict.{put}
use agents_universe.Prelude.{
  map, ◌≡◌, refl, Bool, true, false, String, none, some, List, [], ◌∷◌, keep,
}
use agents_universe.Prelude.Text.{codes}
use agents_universe.Runs.{Run, Status, running, completed, failed, interrupted, is_running, Finish}
use agents_universe.Runs.Writes.{
  clearing, left_by, cleared, clears, Write, created, snapshot, finishing, sweep, find_run,
  write_all, find-write_all,
}
use agents_universe.Runs.Recovery.{
  is_missing, user_seq, sequence_of, or_empty, is_interrupted, has_text, is_flagged, recover,
  recover_all, latest_per_conv, landed, clear_older, next_seq, recovered_row, Database,
  is_recoverable, materialize_interrupted_snapshots,
}
use agents_universe.Runs.Recovery.Appends.{Grows, materialize-Grows}
use agents_universe.Runs.Recovery.Cleared.{materialize_clears}

abbrev run_of : String → Status → Run
run_of run_id status = record {
  run_id = run_id;
  conversation_id = "c";
  user_message_id = some "m1";
  status = status;
  streaming_snapshot = some (codes "partial");
  error_message = none;
  tokens_used = none;
  ended_at = none;
}

abbrev two_runs : List Run
two_runs = run_of "r1" completed ∷ run_of "r2" running ∷ []

abbrev failing : Finish
failing = record {
  status = failed;
  error_message = none;
  tokens_used = some 7;
  snapshot = none;
  replace_snapshot = false;
}

abbrev writes : List Write
writes =
    snapshot "r1" (codes "late")
    ∷ finishing "r1" failing 5
    ∷ created "r3" "c" none
    ∷ sweep 9
    ∷ clearing "r1"
    ∷ []

r1_found : find_run two_runs "r1" ≡ some (run_of "r1" completed)
unfolding find_run
r1_found = refl

find-write_all_example :
    find_run (write_all two_runs writes) "r1"
    ≡ some (record (run_of "r1" completed) { streaming_snapshot = none })
unfolding is_running left_by cleared clears
find-write_all_example = find-write_all two_runs writes "r1" (run_of "r1" completed) r1_found refl

abbrev in_order : List Run → List Run
in_order rows = rows

abbrev never : String → Bool
never refs = false

abbrev succeeds : String → Bool
succeeds run_id = true

abbrev fresh_id : String → String
fresh_id run_id = "new"

abbrev crashed : Database
crashed = record {
  runs = run_of "r1" interrupted ∷ run_of "r2" interrupted ∷ [];
  messages =
      record {
        message_id = "m1";
        conversation_id = "c";
        role = "user";
        content = codes "hello";
        knowledge_refs = none;
        sequence_num = 1;
      }
      ∷ [];
}

materialize-Grows_example :
    let (after, n) =
      materialize_interrupted_snapshots in_order never "{}" fresh_id succeeds true crashed in
    Grows in_order never "{}" fresh_id succeeds true crashed.messages after.messages n
materialize-Grows_example = materialize-Grows in_order never "{}" fresh_id succeeds true crashed

recovers_the_latest :
    let (after, n) =
      materialize_interrupted_snapshots in_order never "{}" fresh_id succeeds true crashed in
    (n ≡ 1) × (map (λ m. m.sequence_num) after.messages ≡ 1 ∷ 2 ∷ [])
unfolding materialize_interrupted_snapshots recover_all recover latest_per_conv is_recoverable
    landed is_missing user_seq sequence_of or_empty is_interrupted has_text is_flagged put
    clear_older next_seq recovered_row
recovers_the_latest = (refl, refl)

materialize_clears_example :
    keep is_recoverable
      (materialize_interrupted_snapshots in_order never "{}" fresh_id succeeds true crashed).0.runs
    ≡ []
materialize_clears_example =
    materialize_clears in_order never "{}" fresh_id succeeds crashed (λ x. refl) (λ rows x h. h)
