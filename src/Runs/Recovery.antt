-- ===== src/Runs/Recovery.antt =====
-- `materialize_interrupted_snapshots` of conversation_runs.py. The order of a query, the JSON of
-- `knowledge_refs`, fresh message ids and the outcome of a commit are parameters.
pub mod Appends
pub mod Cleared
use agents_universe.Prelude.{
  ℕ, zero, suc, ◌+◌, Bool, true, false, ◌&&◌, ◌||◌, not, String, Option, none, some, List, [], ◌∷◌,
  ◌++◌, map, ltb, if◌then◌else◌, keep,
}
use text.Mathlib.Text.{◌==◌}
use agents_universe.Prelude.Text.{Text, contains}
use agents_universe.Prelude.Dict.{Dict, put}
use agents_universe.Runs.{Run, Status, running, completed, failed, interrupted, update_where}

pub record MessageRow : Type 0 where
  pub message_id : String
  pub conversation_id : String
  pub role : String
  pub content : Text
  pub knowledge_refs : Option String
  pub sequence_num : ℕ

pub record Database : Type 0 where
  pub runs : List Run
  pub messages : List MessageRow

unfoldable pub is_interrupted : Status → Bool
is_interrupted interrupted = true
is_interrupted running = false
is_interrupted completed = false
is_interrupted failed = false

unfoldable pub has_text : Option Text → Bool
has_text none = false
has_text (some []) = false
has_text (some (c ∷ t)) = true

-- The `where` of the first query.
unfoldable pub is_recoverable : Run → Bool
unfolding is_interrupted has_text
is_recoverable r = is_interrupted r.status && has_text r.streaming_snapshot

-- The run to recover in a conversation.
pub record Pending : Type 0 where
  pub run_id : String
  pub user_message_id : Option String
  pub snapshot : Text

unfoldable pub or_empty : Option Text → Text
or_empty none = []
or_empty (some t) = t

-- A later run of the same conversation takes the place of an earlier one.
unfoldable pub latest_per_conv : List Run → Dict Pending → Dict Pending
unfolding or_empty
latest_per_conv [] latest = latest
latest_per_conv (r ∷ rs) latest = latest_per_conv rs (
    put latest r.conversation_id (record {
      run_id = r.run_id;
      user_message_id = r.user_message_id;
      snapshot = or_empty r.streaming_snapshot;
    }))

unfoldable pub sequence_of : List MessageRow → String → Option ℕ
sequence_of [] message_id = none
sequence_of (m ∷ ms) message_id =
    if m.message_id == message_id then some m.sequence_num else sequence_of ms message_id

-- `if user_message_id:`
unfoldable pub user_seq : List MessageRow → Option String → Option ℕ
unfolding sequence_of
user_seq ms none = none
user_seq ms (some message_id) = if message_id == "" then none else sequence_of ms message_id

unfoldable pub next_seq : List MessageRow → String → ℕ → ℕ
next_seq [] conversation_id highest = suc highest
next_seq (m ∷ ms) conversation_id highest = next_seq ms conversation_id (
    if m.conversation_id == conversation_id && ltb highest m.sequence_num
    then m.sequence_num
    else highest)

unfoldable pub clear_snapshot : String → List Run → List Run
clear_snapshot run_id rows =
    (update_where (λ r. r.run_id == run_id) (λ r. record r { streaming_snapshot = none }) rows).0

-- `run_id in run_ids`
unfoldable pub elem : String → List String → Bool
elem x [] = false
elem x (y ∷ ys) = y == x || elem x ys

unfoldable pub clear_all : List String → List Run → List Run
clear_all run_ids rows =
    (update_where (λ r. elem r.run_id run_ids) (λ r. record r { streaming_snapshot = none }) rows).0

-- `order_by`; the flag in the JSON of a non-empty text; the JSON of the new rows.
module _ (order_by : List Run → List Run) (flagged : String → Bool)
    (interrupted_refs : String) where
  -- A fresh id for the row of a run, and whether the commit for the run succeeds.
  module _ (uuid : String → String) (commits : String → Bool) (commits_older : Bool) where
    unfoldable pub is_flagged : Option String → Bool
    is_flagged none = false
    is_flagged (some refs) = if refs == "" then false else flagged refs

    -- The loop over the replies behind the user's message.
    unfoldable pub landed : List MessageRow → String → ℕ → Text → Bool
    unfolding is_flagged
    landed [] conversation_id seq snapshot = false
    landed (m ∷ ms) conversation_id seq snapshot =
        (m.conversation_id == conversation_id
          && (m.role == "assistant" && ltb seq m.sequence_num)
          && (not (is_flagged m.knowledge_refs) || contains m.content snapshot))
        || landed ms conversation_id seq snapshot

    unfoldable pub is_missing : List MessageRow → String → Option ℕ → Text → Bool
    is_missing ms conversation_id none snapshot = true
    is_missing ms conversation_id (some seq) snapshot = not (landed ms conversation_id seq snapshot)

    unfoldable pub recovered_row : List MessageRow → String → Pending → MessageRow
    recovered_row ms conversation_id p = record {
      message_id = uuid p.run_id;
      conversation_id = conversation_id;
      role = "assistant";
      content = p.snapshot;
      knowledge_refs = some interrupted_refs;
      sequence_num = next_seq ms conversation_id 0;
    }

    -- One transaction of the loop; a failure rolls it back.
    unfoldable pub recover : Database → String × Pending → Database × ℕ
    unfolding is_missing user_seq
    recover db (conversation_id, p) =
        if not (commits p.run_id)
        then (db, 0)
        else if is_missing db.messages conversation_id (user_seq db.messages p.user_message_id)
            p.snapshot
        then (
          record {
            runs = clear_snapshot p.run_id db.runs;
            messages = db.messages ++ recovered_row db.messages conversation_id p ∷ [];
          },
          1,
        )
        else (record db { runs = clear_snapshot p.run_id db.runs }, 0)

    unfoldable pub recover_all : Database → Dict Pending → Database × ℕ
    recover_all db [] = (db, 0)
    recover_all db (entry ∷ entries) =
        let (db', n) = recover db entry in let (db'', k) = recover_all db' entries in (db'', n + k)

    unfoldable pub pending_ids : Dict Pending → List String
    pending_ids [] = []
    pending_ids ((conversation_id, p) ∷ entries) = p.run_id ∷ pending_ids entries

    unfoldable pub clear_older : List String → List String → Database → Database
    clear_older all_run_ids latest_run_ids db =
        if commits_older
        then record db {
          runs = clear_all (keep (λ x. not (elem x latest_run_ids)) all_run_ids) db.runs;
        }
        else db

    unfoldable pub materialize_interrupted_snapshots : Database → Database × ℕ
    materialize_interrupted_snapshots db =
        let stale_runs = order_by (keep is_recoverable db.runs) in
        let latest = latest_per_conv stale_runs [] in
        let (db', n) = recover_all db latest in
        (clear_older (map (λ r. r.run_id) stale_runs) (pending_ids latest) db', n)
