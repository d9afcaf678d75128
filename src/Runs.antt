-- ===== src/Runs.antt =====
-- packages/api/src/api/services/conversation_runs.py: the rows of `conversation_runs`, and the
-- writes of a run's life. A table is the list of its rows; a write with a `where` maps over it.
pub mod Recovery
pub mod Writes
mod Tests
use agents_universe.Prelude.{
  ℕ, suc, ◌+◌, ◌-◌, Bool, true, false, ◌&&◌, String, Option, none, some, List, [], ◌∷◌, ◌++◌, ltb,
  length, drop, if◌then◌else◌, take,
}
use text.Mathlib.Text.{◌==◌}
use agents_universe.Prelude.Text.{Text, codes}

pub data Status : Type 0 where
  running completed failed interrupted : Status

unfoldable pub is_running : Status → Bool
is_running running = true
is_running completed = false
is_running failed = false
is_running interrupted = false

pub record Run : Type 0 where
  pub run_id : String
  pub conversation_id : String
  pub user_message_id : Option String
  pub status : Status
  pub streaming_snapshot : Option Text
  pub error_message : Option Text
  pub tokens_used : Option ℕ
  pub ended_at : Option ℕ

abbrev pub snapshot_max_chars : ℕ
snapshot_max_chars = 50_000

-- `text[-_SNAPSHOT_MAX_CHARS:]`
unfoldable pub cap : Text → Text
cap text = drop (length text - snapshot_max_chars) text

-- The new row has the run id that the database gives it.
unfoldable pub create_run : List Run → String → String → Option String → List Run
create_run rows run_id conversation_id user_message_id =
    rows
    ++ record {
      run_id = run_id;
      conversation_id = conversation_id;
      user_message_id = user_message_id;
      status = running;
      streaming_snapshot = none;
      error_message = none;
      tokens_used = none;
      ended_at = none;
    }
      ∷ []

-- `update(ConversationRun).where(p).values(f)`, with the `rowcount`.
unfoldable pub update_where : (Run → Bool) → (Run → Run) → List Run → List Run × ℕ
update_where p f [] = ([], 0)
update_where p f (r ∷ rows) =
    let (rows', n) = update_where p f rows in if p r then (f r ∷ rows', suc n) else (r ∷ rows', n)

unfoldable pub is_live : String → Run → Bool
is_live run_id r = r.run_id == run_id && is_running r.status

unfoldable pub update_run_snapshot : List Run → String → Text → List Run
update_run_snapshot rows run_id text =
    (update_where (is_live run_id) (λ r. record r { streaming_snapshot = some (cap text) }) rows).0

-- `_cap(snapshot) if snapshot`
capped : Option Text → Option Text
capped none = none
capped (some []) = none
capped (some (c ∷ t)) = some (cap (c ∷ t))

-- The snapshot that `values` sets, or the old one.
next_snapshot : Bool → Option Text → Option Text → Option Text
next_snapshot true snapshot old = capped snapshot
next_snapshot false snapshot old = elim (capped snapshot) [ none ↦ old | some t ↦ some t ]

next_error : Option Text → Option Text → Option Text
next_error none old = old
next_error (some message) old = some (take 2000 message)

next_tokens : Option ℕ → Option ℕ → Option ℕ
next_tokens none old = old
next_tokens (some n) old = some n

-- The arguments of `finish_run` behind the run id.
pub record Finish : Type 0 where
  pub status : Status
  pub error_message : Option Text
  pub tokens_used : Option ℕ
  pub snapshot : Option Text
  pub replace_snapshot : Bool

unfoldable pub finished : Finish → ℕ → Run → Run
unfolding next_snapshot capped next_error next_tokens
finished a now r = record r {
  status = a.status;
  ended_at = some now;
  streaming_snapshot = next_snapshot a.replace_snapshot a.snapshot r.streaming_snapshot;
  error_message = next_error a.error_message r.error_message;
  tokens_used = next_tokens a.tokens_used r.tokens_used;
}

unfoldable pub finish_run : List Run → String → Finish → ℕ → List Run × Bool
finish_run rows run_id a now =
    let (rows', n) = update_where (is_live run_id) (finished a now) rows in (rows', ltb 0 n)

unfoldable pub stale : ℕ → Run → Run
stale now r = record r {
  status = interrupted;
  ended_at = some now;
  error_message = some (codes "Run interrupted by process restart");
}

unfoldable pub interrupt_stale_runs : List Run → ℕ → List Run × ℕ
interrupt_stale_runs rows now = update_where (λ r. is_running r.status) (stale now) rows
