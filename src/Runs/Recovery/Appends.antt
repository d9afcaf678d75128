-- ===== src/Runs/Recovery/Appends.antt =====
-- What the recovery writes into the message history.
use agents_universe.Prelude.{
  ℕ, suc, ◌+◌, ◌<◌, ◌≡◌, refl, sym, Bool, ◌&&◌, String, some, List, [], ◌∷◌, ◌++◌, keep, map, All,
  arith, Bool-cases, inl, inr, eq_iff, ltb, if◌then◌else◌,
}
use text.Mathlib.Text.{◌==◌}
use agents_universe.Prelude.Dict.{Dict}
use agents_universe.Runs.{Run}
use agents_universe.Runs.Recovery.{
  MessageRow, Database, Pending, next_seq, recovered_row, recover, is_missing, user_seq,
  recover_all, clear_older, pending_ids, latest_per_conv, is_recoverable,
  materialize_interrupted_snapshots,
}

-- The message has the next number of its conversation: a higher one than each message before it.
unfoldable pub IsNewest : List MessageRow → MessageRow → Type 0
IsNewest ms new =
    All (λ m. (m.conversation_id ≡ new.conversation_id) → m.sequence_num < new.sequence_num) ms

next_seq_le :
    (ms : List MessageRow) (conversation_id : String) (highest : ℕ)
    → highest < next_seq ms conversation_id highest
unfolding next_seq
next_seq_le [] conversation_id highest = omega arith
next_seq_le (m ∷ ms) conversation_id highest =
    let up =
      if m.conversation_id == conversation_id && ltb highest m.sequence_num
      then m.sequence_num
      else highest in
    ground (arith, next_seq_le ms conversation_id up)

next_seq-All :
    (ms : List MessageRow) (conversation_id : String) (highest : ℕ)
    → All
        (λ m.
          (m.conversation_id ≡ conversation_id)
          → m.sequence_num < next_seq ms conversation_id highest)
        ms
unfolding next_seq
next_seq-All [] conversation_id highest = tt
next_seq-All (m ∷ ms) conversation_id highest =
    let up =
      if m.conversation_id == conversation_id && ltb highest m.sequence_num
      then m.sequence_num
      else highest in
    (
      (λ same.
          ground
            (arith, eq_iff m.conversation_id conversation_id, next_seq_le ms conversation_id up)),
      next_seq-All ms conversation_id up,
    )

module _ (order_by : List Run → List Run) (flagged : String → Bool)
    (interrupted_refs : String) where
  module _ (uuid : String → String) (commits : String → Bool) (commits_older : Bool) where
    abbrev row : List MessageRow → String → Pending → MessageRow
    row = recovered_row order_by flagged interrupted_refs uuid commits commits_older

    -- A history that grew by recovered rows, one behind the other.
    pub data Grows : List MessageRow → List MessageRow → ℕ → Type 0 where
      same : {ms : List MessageRow} → Grows ms ms 0
      more :
          {ms after : List MessageRow} {n : ℕ} (new : MessageRow)
          → new.role ≡ "assistant"
          → new.knowledge_refs ≡ some interrupted_refs
          → IsNewest ms new
          → Grows (ms ++ new ∷ []) after n
          → Grows ms after (suc n)

    Grows-eq : {a b : List MessageRow} {n k : ℕ} → n ≡ k → Grows a b n → Grows a b k
    Grows-eq e g = rw (sym e) g

    Grows-trans :
        {a b c : List MessageRow} {n k : ℕ} → Grows a b n → Grows b c k → Grows a c (n + k)
    Grows-trans same g = Grows-eq (omega arith) g
    Grows-trans (more new role refs newest g) h =
        Grows-eq (omega arith) (more new role refs newest (Grows-trans g h))

    row-IsNewest :
        (ms : List MessageRow) (conversation_id : String) (p : Pending)
        → IsNewest ms (row ms conversation_id p)
    unfolding recovered_row IsNewest
    row-IsNewest ms conversation_id p = next_seq-All ms conversation_id 0

    recover-Grows :
        (db : Database) (entry : String × Pending)
        → let (after, n) =
            recover order_by flagged interrupted_refs uuid commits commits_older db entry in
          Grows db.messages after.messages n
    unfolding recover recovered_row
    recover-Grows db (conversation_id, p) = elim (Bool-cases (commits p.run_id)) [
      | inr failed ↦ rw failed same
      | inl committed ↦
          elim (Bool-cases (
            is_missing order_by flagged interrupted_refs uuid commits commits_older db.messages
              conversation_id (user_seq db.messages p.user_message_id) p.snapshot)) [
                | inl missing ↦
                    rw (committed, missing)
                      (more (row db.messages conversation_id p) refl refl
                        (row-IsNewest db.messages conversation_id p) same)
                | inr landed ↦ rw (committed, landed) same
              ]
    ]

    recover_all-Grows :
        (db : Database) (entries : Dict Pending)
        → let (after, n) =
            recover_all order_by flagged interrupted_refs uuid commits commits_older db entries in
          Grows db.messages after.messages n
    unfolding recover_all
    recover_all-Grows db [] = same
    recover_all-Grows db (entry ∷ entries) =
        let db' =
          (recover order_by flagged interrupted_refs uuid commits commits_older db entry).0 in
        Grows-trans (recover-Grows db entry) (recover_all-Grows db' entries)

    clear_older-messages :
        (all_run_ids latest_run_ids : List String) (db : Database)
        → (clear_older order_by flagged interrupted_refs uuid commits commits_older all_run_ids
            latest_run_ids db).messages
          ≡ db.messages
    unfolding clear_older
    clear_older-messages all_run_ids latest_run_ids db = ground arith

    -- Whatever commits fail, the recovery only adds rows behind the message history, as many as it
    -- reports: assistant rows with the interrupted flag, each with a number above all others of its
    -- conversation.
    pub materialize-Grows :
        (db : Database)
        → let (after, n) =
            materialize_interrupted_snapshots order_by flagged interrupted_refs uuid commits
              commits_older db in
          Grows db.messages after.messages n
    unfolding materialize_interrupted_snapshots
    materialize-Grows db =
        let stale_runs = order_by (keep is_recoverable db.runs) in
        let latest = latest_per_conv stale_runs [] in
        rw
          (clear_older-messages (map (λ r. r.run_id) stale_runs)
            (pending_ids order_by flagged interrupted_refs uuid commits commits_older latest)
            (recover_all order_by flagged interrupted_refs uuid commits commits_older db latest).0)
          (recover_all-Grows db latest)
