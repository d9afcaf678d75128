-- ===== src/ScheduledRuns/Replies/Scored.antt =====
-- When a turn counts as completed.
use agents_universe.Prelude.{
  ◌≡◌, ◌↔◌, refl, true, false, Option, none, some, [], ◌∷◌, arith, Bool-cases, Option-cases, inl,
  inr,
}
use agents_universe.Prelude.Text.{Text}
use agents_universe.ScheduledRuns.{completes}
use agents_universe.ScheduledRuns.Replies.{
  EndFrame, Transport, MessageRow, Parsed, Failure, interrupted, errored, truthy, refs_of,
  says_error, says_interrupted, is_stop, or_blank, failure_of, reply_of, last_reply, failed_with,
  is_blank, score, agent_outcome,
}

-- The turn reported no error, ended with the id of a message that was written, was not stopped, and
-- that message has a text and no mark of an interruption or of an error.
pub record IsReplied (rows : Text → Option MessageRow) (loads : Text → Parsed) (t : Transport)
    : Type 0 where
  pub e : EndFrame
  pub row : MessageRow
  pub quiet : truthy t.error ≡ false
  pub ended : t.stream_end ≡ some e
  pub named : truthy e.message_id ≡ true
  pub written : rows (or_blank e.message_id) ≡ some row
  pub told : is_blank (or_blank row.content) ≡ false
  pub unstopped : is_stop e.stop_reason ≡ false
  pub whole : says_interrupted (refs_of loads row.knowledge_refs) ≡ false
  pub sound : says_error (refs_of loads row.knowledge_refs) ≡ false

module _ (rows : Text → Option MessageRow) (loads : Text → Parsed) (t : Transport) where
  score-completes :
      (text : Text) (failure : Option Failure)
      → (score text failure).status ≡ completes
      → (is_blank text ≡ false) × (failure ≡ none)
  unfolding score failed_with is_blank
  score-completes text (some interrupted) h = absurd (ground arith)
  score-completes text (some errored) h = absurd (ground arith)
  score-completes [] none h = absurd (ground arith)
  score-completes (c ∷ text) none h = (refl, refl)

  completes-score : (text : Text) → is_blank text ≡ false → (score text none).status ≡ completes
  unfolding score is_blank
  completes-score [] h = cc
  completes-score (c ∷ text) h = refl

  to_reply : (agent_outcome rows loads t).status ≡ completes → IsReplied rows loads t
  unfolding agent_outcome last_reply reply_of failed_with failure_of is_blank
  to_reply h = elim (Bool-cases (truthy t.error)) [
    | inl bad ↦ absurd (ground arith)
    | inr quiet ↦
        let done =
          score-completes (last_reply rows loads t).0 (last_reply rows loads t).1
            (rw (quiet, agent_outcome) at h) in
        elim (Option-cases t.stream_end) [
          | inl open_ended ↦ absurd (ground arith)
          | inr (e, ended) ↦ elim (Bool-cases (truthy e.message_id)) [
            | inr unnamed ↦ absurd (ground arith)
            | inl named ↦ elim (Option-cases (rows (or_blank e.message_id))) [
              | inl unwritten ↦ absurd (ground arith)
              | inr (row, written) ↦ record {
                e = e;
                row = row;
                quiet = quiet;
                ended = ended;
                named = named;
                written = written;
                told = ground (arith);
                unstopped = ground (arith);
                whole = ground (arith);
                sound = ground (arith);
              }
            ]
          ]
        ]
  ]

  of_reply : IsReplied rows loads t → (agent_outcome rows loads t).status ≡ completes
  unfolding agent_outcome last_reply reply_of failure_of
  of_reply r =
      let failure : failure_of r.e (refs_of loads r.row.knowledge_refs) ≡ none = ground arith in
      rw (r.quiet, r.ended, r.named, r.written, failure)
        (completes-score (or_blank r.row.content) r.told)

  -- An agent's scheduled run counts as completed exactly where its turn reported no error, ended with
  -- the id of a message that was written, was not stopped, and that message has a text and no mark of
  -- an interruption or of an error.
  pub completes_iff : ((agent_outcome rows loads t).status ≡ completes) ↔ IsReplied rows loads t
  completes_iff = (to_reply, of_reply)
