-- ===== src/ScheduledRuns/Replies.antt =====
-- An agent's turn as a scheduled run: what `_NullTransport` records of its frames, `_last_reply` and
-- the scoring of `_run_agent_target`. `rows` is the query for a message, `loads` is `json.loads`.
pub mod Recorded
pub mod Scored
use agents_universe.Prelude.{
  Bool, true, false, ◌&&◌, ◌||◌, not, Option, none, some, List, [], ◌∷◌, if◌then◌else◌, take,
}
use agents_universe.Prelude.Text.{Text, codes}
use agents_universe.ScheduledRuns.{Ended, completes, fails, Outcome, text_cap}

pub data StopReason : Type 0 where
  aborted interrupted other_reason no_reason : StopReason

-- The frame `stream_end`.
pub record EndFrame : Type 0 where
  pub message_id : Option Text
  pub injection : Bool
  pub stop_reason : StopReason

pub data Frame : Type 0 where
  stream_end : EndFrame → Frame
  error : Option Text → Frame
  other : Frame

pub record Transport : Type 0 where
  pub stream_end : Option EndFrame
  pub error : Option Text

unfoldable pub new_transport : Transport
new_transport = record { stream_end = none; error = none }

-- `bool(text)`
unfoldable pub truthy : Option Text → Bool
truthy none = false
truthy (some []) = false
truthy (some (c ∷ t)) = true

unfoldable pub is_real : EndFrame → Bool
is_real e = truthy e.message_id && not e.injection

unfoldable pub recorded_real : Option EndFrame → Bool
recorded_real none = false
recorded_real (some e) = is_real e

unfoldable pub is_none : Option EndFrame → Bool
is_none none = true
is_none (some e) = false

-- _NullTransport.send()
unfoldable pub receive : Transport → Frame → Transport
receive t (stream_end e) =
    if is_real e && not (recorded_real t.stream_end)
    then record t { stream_end = some e }
    else if is_none t.stream_end
    then record t { stream_end = some e }
    else t
receive t (error message) = record t { error = message }
receive t other = t

unfoldable pub receive_all : Transport → List Frame → Transport
receive_all t [] = t
receive_all t (f ∷ frames) = receive_all (receive t f) frames

-- What `json.loads` makes of `knowledge_refs`: it raises, or the value is no dict, or one with these
-- two entries, as truth values.
pub data Parsed : Type 0 where
  raises not_dict : Parsed
  dict : (errored was_interrupted : Bool) → Parsed

pub record MessageRow : Type 0 where
  pub content : Option Text
  pub knowledge_refs : Option Text

pub data Failure : Type 0 where
  interrupted errored : Failure

unfoldable pub refs_of : (Text → Parsed) → Option Text → Parsed
refs_of loads none = not_dict
refs_of loads (some []) = not_dict
refs_of loads (some (c ∷ t)) = loads (c ∷ t)

unfoldable pub says_error : Parsed → Bool
says_error raises = false
says_error not_dict = false
says_error (dict e i) = e

unfoldable pub says_interrupted : Parsed → Bool
says_interrupted raises = false
says_interrupted not_dict = false
says_interrupted (dict e i) = i

unfoldable pub is_stop : StopReason → Bool
is_stop aborted = true
is_stop interrupted = true
is_stop other_reason = false
is_stop no_reason = false

-- `content or ""`
unfoldable pub or_blank : Option Text → Text
or_blank none = []
or_blank (some t) = t

unfoldable pub failure_of : EndFrame → Parsed → Option Failure
failure_of e refs =
    if is_stop e.stop_reason || says_interrupted refs
    then some interrupted
    else if says_error refs
    then some errored
    else none

unfoldable pub reply_of :
    (Text → Option MessageRow) → (Text → Parsed) → EndFrame → Text × Option Failure
reply_of rows loads e =
    if truthy e.message_id
    then (elim (rows (or_blank e.message_id)) [
      | none ↦ ([], none)
      | some row ↦ (or_blank row.content, failure_of e (refs_of loads row.knowledge_refs))
    ])
    else ([], none)

unfoldable pub last_reply :
    (Text → Option MessageRow) → (Text → Parsed) → Transport → Text × Option Failure
last_reply rows loads t = elim t.stream_end [ none ↦ ([], none) | some e ↦ reply_of rows loads e ]

unfoldable pub failed_with : Text → Bool → Outcome
failed_with message persisted = record {
  status = fails;
  summary = none;
  error = some message;
  script_run_id = none;
  reply_persisted = persisted;
}

unfoldable pub is_blank : Text → Bool
is_blank [] = true
is_blank (c ∷ t) = false

-- `text or "The agent failed"`
unfoldable pub or_notice : Text → Text
or_notice [] = codes "The agent failed"
or_notice (c ∷ t) = c ∷ t

unfoldable pub score : Text → Option Failure → Outcome
score text (some interrupted) =
    failed_with (codes "The agent run was interrupted") (not (is_blank text))
score text (some errored) = failed_with (take text_cap (or_notice text)) true
score [] none = failed_with (codes "The agent produced no reply") false
score (c ∷ t) none = record {
  status = completes;
  summary = some (take text_cap (c ∷ t));
  error = none;
  script_run_id = none;
  reply_persisted = true;
}

-- The end of _run_agent_target(), behind the turn.
unfoldable pub agent_outcome : (Text → Option MessageRow) → (Text → Parsed) → Transport → Outcome
agent_outcome rows loads t =
    let (text, failure) = last_reply rows loads t in
    if truthy t.error
    then failed_with (or_blank t.error) (not (is_blank text))
    else score text failure
