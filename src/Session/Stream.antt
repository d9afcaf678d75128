-- ===== src/Session/Stream.antt =====
-- The event stream of session.py: `emit`, `events` and `close`.
pub mod Closing
use agents_universe.Prelude.{
  ℕ, suc, ◌-◌, Bool, true, false, ◌||◌, String, Option, none, some, List, [], ◌∷◌, ◌++◌, map, leb,
  if◌then◌else◌, length, drop, keep,
}
use text.Mathlib.Text.{◌==◌}
use agents_universe.Session.{Session, SessionEvent, abort}

-- `maxsize` of the queue.
abbrev pub event_maxsize : ℕ
event_maxsize = 1000

abbrev pub full : Session → Bool
full s = leb event_maxsize (length s.event_queue)

-- `emit` up to the point where it returns or waits in `put`.
unfoldable pub emit : Session → SessionEvent → Session
emit s event =
    if s.closed
    then s
    else if full s
    then record s { putters = s.putters ++ event ∷ [] }
    else record s { event_queue = s.event_queue ++ some event ∷ [] }

unfoldable pub admit : Session → List SessionEvent → Session
admit s [] = s
admit s (event ∷ rest) =
    if full s
    then s
    else record s { putters = rest; event_queue = s.event_queue ++ some event ∷ [] }

-- The first waiting `put` goes on, if there is room.
unfoldable pub wake : Session → Session
unfolding admit
wake s = admit s s.putters

unfoldable pub expire_first : Session → List SessionEvent → Session
expire_first s [] = s
expire_first s (event ∷ rest) = abort (record s { putters = rest }) "event_queue_blocked"

-- The first waiting `put` has waited too long.
unfoldable pub expire : Session → Session
unfolding expire_first
expire s = expire_first s s.putters

-- `get` of the consumer.
unfoldable pub next_event : Session → Session
next_event s = record s { event_queue = drop 1 s.event_queue }

-- `events` over what is in the queue: `none` waits for ever.
unfoldable pub drain : List (Option SessionEvent) → Option (List SessionEvent)
drain [] = none
drain (none ∷ queue) = some []
drain (some event ∷ queue) = elim (drain queue) [ none ↦ none | some es ↦ some (event ∷ es) ]

abbrev durable_types : List String
durable_types =
    "stream_delta" ∷ "stream_end" ∷ "task_completed" ∷ "task_failed" ∷ "task_skipped"
    ∷ "user_message_injected" ∷ "image_output" ∷ "file_output" ∷ "user_selection_cancelled"
    ∷ "thinking_delta" ∷ []

contains : List String → String → Bool
contains [] type = false
contains (t ∷ ts) type = t == type || contains ts type

unfoldable pub is_durable : SessionEvent → Bool
unfolding contains
is_durable event = contains durable_types event.type

-- The events of the queue, without a sentinel.
unfoldable pub queued : List (Option SessionEvent) → List SessionEvent
queued [] = []
queued (none ∷ queue) = queued queue
queued (some event ∷ queue) = event ∷ queued queue

-- `kept[-(maxsize - 1):]`
unfoldable pub newest : List SessionEvent → List SessionEvent
newest kept = drop (length kept - (event_maxsize - 1)) kept

-- What `close` leaves in the queue in front of the sentinel.
unfoldable pub survivors : Session → List (Option SessionEvent)
survivors s =
    if full s then map some (newest (keep is_durable (queued s.event_queue))) else s.event_queue

unfoldable pub close : Session → Session
close s = if s.closed then s else record s { closed = true; event_queue = survivors s ++ none ∷ [] }
