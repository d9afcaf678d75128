-- ===== src/Session/Stream/Closing.antt =====
-- What the consumer of a stream receives after `close`.
use agents_universe.Prelude.{
  ℕ, ◌-◌, ◌≤◌, ◌≡◌, refl, sym, ap, ◌∙◌, false, Option, none, some, List, [], ◌∷◌, ◌++◌, map, length,
  drop, keep, keep-yes, keep-no, length-append, length-drop, arith, Bool-cases, inl, inr,
  Option-cases, if◌then◌else◌,
}
use agents_universe.Session.{Session, SessionEvent}
use agents_universe.Session.Stream.{
  event_maxsize, full, drain, is_durable, queued, newest, survivors, close,
}

-- A queue without a sentinel.
unfoldable pub IsOpen : List (Option SessionEvent) → Type 0
IsOpen [] = Unit
IsOpen (none ∷ queue) = ⊥
IsOpen (some event ∷ queue) = IsOpen queue

drain-events : (es : List SessionEvent) → drain (map some es ++ none ∷ []) ≡ some es
unfolding drain
drain-events [] = refl
drain-events (e ∷ es) = rw (drain-events es)

drain-some :
    (e : SessionEvent) (queue : List (Option SessionEvent)) (es : List SessionEvent)
    → drain queue ≡ some es
    → drain (some e ∷ queue) ≡ some (e ∷ es)
unfolding drain
drain-some e queue es h = rw h

none-some {ℓ} : {A : Type ℓ} {a : A} → ¬ (none ≡ some a)
none-some h = cc

drain-empty : {es : List SessionEvent} → ¬ (drain [] ≡ some es)
unfolding drain
drain-empty h = cc

drain-sentinel :
    (q r : List (Option SessionEvent)) (es : List SessionEvent)
    → drain (none ∷ q) ≡ some es
    → drain (none ∷ r) ≡ some es
unfolding drain
drain-sentinel q r es h = h

drain-stuck :
    (e : SessionEvent) (queue : List (Option SessionEvent))
    → drain queue ≡ none
    → drain (some e ∷ queue) ≡ none
unfolding drain
drain-stuck e queue h = rw h

pub drain-append :
    (queue more : List (Option SessionEvent)) (es : List SessionEvent)
    → drain queue ≡ some es
    → drain (queue ++ more) ≡ some es
drain-append [] more es h = absurd (drain-empty h)
drain-append (none ∷ queue) more es h = drain-sentinel queue (queue ++ more) es h
drain-append (some e ∷ queue) more es h = elim (Option-cases (drain queue)) [
  | inl stuck ↦ absurd (none-some (sym (drain-stuck e queue stuck) ∙ h))
  | inr (fs, d) ↦
      drain-some e (queue ++ more) fs (drain-append queue more fs d)
      ∙ sym (drain-some e queue fs d)
      ∙ h
]

-- The events of the queue that `close` lets through: all of them, or, if the queue is full, the
-- last 999 that are durable.
unfoldable pub let_through : Session → List SessionEvent
let_through s =
    if full s then newest (keep is_durable (queued s.event_queue)) else queued s.event_queue

drain-IsOpen :
    (queue : List (Option SessionEvent))
    → IsOpen queue
    → drain (queue ++ none ∷ []) ≡ some (queued queue)
unfolding IsOpen drain queued
drain-IsOpen [] w = refl
drain-IsOpen (none ∷ queue) w = absurd w
drain-IsOpen (some e ∷ queue) w = rw (drain-IsOpen queue w)

pub drain-close :
    (s : Session)
    → s.closed ≡ false
    → IsOpen s.event_queue
    → drain (close s).event_queue ≡ some (let_through s)
unfolding close survivors let_through
drain-close s o w = elim (Bool-cases (full s)) [
  | inl is_full ↦ rw (o, is_full) (drain-events (newest (keep is_durable (queued s.event_queue))))
  | inr room ↦ rw (o, room) (drain-IsOpen s.event_queue w)
]

keep_idem : (es : List SessionEvent) → keep is_durable (keep is_durable es) ≡ keep is_durable es
keep_idem [] = refl
keep_idem (e ∷ es) = elim (Bool-cases (is_durable e)) [
  | inl durable ↦ rw (
    keep-yes is_durable e es durable,
    keep-yes is_durable e (keep is_durable es) durable,
    keep_idem es,
  )
  | inr transient ↦ rw (keep-no is_durable e es transient, keep_idem es)
]

le_sub : (a b : ℕ) → a ≤ b → a - b ≡ 0
le_sub a b h = omega arith

newest_few : (es : List SessionEvent) → length es ≤ event_maxsize - 1 → newest es ≡ es
unfolding newest
newest_few es few = ap (λ n. drop n es) (le_sub (length es) 999 few)

-- As long as at most 999 durable events wait, `close` loses none of them, and keeps their order.
keep-let_through :
    (s : Session)
    → length (keep is_durable (queued s.event_queue)) ≤ event_maxsize - 1
    → keep is_durable (let_through s) ≡ keep is_durable (queued s.event_queue)
unfolding let_through
keep-let_through s few = elim (Bool-cases (full s)) [
  | inl is_full ↦
      rw (is_full, newest_few (keep is_durable (queued s.event_queue)) few)
        (keep_idem (queued s.event_queue))
  | inr room ↦ rw room
]

length-newest : (es : List SessionEvent) → length (newest es) ≤ event_maxsize - 1
unfolding newest
length-newest es = omega (arith, length-drop (length es - 999) es)

length-queued : (q : List (Option SessionEvent)) → length (queued q) ≤ length q
unfolding queued
length-queued [] = omega arith
length-queued (none ∷ q) = omega (arith, length-queued q)
length-queued (some e ∷ q) = omega (arith, length-queued q)

length-map-some : (es : List SessionEvent) → length (map some es) ≡ length es
length-map-some [] = refl
length-map-some (e ∷ es) = omega (arith, length-map-some es)

-- `put_nowait` of the sentinel finds room.
pub length-close : (s : Session) → s.closed ≡ false → length (close s).event_queue ≤ event_maxsize
unfolding close survivors
length-close s o = elim (Bool-cases (full s)) [
  | inl is_full ↦
      let kept = newest (keep is_durable (queued s.event_queue)) in
      rw (o, is_full)
        (omega (
          arith,
          length-append (map some kept) (none ∷ []),
          length-map-some kept,
          length-newest (keep is_durable (queued s.event_queue)),
        ))
  | inr room ↦ rw (o, room) (grind (arith, length-append s.event_queue (none ∷ [])))
]

pub IsOpen-emit :
    (queue : List (Option SessionEvent)) (e : SessionEvent)
    → IsOpen queue
    → IsOpen (queue ++ some e ∷ [])
unfolding IsOpen
IsOpen-emit [] e w = tt
IsOpen-emit (none ∷ queue) e w = w
IsOpen-emit (some d ∷ queue) e w = IsOpen-emit queue e w

pub IsOpen-drop : (queue : List (Option SessionEvent)) → IsOpen queue → IsOpen (drop 1 queue)
unfolding IsOpen
IsOpen-drop [] w = tt
IsOpen-drop (none ∷ queue) w = absurd w
IsOpen-drop (some d ∷ queue) w = w
