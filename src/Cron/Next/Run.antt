-- ===== src/Cron/Next/Run.antt =====
-- `next_run_at` of scheduling/cron.py as a whole.
use agents_universe.Prelude.{ℕ, ◌+◌, ◌<◌, ◌≡◌, Option, none, some, arith}
use agents_universe.Prelude.Text.{Text}
use agents_universe.Cron.Error.{ok, err, >>=-ok, no_matching_time}
use agents_universe.Cron.Field.{Schedule, parse}
use agents_universe.Cron.Field.Bounds.{IsSchedule, parse-IsSchedule}
use agents_universe.Cron.Date.{ordinal}
use agents_universe.Cron.Date.Order.{IsDate}
use agents_universe.Cron.Next.{
  Reading, Zone, After, instant, max_days, scan, next_run_at, zone_or_raise,
}
use agents_universe.Cron.Next.Scan.{Due, scan-Due}
use agents_universe.Cron.Next.Earliest.{
  NeverTransitions, Pending, Earliest, NoneBefore, Fires-bounds, scan-Earliest,
}
use agents_universe.Cron.Next.Exhausted.{scan-NoneBefore}

-- The expression and the time zone of a run that did not stop at either.
pub record Inputs (zones : Text → Option Zone) (expr tz : Text) : Type 0 where
  pub s : Schedule
  pub zone : Zone
  pub parsed : parse expr ≡ ok s
  pub known : zones tz ≡ some zone

zone_or_raise-ok : (o : Option Zone) (zone : Zone) → zone_or_raise o ≡ ok zone → o ≡ some zone
unfolding zone_or_raise
zone_or_raise-ok none zone e = cc
zone_or_raise-ok (some z) zone e = ground arith

-- The local readings of a zone have dates of the calendar.
abbrev pub IsCalendar : Zone → Type 0
IsCalendar zone = (u : ℕ) → IsDate (zone.local u).date

abbrev pub start : Zone → After → Reading
start zone after = zone.local (instant after)

start-NoneBefore :
    (zone : Zone) (s : Schedule) (w : IsSchedule s) (after : After)
    → NoneBefore zone s w (instant after) (ordinal (start zone after).date)
start-NoneBefore zone s w after r p = omega (arith, p.later, Fires-bounds s r w p.fires)

module _ (zones : Text → Option Zone) (expr tz : Text) (after : After) where
  inputs :
      (u : ℕ)
      → next_run_at zones expr tz after ≡ ok u
      → (i : Inputs zones expr tz) × (scan max_days i.zone i.s
            (instant after)
            (start i.zone after).date
          ≡ ok u)
  unfolding next_run_at
  inputs u e =
      let (s, parsed, rest) = >>=-ok (parse expr) _ e in
      let (zone, known, found) = >>=-ok (zone_or_raise (zones tz)) _ rest in
      (
        record {
          s = s;
          zone = zone;
          parsed = parsed;
          known = zone_or_raise-ok (zones tz) zone known;
        },
        found,
      )

  -- Where the readings of the zone have dates of the calendar, a returned instant is that of a reading
  -- at which the schedule fires, with some fold. If that day's midnight and the next one differ in their
  -- offset, the instant is after `after`; otherwise the reading is later than `after` on the local clock,
  -- and the instant is that of its first occurrence.
  pub next_run_at-Due :
      (u : ℕ)
      → ((zone : Zone) → zones tz ≡ some zone → IsCalendar zone)
      → next_run_at zones expr tz after ≡ ok u
      → (i : Inputs zones expr tz) × Due i.zone i.s (instant after) u
  next_run_at-Due u good e =
      let (i, found) = inputs u e in
      (
        i,
        scan-Due i.zone i.s (instant after) max_days _ u (good i.zone i.known (instant after))
            found,
      )

  -- In a zone that never changes its offset, a returned instant is that of the earliest reading
  -- later than `after`, on the local clock, at which the schedule fires.
  pub next_run_at-Earliest :
      (u : ℕ)
      → ((zone : Zone) → zones tz ≡ some zone → NeverTransitions zone × IsCalendar zone)
      → next_run_at zones expr tz after ≡ ok u
      → (i : Inputs zones expr tz) × Earliest i.zone i.s (start i.zone after) u
  next_run_at-Earliest u good e =
      let (i, found) = inputs u e in
      let (never, calendar) = good i.zone i.known in
      let w = parse-IsSchedule expr i.s i.parsed in
      (
        i,
        scan-Earliest i.zone i.s w (instant after) max_days _ u never (calendar (instant after))
            (start-NoneBefore i.zone i.s w after) found,
      )

  -- In a zone that never changes its offset, where a run gives up, no day of the 1465 from that of `after` has a reading
  -- later than `after` at which the schedule fires.
  pub next_run_at_exhausted :
      (s : Schedule) (zone : Zone)
      → parse expr ≡ ok s
      → zones tz ≡ some zone
      → NeverTransitions zone
      → IsCalendar zone
      → next_run_at zones expr tz after ≡ err no_matching_time
      → (r : Reading) → ordinal r.date < ordinal (start zone after).date + max_days
      → ¬ Pending s (start zone after) r
  unfolding next_run_at zone_or_raise
  next_run_at_exhausted s zone parsed known never calendar e r soon p =
      let w = parse-IsSchedule expr s parsed in
      let beyond =
        scan-NoneBefore zone s w (instant after) max_days _ never (calendar (instant after))
          (start-NoneBefore zone s w after) (rw (parsed, known, zone_or_raise) at e) in
      omega (arith, beyond r p)
