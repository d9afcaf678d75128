-- ===== src/Schedules/Tests.antt =====
-- The scheduler on small inputs.
use agents_universe.Prelude.{ℕ, ◌+◌, ◌*◌, ◌≡◌, refl, true, false, none, some, [], ◌∷◌}
use agents_universe.Prelude.Text.{codes, split}
use agents_universe.Prelude.TextSet.{same, elem, distinct}
use agents_universe.Cron.Next.{day_us, minute_us, next_run_at}
use agents_universe.Cron.Field.{parse}
use agents_universe.Cron.Utc.{zones, weekdays, next_weekday, zones-good}
use agents_universe.Schedules.{
  ScheduledTask, Claim, at, expect, caught, is_overflow, disable, is_due, is_stale, due_rows, holds,
  swap, won, claim_due, advance_all,
}
use agents_universe.Schedules.Ticks.{
  World, Reach, here, next, reads, commits, Rises, Reach-Rises, ids,
}
use agents_universe.Schedules.Swept.{IsSwept, advance_all-IsSwept}

abbrev now : ℕ
now = 739_946 * day_us + 600 * minute_us

abbrev tomorrow : ℕ
tomorrow = 739_947 * day_us + 570 * minute_us

-- It was due half an hour ago.
abbrev report : ScheduledTask
report = record {
  schedule_id = codes "s1";
  project_id = codes "p1";
  enabled = true;
  cron_expr = weekdays;
  timezone = codes "UTC";
  next_run_at = some (739_946 * day_us + 570 * minute_us);
  last_run_at = none;
}

report_expected : expect zones report now ≡ at tomorrow
unfolding expect caught
report_expected = simp (next_weekday, caught)

-- It is switched off.
abbrev idle : ScheduledTask
idle = record report { enabled = false }

-- It has no expression.
abbrev broken : ScheduledTask
broken = record report { cron_expr = codes "" }

abbrev disabled : ScheduledTask
disabled = record broken { enabled = false; next_run_at = none }

report_swept :
    advance_all zones now (report ∷ idle ∷ broken ∷ [])
    ≡ some (record report { next_run_at = some tomorrow } ∷ idle ∷ disabled ∷ [], 2)
unfolding advance_all is_stale disable expect next_run_at parse split is_overflow
report_swept = simp report_expected

advance_all-IsSwept_example :
    IsSwept zones now
      (report ∷ idle ∷ broken ∷ [])
      (record report { next_run_at = some tomorrow } ∷ idle ∷ disabled ∷ [])
      2
advance_all-IsSwept_example =
    advance_all-IsSwept zones (λ tz zone e. (zones-good tz zone e).1) now
      (report ∷ idle ∷ broken ∷ [])
      (record report { next_run_at = some tomorrow } ∷ idle ∷ disabled ∷ []) 2 report_swept

abbrev claim : Claim
claim = record { schedule_id = codes "s1"; occurrence = report.next_run_at }

abbrev moved : ScheduledTask
moved = record report { next_run_at = some tomorrow; last_run_at = some now }

report_claimed : claim_due zones now (report ∷ []) (report ∷ []) ≡ some (moved ∷ [], claim ∷ [])
unfolding claim_due swap holds same won
report_claimed = rw (report_expected, claim_due) refl

abbrev reading : World
reading = record {
  rows = report ∷ [];
  ticks = record { now = now; due = due_rows (λ p. true) (λ rows. rows) now (report ∷ []) } ∷ [];
  claimed = [];
}

abbrev ticked : World
ticked = record { rows = moved ∷ []; ticks = []; claimed = claim ∷ [] }

one_tick : Reach zones (record { rows = report ∷ []; ticks = []; claimed = [] }) ticked
unfolding due_rows is_due
one_tick = next (next here (reads _ (λ p. true) (λ rows. rows) now)) (
    commits reading [] [] (record { now = now; due = report ∷ [] }) (moved ∷ []) (claim ∷ []) refl
      report_claimed)

Reach-Rises_example : Rises ticked.claimed
unfolding distinct elem ids
Reach-Rises_example = Reach-Rises zones zones-good (report ∷ []) ticked refl one_tick
