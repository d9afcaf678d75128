-- ===== src/Schedules/Swept.antt =====
-- The sweep at startup.
use agents_universe.Prelude.{
  ℕ, suc, ◌≡◌, refl, ap, true, false, Option, none, some, List, [], ◌∷◌, length, keep,
  if◌then◌else◌, Pointwise, arith, Bool-cases, Option-cases, inl, inr,
}
use mathlib.Core.Path.{subst}
use agents_universe.Prelude.Text.{Text}
use agents_universe.Prelude.Fallible.{some_inj}
use agents_universe.Cron.Error.{CronError, Result, ok, err}
use agents_universe.Cron.Next.{Zone, aware, instant, next_run_at}
use agents_universe.Cron.Next.Scan.{Due}
use agents_universe.Cron.Next.Run.{Inputs, IsCalendar, next_run_at-Due}
use agents_universe.Schedules.{
  ScheduledTask, Upcoming, invalid, is_overflow, caught, expect, is_stale, disable, advance_all,
}
use agents_universe.Schedules.Ticks.{Upcoming-cases, caught-at}

-- What the sweep makes of a row.
pub data IsAdvanced (zones : Text → Option Zone) (now : ℕ) (t u : ScheduledTask) : Type 0 where
  -- it was not stale, and stays as it is
  stays : is_stale now t ≡ false → u ≡ t → IsAdvanced zones now t u
  -- only its fire time changes, to the next one, which is due
  moves :
      is_stale now t ≡ true
      → (n : ℕ) → next_run_at zones t.cron_expr t.timezone (aware now) ≡ ok n
      → (i : Inputs zones t.cron_expr t.timezone) → Due i.zone i.s now n
      → u ≡ record t { next_run_at = some n }
      → IsAdvanced zones now t u
  -- its expression or time zone has no fire time, and it is disabled
  stops :
      is_stale now t ≡ true
      → (e : CronError) → next_run_at zones t.cron_expr t.timezone (aware now) ≡ err e
      → is_overflow e ≡ false
      → u ≡ record t { enabled = false; next_run_at = none }
      → IsAdvanced zones now t u

pub record IsSwept (zones : Text → Option Zone) (now : ℕ) (rows swept : List ScheduledTask) (n : ℕ)
    : Type 0 where
  pub advanced : Pointwise (IsAdvanced zones now) rows swept
  pub counted : n ≡ length (keep (is_stale now) rows)

caught-invalid :
    (r : Result ℕ) → caught r ≡ invalid → (e : CronError) × (r ≡ err e) × (is_overflow e ≡ false)
unfolding caught
caught-invalid (err e) h = (e, refl, ground arith)
caught-invalid (ok v) h = absurd (ground arith)

module _ (zones : Text → Option Zone)
    (good : (tz : Text) (zone : Zone) → zones tz ≡ some zone → IsCalendar zone) (now : ℕ) where
  expect-IsAdvanced :
      (t : ScheduledTask) (n : ℕ)
      → is_stale now t ≡ true
      → expect zones t now ≡ Upcoming.at n
      → IsAdvanced zones now t (record t { next_run_at = some n })
  unfolding expect instant
  expect-IsAdvanced t n stale e =
      let found = caught-at (next_run_at zones t.cron_expr t.timezone (aware now)) n e in
      let (i, due) =
        next_run_at-Due zones t.cron_expr t.timezone (aware now) n (good t.timezone) found in
      moves stale n found i due refl

  disable-IsAdvanced :
      (t : ScheduledTask)
      → is_stale now t ≡ true
      → expect zones t now ≡ invalid
      → IsAdvanced zones now t (record t { enabled = false; next_run_at = none })
  unfolding expect
  disable-IsAdvanced t stale h =
      let (e, raised, no_overflow) =
        caught-invalid (next_run_at zones t.cron_expr t.timezone (aware now)) h in
      stops stale e raised no_overflow refl

  cons-IsSwept :
      (t u : ScheduledTask) (ts rest : List ScheduledTask) (m : ℕ)
      → IsAdvanced zones now t u
      → IsSwept zones now ts rest m
      → IsSwept zones now (t ∷ ts) (u ∷ rest) (if is_stale now t then suc m else m)
  cons-IsSwept t u ts rest m a v = record {
    advanced = (a, v.advanced);
    counted = elim (Bool-cases (is_stale now t)) [
      | inl stale ↦ rw (stale, keep) (ap suc v.counted)
      | inr quiet ↦ rw (quiet, keep) v.counted
    ];
  }

  -- A sweep that raises nothing changes only the rows that were enabled with a fire time before
  -- now: each of them gets the fire time that `next_run_at` finds from now and nothing else, namely
  -- the instant of a reading at which its schedule fires, which is later than now, on the local
  -- clock, or as an instant where that day's midnights differ in their offset; or, where the search
  -- for one ends with a `CronError`, it is disabled. The rows stay in their order, and the sweep
  -- reports how many it changed; where the readings of each zone have dates of the calendar.
  pub advance_all-IsSwept :
      (rows swept : List ScheduledTask) (n : ℕ)
      → advance_all zones now rows ≡ some (swept, n)
      → IsSwept zones now rows swept n
  unfolding advance_all disable
  advance_all-IsSwept [] swept n e =
      subst (λ r. IsSwept zones now [] r.0 r.1) (some_inj e)
        (record { advanced = tt; counted = refl })
  advance_all-IsSwept (t ∷ ts) swept n e = elim (Option-cases (advance_all zones now ts)) [
    | inl stop ↦ absurd (ground arith)
    | inr ((rest, m), e') ↦
        let v = advance_all-IsSwept ts rest m e' in
        elim (Bool-cases (is_stale now t)) [
          | inl stale ↦ elim (Upcoming-cases (expect zones t now)) [
            | inl boom ↦ absurd (ground arith)
            | inr (inl broken) ↦
                subst (λ r. IsSwept zones now (t ∷ ts) r.0 r.1)
                  (some_inj (rw (e', stale, broken, advance_all) at e))
                  (rw stale at
                    (cons-IsSwept t (disable t) ts rest m (disable-IsAdvanced t stale broken) v))
            | inr (inr (u, found)) ↦
                subst (λ r. IsSwept zones now (t ∷ ts) r.0 r.1)
                  (some_inj (rw (e', stale, found, advance_all) at e))
                  (rw stale at (
                    cons-IsSwept t (record t { next_run_at = some u }) ts rest m
                      (expect-IsAdvanced t u stale found) v))
          ]
          | inr quiet ↦
              subst (λ r. IsSwept zones now (t ∷ ts) r.0 r.1)
                (some_inj (rw (e', quiet, advance_all) at e))
                (rw quiet at (cons-IsSwept t t ts rest m (stays quiet refl) v))
        ]
  ]
