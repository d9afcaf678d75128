-- ===== src/Schedules.antt =====
-- packages/api/src/api/services/scheduler.py: the rows of `scheduled_tasks`, the sweep at startup and
-- the tick that claims due rows. `expect` is `next_run_at` of Cron with the time as it is now; a raised
-- error ends a tick or a sweep, whose transaction is then rolled back.
pub mod Ticks
pub mod Swept
mod Tests
use agents_universe.Prelude.{
  ℕ, suc, ◌+◌, Bool, true, false, ◌&&◌, ◌||◌, not, Option, none, some, List, [], ◌∷◌, ◌++◌, ltb,
  leb, ◌==◌, if◌then◌else◌, take, keep,
}
use agents_universe.Prelude.Text.{Text, codes}
use agents_universe.Prelude.TextSet.{same}
use agents_universe.Prelude.Fallible.{◌>>=◌}
use agents_universe.Cron.Error.{CronError, Result, ok, err, date_overflow}
use agents_universe.Cron.Next.{Zone, After, aware, next_run_at}

-- What the scheduler reads and writes of a row.
pub record ScheduledTask : Type 0 where
  pub schedule_id : Text
  pub project_id : Text
  pub enabled : Bool
  pub cron_expr : Text
  pub timezone : Text
  pub next_run_at : Option ℕ
  pub last_run_at : Option ℕ

-- The next fire time, an error of the expression, or an exception that is no `CronError`.
pub data Upcoming : Type 0 where
  at : ℕ → Upcoming
  invalid raised : Upcoming

unfoldable pub is_overflow : CronError → Bool
is_overflow date_overflow = true
is_overflow e = false

unfoldable pub caught : Result ℕ → Upcoming
caught (ok u) = at u
caught (err e) = if is_overflow e then raised else invalid

unfoldable pub expect : (Text → Option Zone) → ScheduledTask → ℕ → Upcoming
unfolding caught
expect zones t now = caught (next_run_at zones t.cron_expr t.timezone (aware now))

-- `next_run_at is not None and next_run_at < now`
unfoldable pub is_stale : ℕ → ScheduledTask → Bool
is_stale now t = t.enabled && elim t.next_run_at [ none ↦ false | some n ↦ ltb n now ]

unfoldable pub disable : ScheduledTask → ScheduledTask
disable t = record t { enabled = false; next_run_at = none }

-- The loop of startup_sweep() over the tasks, on the whole table; with the number of stale ones.
unfoldable pub advance_all :
    (Text → Option Zone) → ℕ → List ScheduledTask → Option (List ScheduledTask × ℕ)
advance_all zones now [] = some ([], 0)
advance_all zones now (t ∷ ts) = elim (advance_all zones now ts) [
  | none ↦ none
  | some (rest, n) ↦
      if is_stale now t
      then (elim (expect zones t now) [
        | at u ↦ some (record t { next_run_at = some u } ∷ rest, suc n)
        | invalid ↦ some (disable t ∷ rest, suc n)
        | raised ↦ none
      ])
      else some (t ∷ rest, n)
]

-- The due rows of a tick; `order` is the database's sorting by the fire time.
unfoldable pub is_due : (Text → Bool) → ℕ → ScheduledTask → Bool
is_due is_active now t =
    t.enabled
    && (elim t.next_run_at [ none ↦ false | some n ↦ leb n now ] && is_active t.project_id)

abbrev pub due_batch : ℕ
due_batch = 20

unfoldable pub due_rows :
    (Text → Bool)
    → (List ScheduledTask → List ScheduledTask)
    → ℕ
    → List ScheduledTask
    → List ScheduledTask
due_rows is_active order now rows = take due_batch (keep (is_due is_active now) (order rows))

unfoldable pub holds : Option ℕ → Option ℕ → Bool
holds none o = false
holds (some n) none = false
holds (some n) (some o) = n == o

-- update(ScheduledTask).where(schedule_id == ..., next_run_at == observed), with the `rowcount`.
unfoldable pub swap : Text → Option ℕ → ℕ → ℕ → List ScheduledTask → List ScheduledTask × ℕ
swap id observed u now [] = ([], 0)
swap id observed u now (t ∷ ts) =
    let (rest, n) = swap id observed u now ts in
    if same t.schedule_id id && holds t.next_run_at observed
    then (record t { next_run_at = some u; last_run_at = some now } ∷ rest, suc n)
    else (t ∷ rest, n)

unfoldable pub disable_row : Text → List ScheduledTask → List ScheduledTask
disable_row id [] = []
disable_row id (t ∷ ts) = (if same t.schedule_id id then disable t else t) ∷ disable_row id ts

-- What a claim takes: the schedule, and the fire time that was due.
pub record Claim : Type 0 where
  pub schedule_id : Text
  pub occurrence : Option ℕ

-- `if result.rowcount != 1: continue`, and otherwise the claim.
unfoldable pub won : ScheduledTask → ℕ → List Claim
won t rowcount =
    if rowcount == 1
    then record { schedule_id = t.schedule_id; occurrence = t.next_run_at } ∷ []
    else []

-- The loop of _tick() over the due rows, up to the commit.
unfoldable pub claim_due :
    (Text → Option Zone)
    → ℕ
    → List ScheduledTask
    → List ScheduledTask
    → Option (List ScheduledTask × List Claim)
claim_due zones now [] rows = some (rows, [])
claim_due zones now (t ∷ due) rows = elim (expect zones t now) [
  | raised ↦ none
  | invalid ↦ claim_due zones now due (disable_row t.schedule_id rows)
  | at u ↦ claim_due zones now due (swap t.schedule_id t.next_run_at u now rows).0 >>= λ rest.
      some (rest.0, won t (swap t.schedule_id t.next_run_at u now rows).1 ++ rest.1)
]
