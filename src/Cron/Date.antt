-- ===== src/Cron/Date.antt =====
-- What scheduling/cron.py uses of Python's `datetime.date`: the proleptic Gregorian calendar.
pub mod Order
use agents_universe.Prelude.{
  ℕ, zero, suc, ◌+◌, ◌-◌, ◌*◌, ◌/◌, ◌%◌, ◌≤◌, Bool, true, false, ◌&&◌, ◌||◌, not, ltb, ◌==◌,
  if◌then◌else◌,
}
use agents_universe.Cron.Error.{Result, ok, err, ◌>>=◌, date_overflow}

pub record Date : Type 0 where
  pub year : ℕ
  pub month : ℕ
  pub day : ℕ

abbrev pub max_year : ℕ
max_year = 9999

pub is_leap : ℕ → Bool
is_leap y = y % 4 == 0 && (not (y % 100 == 0) || y % 400 == 0)

unfoldable pub days_in_month : ℕ → ℕ → ℕ
unfolding is_leap
days_in_month y m =
    if m == 0
    then 0
    else if m == 2
    then (if is_leap y then 29 else 28)
    else if m == 4 || (m == 6 || (m == 9 || m == 11))
    then 30
    else 31

unfoldable pub days_before_month : ℕ → ℕ → ℕ
days_before_month y zero = 0
days_before_month y (suc m) = days_before_month y m + days_in_month y m

-- The days before the first of January; the years count from 1.
unfoldable pub days_before_year : ℕ → ℕ
days_before_year y = (y - 1) * 365 + (y - 1) / 4 - (y - 1) / 100 + (y - 1) / 400

-- d.toordinal()
unfoldable pub ordinal : Date → ℕ
ordinal d = days_before_year d.year + days_before_month d.year d.month + d.day

-- d.weekday(): Monday is 0.
unfoldable pub weekday : Date → ℕ
unfolding ordinal days_before_year days_before_month days_in_month
weekday d = (ordinal d + 6) % 7

-- d + timedelta(days=1)
unfoldable pub next_day : Date → Result Date
next_day d =
    if ltb d.day (days_in_month d.year d.month)
    then ok (record d { day = d.day + 1 })
    else if ltb d.month 12
    then ok (record d { month = d.month + 1; day = 1 })
    else if ltb d.year max_year
    then ok (record { year = d.year + 1; month = 1; day = 1 })
    else err date_overflow

-- d + timedelta(days=n)
unfoldable pub add_days : ℕ → Date → Result Date
add_days zero d = ok d
add_days (suc n) d = next_day d >>= λ e. add_days n e

-- (d.replace(day=1) + timedelta(days=32)).replace(day=1)
unfoldable pub next_month : Date → Result Date
unfolding add_days next_day
next_month d = add_days 32 (record d { day = 1 }) >>= λ e. ok (record e { day = 1 })
