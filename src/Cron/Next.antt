-- ===== src/Cron/Next.antt =====
-- `next_run_at` of scheduling/cron.py. Numbers of time are microseconds. A reading is what a local
-- clock shows, with no zone. An instant counts from one day before the ordinal 0, so that it is a
-- number for every offset; an offset is kept as the offset plus one day.
pub mod Fires
pub mod Slow
pub mod Scan
pub mod Earliest
pub mod Exhausted
pub mod Run
use agents_universe.Prelude.{
  ℕ, zero, suc, ◌+◌, ◌-◌, ◌*◌, ◌%◌, Bool, true, false, ◌&&◌, ◌||◌, not, Option, none, some, List,
  [], ◌∷◌, ltb, ◌==◌, if◌then◌else◌, length,
}
use agents_universe.Prelude.Text.{Text}
use agents_universe.Cron.Error.{Result, ok, err, ◌>>=◌, unknown_timezone, no_matching_time}
use agents_universe.Cron.Values.{elem}
use agents_universe.Cron.Field.{Field, Schedule, parse}
use agents_universe.Cron.Date.{Date, ordinal, weekday, next_day, next_month}

abbrev pub minute_us : ℕ
minute_us = 60_000_000

abbrev pub day_us : ℕ
day_us = 86_400_000_000

-- A naive `datetime`: its date, and the microseconds since midnight.
pub record Reading : Type 0 where
  pub date : Date
  pub micros : ℕ

abbrev pub number : Reading → ℕ
number r = ordinal r.date * day_us + r.micros

-- A zone of `zoneinfo`, which reads the tz database.
pub record Zone : Type 0 where
  -- `utcoffset()` of a reading with its fold, plus one day
  pub offset : Reading → Bool → ℕ
  -- `astimezone(zone)` of an instant
  pub local : ℕ → Reading

-- reading.replace(tzinfo=zone, fold=fold).astimezone(timezone.utc)
unfoldable pub to_utc : Zone → Reading → Bool → ℕ
to_utc zone r fold = number r + 2 * day_us - zone.offset r fold

-- The argument `after`: a naive one is read as UTC.
pub data After : Type 0 where
  naive : Reading → After
  aware : ℕ → After

unfoldable pub instant : After → ℕ
instant (naive r) = number r + day_us
instant (aware u) = u

-- datetime.combine(day, time(h, m))
unfoldable pub combine : Date → ℕ → ℕ → Reading
combine day h m = record { date = day; micros = (h * 60 + m) * minute_us }

unfoldable pub day_matches : Date → Field → Field → Bool
day_matches day dom dow =
    let cron_dow = (weekday day + 1) % 7 in
    if not dom.restricted && not dow.restricted
    then true
    else if not dom.restricted
    then elem cron_dow dow.values
    else if not dow.restricted
    then elem day.day dom.values
    else elem day.day dom.values || elem cron_dow dow.values

unfoldable pub day_has_transition : Zone → Date → Result Bool
day_has_transition zone day = do
  tomorrow ← next_day day
  ok (
      not (
        zone.offset (record { date = day; micros = 0 }) false
        == zone.offset (record { date = tomorrow; micros = 0 }) false))

-- The two loops of the fast path: the first reading of the day that is later than `after`.
unfoldable pub first_minute : Reading → Date → ℕ → List ℕ → Option Reading
first_minute after day h [] = none
first_minute after day h (m ∷ ms) =
    let rest = first_minute after day h ms in
    if ltb (number after) (number (combine day h m)) then some (combine day h m) else rest

or_else {ℓ} : {A : Type ℓ} → Option A → Option A → Option A
or_else none other = other
or_else (some a) other = some a

unfoldable pub first_time : Reading → Date → List ℕ → List ℕ → Option Reading
unfolding or_else
first_time after day [] ms = none
first_time after day (h ∷ hs) ms =
    or_else (first_minute after day h ms) (first_time after day hs ms)

-- The reading exists with this fold: it comes back from UTC unchanged.
abbrev is_valid : Zone → Reading → Bool → Bool
is_valid zone r fold = number (zone.local (to_utc zone r fold)) == number r

-- `candidates` of the slow path, as instants.
unfoldable pub candidates : Zone → Bool → Reading → List ℕ
candidates zone dense r =
    let both = to_utc zone r false ∷ to_utc zone r true ∷ [] in
    let first_only = to_utc zone r false ∷ [] in
    if zone.offset r false == zone.offset r true
    then first_only
    else if is_valid zone r false && (is_valid zone r true && dense)
    then both
    else first_only

-- The earlier of the best so far and `u`, if `u` is after `after_utc`.
unfoldable pub consider : ℕ → Option ℕ → ℕ → Option ℕ
consider after_utc none u = if ltb after_utc u then some u else none
consider after_utc (some best) u = if ltb after_utc u && ltb u best then some u else some best

-- `min(future)` over the candidates of a reading, taken into the running minimum.
unfoldable pub consider_all : ℕ → Option ℕ → List ℕ → Option ℕ
unfolding consider
consider_all after_utc best [] = best
consider_all after_utc best (u ∷ us) = consider_all after_utc (consider after_utc best u) us

unfoldable pub best_minute : Zone → Bool → ℕ → Date → ℕ → Option ℕ → List ℕ → Option ℕ
best_minute zone dense after_utc day h best [] = best
best_minute zone dense after_utc day h best (m ∷ ms) =
    best_minute zone dense after_utc day h
      (consider_all after_utc best (candidates zone dense (combine day h m))) ms

unfoldable pub best_time : Zone → Bool → ℕ → Date → List ℕ → List ℕ → Option ℕ → Option ℕ
best_time zone dense after_utc day [] ms best = best
best_time zone dense after_utc day (h ∷ hs) ms best =
    best_time zone dense after_utc day hs ms (best_minute zone dense after_utc day h best ms)

-- What one day gives: an instant, if the schedule fires on it after `after`.
unfoldable pub try_day : Zone → Schedule → ℕ → Date → Bool → Option ℕ
unfolding or_else
try_day zone s after_utc day true =
    best_time zone (ltb 1 (length s.minute.values)) after_utc day s.hour.values s.minute.values none
try_day zone s after_utc day false =
    elim (first_time (zone.local after_utc) day s.hour.values s.minute.values) [
      | none ↦ none
      | some r ↦ some (to_utc zone r false)
    ]

abbrev pub max_days : ℕ
max_days = 366 * 4 + 1

-- The loop over the days, with the rounds left.
unfoldable pub scan : ℕ → Zone → Schedule → ℕ → Date → Result ℕ
scan zero zone s after_utc day = err no_matching_time
scan (suc rounds) zone s after_utc day =
    if not (elem day.month s.month.values)
    then (do d ← next_month day; scan rounds zone s after_utc d)
    else if not (day_matches day s.dom s.dow)
    then (do d ← next_day day; scan rounds zone s after_utc d)
    else do
      transition ← day_has_transition zone day
      elim (try_day zone s after_utc day transition) [
        | some u ↦ ok u
        | none ↦ (do d ← next_day day; scan rounds zone s after_utc d)
      ]

-- `_zone`: the tz database knows the name, or does not.
zone_or_raise : Option Zone → Result Zone
zone_or_raise none = err unknown_timezone
zone_or_raise (some zone) = ok zone

unfoldable pub next_run_at : (Text → Option Zone) → Text → Text → After → Result ℕ
unfolding zone_or_raise
next_run_at zones expr tz after = do
  s ← parse expr
  zone ← zone_or_raise (zones tz)
  scan max_days zone s (instant after) (zone.local (instant after)).date
