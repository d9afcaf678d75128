-- ===== src/Cron/Utc.antt =====
-- A zone and an expression of scheduling/cron.py for tests.
use mathlib.Core.Option.{some-injective}
use mathlib.Core.Path.{subst}
use agents_universe.Prelude.{◌+◌, ◌-◌, ◌*◌, ◌≡◌, refl, Option, some, arith}
use agents_universe.Prelude.Text.{Text, codes, strip, isascii, partition, split_on, split}
use agents_universe.Cron.Error.{ok, >>=-ok}
use agents_universe.Cron.Values.{elem, add, discard, update, range}
use agents_universe.Cron.Field.{
  parse_field, parts_values, part_values, take_step, take_span, int_field, parse_digits,
  alias_sunday, parse,
}
use agents_universe.Cron.Date.{
  Date, days_in_month, days_before_month, days_before_year, ordinal, weekday, next_day,
}
use agents_universe.Cron.Date.Order.{IsDate}
use agents_universe.Cron.Next.{
  Zone, After, aware, day_us, minute_us, to_utc, instant, combine, day_matches, day_has_transition,
  first_minute, first_time, try_day, scan, next_run_at,
}
use agents_universe.Cron.Next.Scan.{IsMonotone}
use agents_universe.Cron.Next.Earliest.{NeverTransitions}
use agents_universe.Cron.Next.Run.{IsCalendar}

-- UTC, for instants of the day on which `after` lies: 25 November 2026, a Wednesday.
abbrev pub today : Date
today = record { year = 2026; month = 11; day = 25 }

abbrev pub utc : Zone
utc = record {
  offset = λ r fold. day_us;
  local = λ u. record { date = today; micros = u - 739_946 * day_us };
}

abbrev pub zones : Text → Option Zone
zones tz = some utc

abbrev pub ten_o_clock : After
ten_o_clock = aware (739_946 * day_us + 600 * minute_us)

today-ordinal : ordinal today ≡ 739_945
unfolding ordinal days_before_year days_before_month days_in_month
today-ordinal = refl

pub utc-IsMonotone : IsMonotone utc
unfolding to_utc
utc-IsMonotone r u quiet h = omega (arith, today-ordinal)

pub utc-NeverTransitions : NeverTransitions utc
unfolding day_has_transition
utc-NeverTransitions day b e = let (d, step, known) = >>=-ok (next_day day) _ e in ground arith

pub today-IsDate : IsDate today
unfolding days_in_month
today-IsDate = omega arith

-- Half past nine on weekdays.
abbrev pub weekdays : Text
weekdays = codes "30 9 * * 1-5"

-- The next one is that of the 26th, a Thursday.
pub next_weekday :
    next_run_at zones weekdays (codes "UTC") ten_o_clock ≡ ok (739_947 * day_us + 570 * minute_us)
unfolding next_run_at scan try_day first_time first_minute day_has_transition day_matches instant
    combine to_utc parse parse_field parts_values part_values take_step take_span int_field
    parse_digits alias_sunday elem add discard update range split split_on strip partition isascii
    weekday ordinal days_before_year days_before_month days_in_month next_day
next_weekday = refl

pub zones-good :
    (tz : Text) (zone : Zone) → zones tz ≡ some zone → IsMonotone zone × IsCalendar zone
zones-good tz zone e =
    subst (λ z. IsMonotone z × IsCalendar z) (some-injective utc zone e)
      (utc-IsMonotone, λ u. today-IsDate)
