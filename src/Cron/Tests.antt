-- ===== src/Cron/Tests.antt =====
-- Runs of scheduling/cron.py, and its theorems at concrete inputs.
use mathlib.Core.Option.{some-injective}
use mathlib.Core.Path.{subst}
use agents_universe.Prelude.{
  Option, some, ltb, not, ◌&&◌, ◌||◌, if◌then◌else◌, ◌-◌, ℕ, ◌+◌, ◌*◌, ◌≡◌, refl, ◌↔◌, Bool, true,
  false, [], ◌∷◌, arith,
}
use agents_universe.Prelude.Text.{Text, codes, strip, isascii, partition, split_on, split}
use agents_universe.Cron.Error.{ok, err, no_matching_time}
use agents_universe.Cron.Values.{elem, add, discard, update, range}
use agents_universe.Cron.Field.{
  Field, Schedule, parse_field, parts_values, part_values, take_step, take_span, int_field,
  parse_digits, alias_sunday, parse,
}
use agents_universe.Cron.Field.Bounds.{IsSchedule, parse-IsSchedule}
use agents_universe.Cron.Field.Meaning.{AnyCovers, parse_field-AnyCovers}
use agents_universe.Cron.Utc.{
  utc, zones, ten_o_clock, weekdays, utc-NeverTransitions, today, today-IsDate, next_weekday,
}
use agents_universe.Cron.Date.{
  Date, days_in_month, days_before_month, days_before_year, ordinal, weekday, next_day, add_days,
  next_month,
}
use agents_universe.Cron.Date.Order.{IsDate}
use agents_universe.Cron.Next.{
  Zone, After, aware, number, candidates, consider, consider_all, best_minute, best_time, day_us,
  minute_us, to_utc, instant, combine, day_matches, day_has_transition, first_minute, first_time,
  try_day, scan, next_run_at,
}
use agents_universe.Cron.Next.Scan.{Due}
use agents_universe.Cron.Next.Earliest.{NeverTransitions, Pending, Earliest}
use agents_universe.Cron.Next.Run.{
  Inputs, IsCalendar, start, next_run_at-Due, next_run_at-Earliest, next_run_at_exhausted,
}

abbrev quarter_hours : Text
quarter_hours = codes "*/15 9-17 * * 1,3,5-7"

-- A zone whose clocks show the hour from `hour` of the 25th twice: first with an offset of one hour,
-- then with none.
abbrev falls_back : ℕ → Zone
falls_back hour = record {
  offset = λ r fold.
      if ltb (number r) (739_945 * day_us + hour)
        || (ltb (number r) (739_945 * day_us + hour + 60 * minute_us) && not fold)
      then day_us + 60 * minute_us
      else day_us;
  local = λ u. record {
    date = today;
    micros = u - 739_946 * day_us + (if ltb u (739_946 * day_us + hour) then 60 * minute_us else 0);
  };
}

-- The hour from one o'clock.
abbrev zones_at_night : Text → Option Zone
zones_at_night tz = some (falls_back (60 * minute_us))

abbrev half_past_one : After
half_past_one = aware (739_946 * day_us + 30 * minute_us)

abbrev twice : Text
twice = codes "0,30 1 * * *"

-- After the first half past one comes the second one o'clock.
second_one :
    next_run_at zones_at_night twice (codes "Europe/Paris") half_past_one
    ≡ ok (739_946 * day_us + 60 * minute_us)
unfolding next_run_at scan try_day best_time best_minute candidates consider_all consider
    day_has_transition day_matches instant combine to_utc parse parse_field parts_values part_values
    take_step take_span int_field parse_digits alias_sunday elem add discard update range split
    split_on strip partition isascii weekday ordinal days_before_year days_before_month
    days_in_month next_day
second_one = refl

next_run_at-Due_example :
    (i : Inputs zones_at_night twice (codes "Europe/Paris")) × Due i.zone i.s
      (instant half_past_one)
      (739_946 * day_us + 60 * minute_us)
next_run_at-Due_example =
    next_run_at-Due zones_at_night twice (codes "Europe/Paris") half_past_one
      (739_946 * day_us + 60 * minute_us)
      (λ zone e.
        subst IsCalendar (some-injective (falls_back (60 * minute_us)) zone e) (λ u. today-IsDate))
      second_one

-- The hour from one minute past eleven at night: both midnights of the 25th have the offset of one hour.
abbrev zones_across_midnight : Text → Option Zone
zones_across_midnight tz = some (falls_back (1381 * minute_us))

-- After the second half past eleven comes the first quarter to twelve, which is past.
past_quarter :
    next_run_at zones_across_midnight
      (codes "45 23 * * *")
      (codes "America/St_Johns")
      (aware (739_946 * day_us + 1410 * minute_us))
    ≡ ok (739_946 * day_us + 1365 * minute_us)
unfolding next_run_at scan try_day first_time first_minute day_has_transition day_matches instant
    combine to_utc parse parse_field parts_values part_values take_step take_span int_field
    parse_digits alias_sunday elem add discard update range split split_on strip partition isascii
    weekday ordinal days_before_year days_before_month days_in_month next_day
past_quarter = refl

next_run_at-Earliest_example :
    (i : Inputs zones weekdays (codes "UTC")) × Earliest i.zone i.s
      (start i.zone ten_o_clock)
      (739_947 * day_us + 570 * minute_us)
next_run_at-Earliest_example =
    next_run_at-Earliest zones weekdays (codes "UTC") ten_o_clock
      (739_947 * day_us + 570 * minute_us)
      (λ zone e.
        subst (λ z. NeverTransitions z × IsCalendar z) (some-injective utc zone e)
          (utc-NeverTransitions, λ u. today-IsDate))
      next_weekday

-- The thirty-first of February.
abbrev no_day : Text
no_day = codes "0 0 31 2 *"

abbrev only : ℕ → Bool → Field
only v restricted = record { values = v ∷ []; restricted = restricted }

abbrev no_day_schedule : Schedule
no_day_schedule = record {
  minute = only 0 true;
  hour = only 0 true;
  dom = only 31 true;
  month = only 2 true;
  dow = record { values = 0 ∷ 1 ∷ 2 ∷ 3 ∷ 4 ∷ 5 ∷ 6 ∷ []; restricted = false };
}

no_day_parsed : parse no_day ≡ ok no_day_schedule
unfolding parse parse_field parts_values part_values take_step take_span int_field parse_digits
    alias_sunday elem add discard update range split split_on strip partition isascii
no_day_parsed = refl

no_day_exhausted : next_run_at zones no_day (codes "UTC") ten_o_clock ≡ err no_matching_time
unfolding next_run_at scan try_day first_time first_minute day_has_transition day_matches instant
    combine to_utc parse parse_field parts_values part_values take_step take_span int_field
    parse_digits alias_sunday elem add discard update range split split_on strip partition isascii
    weekday ordinal days_before_year days_before_month days_in_month next_day add_days next_month
no_day_exhausted = refl

next_run_at_exhausted_example :
    ¬ Pending no_day_schedule
      (start utc ten_o_clock)
      (combine (record { year = 2026; month = 12; day = 1 }) 0 0)
unfolding combine ordinal days_before_year days_before_month days_in_month
next_run_at_exhausted_example =
    next_run_at_exhausted zones no_day (codes "UTC") ten_o_clock no_day_schedule utc no_day_parsed
      refl utc-NeverTransitions (λ u. today-IsDate) no_day_exhausted
      (combine (record { year = 2026; month = 12; day = 1 }) 0 0) (omega arith)

parse-IsSchedule_example : IsSchedule no_day_schedule
parse-IsSchedule_example = parse-IsSchedule no_day no_day_schedule no_day_parsed

-- From nine to five, and at midnight.
abbrev office : Text
office = codes " 9-17/4,0 "

office_parsed :
    parse_field office "hour" 0 23 false
    ≡ ok (record { values = 0 ∷ 9 ∷ 13 ∷ 17 ∷ []; restricted = true })
unfolding parse_field parts_values part_values take_step take_span int_field parse_digits
    alias_sunday elem add discard update range split_on strip partition isascii
office_parsed = refl

parse_field-AnyCovers_example :
    (elem 13 (0 ∷ 9 ∷ 13 ∷ 17 ∷ []) ≡ true)
    ↔ AnyCovers "hour" 0 23 (split_on b',' (strip office)) 13
parse_field-AnyCovers_example =
    parse_field-AnyCovers office "hour" 0 23 false
      (record { values = 0 ∷ 9 ∷ 13 ∷ 17 ∷ []; restricted = true }) 13 office_parsed

abbrev new_years_eve : Date
new_years_eve = record { year = 2028; month = 12; day = 31 }

eve-IsDate : IsDate new_years_eve
unfolding days_in_month
eve-IsDate = omega arith
