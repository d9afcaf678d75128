-- ===== src/Cron/Field/Bounds.antt =====
-- The bounds of the five fields that `_parse` of scheduling/cron.py returns.
use agents_universe.Prelude.{◌≡◌, List, [], ◌∷◌, false, true, arith}
use agents_universe.Prelude.Text.{Text, split}
use agents_universe.Cron.Error.{ok, >>=-ok}
use agents_universe.Cron.Field.{Schedule, five_fields, parse, parse_field}
use agents_universe.Cron.Field.Laws.{
  IsWellFormed, parse_field-IsWellFormed, parse_weekday-IsWellFormed,
}

pub record IsSchedule (s : Schedule) : Type 0 where
  pub minutes : IsWellFormed 0 59 s.minute
  pub hours : IsWellFormed 0 23 s.hour
  pub days : IsWellFormed 1 31 s.dom
  pub months : IsWellFormed 1 12 s.month
  pub weekdays : IsWellFormed 0 6 s.dow

five_fields-IsSchedule :
    (parts : List Text) (s : Schedule) → five_fields parts ≡ ok s → IsSchedule s
unfolding five_fields
five_fields-IsSchedule (a ∷ b ∷ c ∷ d ∷ e ∷ []) s h =
    let (mi, i, h1) = >>=-ok (parse_field a "minute" 0 59 false) _ h in
    let (ho, j, h2) = >>=-ok (parse_field b "hour" 0 23 false) _ h1 in
    let (da, k, h3) = >>=-ok (parse_field c "day" 1 31 false) _ h2 in
    let (mo, l, h4) = >>=-ok (parse_field d "month" 1 12 false) _ h3 in
    let (we, m, h5) = >>=-ok (parse_field e "weekday" 0 7 true) _ h4 in
    let made : s ≡ record { minute = mi; hour = ho; dom = da; month = mo; dow = we } =
      ground arith in
    rw made (record {
      minutes = parse_field-IsWellFormed a "minute" 0 59 mi i;
      hours = parse_field-IsWellFormed b "hour" 0 23 ho j;
      days = parse_field-IsWellFormed c "day" 1 31 da k;
      months = parse_field-IsWellFormed d "month" 1 12 mo l;
      weekdays = parse_weekday-IsWellFormed e "weekday" we m;
    })
five_fields-IsSchedule [] s h = ground arith
five_fields-IsSchedule (a ∷ []) s h = ground arith
five_fields-IsSchedule (a ∷ b ∷ []) s h = ground arith
five_fields-IsSchedule (a ∷ b ∷ c ∷ []) s h = ground arith
five_fields-IsSchedule (a ∷ b ∷ c ∷ d ∷ []) s h = ground arith
five_fields-IsSchedule (a ∷ b ∷ c ∷ d ∷ e ∷ f ∷ r) s h = ground arith

-- An expression that parses has, in each field, values that ascend without repetition, that lie
-- within the bounds of the field (0 to 6 for the weekday), and of which there is at least one.
pub parse-IsSchedule : (expr : Text) (s : Schedule) → parse expr ≡ ok s → IsSchedule s
unfolding parse
parse-IsSchedule expr s h = five_fields-IsSchedule (split expr) s h
