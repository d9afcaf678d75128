-- ===== src/Cron/Field.antt =====
-- The parser of scheduling/cron.py: one field, and the five of an expression. Text is the list of
-- its code points.
pub mod Laws
pub mod Meaning
pub mod Bounds
use agents_universe.Prelude.{
  ℕ, zero, suc, ◌+◌, ◌-◌, ◌*◌, String, Bool, false, true, ◌||◌, ◌&&◌, not, Option, none, some, List,
  [], ◌∷◌, ltb, leb, ◌==◌, if◌then◌else◌, length,
}
use text.Mathlib.Text.{◌==◌ as str_eq}
use agents_universe.Prelude.Text.{
  Text, codes, text_eq, has_char, strip, isascii, partition, split_on, split,
}
use agents_universe.Cron.Error.{
  CronError, Result, ok, err, ◌>>=◌, empty_field, empty_entry, invalid_step, inverted_range,
  invalid_value, no_value, out_of_range, wrong_field_count,
}
use agents_universe.Cron.Values.{elem, add, discard, update, range}

-- The interpreter's limit on the digits that `int()` reads.
abbrev pub int_max_str_digits : ℕ
int_max_str_digits = 4300

abbrev is_digit : ℕ → Bool
is_digit c = leb b'0' c && leb c b'9'

-- `text.isdigit()` of ASCII text.
abbrev all_digits : Text → Bool
all_digits [] = true
all_digits (c ∷ t) = is_digit c && all_digits t

abbrev isdigit : Text → Bool
isdigit [] = false
isdigit (c ∷ t) = all_digits (c ∷ t)

-- `int(text)` of a text of digits.
abbrev decimal : ℕ → Text → ℕ
decimal n [] = n
decimal n (c ∷ t) = decimal (n * 10 + (c - b'0')) t

digits_value : Text → Option ℕ
digits_value t =
    if not (isascii t) || not (isdigit t)
    then none
    else if ltb int_max_str_digits (length t)
    then none
    else some (decimal 0 t)

unfoldable pub parse_digits : Text → Option ℕ
unfolding digits_value
parse_digits t = digits_value (strip t)

checked_value : String → ℕ → ℕ → Option ℕ → Result ℕ
checked_value name lo hi none = err (invalid_value name)
checked_value name lo hi (some v) = if ltb v lo || ltb hi v then err (out_of_range name v) else ok v

unfoldable pub int_field : Text → String → ℕ → ℕ → Result ℕ
unfolding checked_value
int_field t name lo hi = checked_value name lo hi (parse_digits t)

-- A part of a field without its step, and the step, if a slash is written.
pub record Stepped : Type 0 where
  pub part : Text
  pub step : ℕ
  pub stepped : Bool

checked_step : String → Text → Option ℕ → Result Stepped
checked_step name part none = err (invalid_step name)
checked_step name part (some zero) = err (invalid_step name)
checked_step name part (some (suc n)) =
    ok (record { part = strip part; step = suc n; stepped = true })

unfoldable pub take_step : String → Text → Result Stepped
unfolding checked_step
take_step name part =
    let (before, after) = partition b'/' part in
    if has_char b'/' part
    then checked_step name before (parse_digits after)
    else ok (record { part = part; step = 1; stepped = false })

pub record Span : Type 0 where
  pub start : ℕ
  pub last : ℕ

unfoldable pub take_span : String → ℕ → ℕ → Stepped → Result Span
take_span name lo hi s =
    let (start_text, end_text) = partition b'-' s.part in
    if text_eq s.part (codes "*")
    then ok (record { start = lo; last = hi })
    else if has_char b'-' s.part
    then (do
      start ← int_field start_text name lo hi
      end ← int_field end_text name lo hi
      if ltb end start
          then err (inverted_range name)
          else ok (record { start = start; last = end }))
    else (do
      start ← int_field s.part name lo hi
      ok (record { start = start; last = if s.stepped then hi else start }))

is_empty : Text → Bool
is_empty [] = true
is_empty (c ∷ t) = false

-- One round of the loop over the parts: the values of a part.
unfoldable pub part_values : String → ℕ → ℕ → Text → Result (List ℕ)
unfolding is_empty
part_values name lo hi raw = if is_empty (strip raw) then err (empty_entry name) else do
  s ← take_step name (strip raw)
  r ← take_span name lo hi s
  ok (range r.start r.last s.step)

unfoldable pub parts_values : String → ℕ → ℕ → List Text → List ℕ → Result (List ℕ)
parts_values name lo hi [] values = ok values
parts_values name lo hi (raw ∷ rest) values = do
  vs ← part_values name lo hi raw
  parts_values name lo hi rest (update values vs)

-- 7 is Sunday too.
unfoldable pub alias_sunday : Bool → List ℕ → List ℕ
alias_sunday false values = values
alias_sunday true values = if elem 7 values then add 0 (discard 7 values) else values

-- `_Field`
pub record Field : Type 0 where
  pub values : List ℕ
  pub restricted : Bool

finish : String → Text → List ℕ → Result Field
finish name text [] = err (no_value name)
finish name text (v ∷ vs) =
    ok (record { values = v ∷ vs; restricted = not (text_eq text (codes "*")) })

unfoldable pub parse_field : Text → String → ℕ → ℕ → Bool → Result Field
unfolding is_empty finish
parse_field raw name lo hi sunday_alias =
    let text = strip raw in
    if is_empty text then err (empty_field name) else do
      values ← parts_values name lo hi (split_on b',' text) []
      finish name text (alias_sunday sunday_alias values)

pub record Schedule : Type 0 where
  pub minute : Field
  pub hour : Field
  pub dom : Field
  pub month : Field
  pub dow : Field

five_fields : List Text → Result Schedule
five_fields (a ∷ b ∷ c ∷ d ∷ e ∷ []) = do
  minute ← parse_field a "minute" 0 59 false
  hour ← parse_field b "hour" 0 23 false
  dom ← parse_field c "day" 1 31 false
  month ← parse_field d "month" 1 12 false
  dow ← parse_field e "weekday" 0 7 true
  ok (record { minute = minute; hour = hour; dom = dom; month = month; dow = dow })
five_fields parts = err (wrong_field_count (length parts))

-- `_parse`
unfoldable pub parse : Text → Result Schedule
unfolding five_fields
parse expr = five_fields (split expr)
