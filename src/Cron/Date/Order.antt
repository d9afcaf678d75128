-- ===== src/Cron/Date/Order.antt =====
-- The calendar's order: ordinals count the days.
use native.Mathlib.Numerals.{add-one}
use native.Mathlib.Decide.{ℕ_discrete}
use agents_universe.Prelude.{
  ℕ, zero, suc, ◌+◌, ◌≤◌, ◌<◌, ◌≡◌, refl, ◌≢◌, inl, inr, ltb, if◌then◌else◌, arith,
}
use agents_universe.Cron.Error.{ok, err, >>=-ok, >>=-err, no_matching_time}
use agents_universe.Cron.Date.{
  Date, is_leap, days_in_month, days_before_month, days_before_year, ordinal, next_day, add_days,
  next_month,
}

pub record IsDate (d : Date) : Type 0 where
  pub year_pos : 1 ≤ d.year
  pub month_pos : 1 ≤ d.month
  pub month_le : d.month ≤ 12
  pub day_pos : 1 ≤ d.day
  pub day_le : d.day ≤ days_in_month d.year d.month

days_in_month_bounds : (y m : ℕ) → 1 ≤ m → (28 ≤ days_in_month y m) × (days_in_month y m ≤ 31)
unfolding days_in_month
days_in_month_bounds y m h = ground arith

pub next_day-IsDate : (d e : Date) → IsDate d → next_day d ≡ ok e → IsDate e
unfolding next_day
next_day-IsDate d e v h =
    ground (arith, days_in_month_bounds d.year (d.month + 1), days_in_month_bounds (d.year + 1) 1)

days_before_month-suc :
    (y m : ℕ) → days_before_month y (m + 1) ≡ days_before_month y m + days_in_month y m
unfolding days_before_month
days_before_month-suc y m = rw add-one

-- From one January to the next.
year_length :
    (k : ℕ)
    → days_before_year (suc (suc k)) ≡ days_before_year (suc k) + days_before_month (suc k) 13
unfolding days_before_year days_before_month days_in_month is_leap
year_length k = ground arith

days_before_month_mono :
    (y m n : ℕ) → m < n → days_before_month y m + days_in_month y m ≤ days_before_month y n
unfolding days_before_month
days_before_month_mono y m zero h = absurd (omega arith)
days_before_month_mono y m (suc n) h = elim (ℕ_discrete m n) [
  | yes e ↦ rw e (omega arith)
  | no ne ↦ omega (arith, days_before_month_mono y m n (omega arith))
]

days_before_year_mono :
    (y z : ℕ) → 1 ≤ y → y < z → days_before_year y + days_before_month y 13 ≤ days_before_year z
days_before_year_mono zero z p h = absurd (omega arith)
days_before_year_mono (suc k) zero p h = absurd (omega arith)
days_before_year_mono (suc k) (suc zero) p h = absurd (omega arith)
days_before_year_mono (suc k) (suc (suc z)) p h = elim (ℕ_discrete k z) [
  | yes e ↦ rw e (omega (arith, year_length z))
  | no ne ↦ omega (arith, days_before_year_mono (suc k) (suc z) p (omega arith), year_length z)
]

-- The ordinal of the day before the first of the month.
abbrev pub month_start : Date → ℕ
month_start d = days_before_year d.year + days_before_month d.year d.month

pub ordinal_lem : (d : Date) → ordinal d ≡ month_start d + d.day
unfolding ordinal
ordinal_lem d = refl

ordinal-le-year :
    (d : Date) → IsDate d → ordinal d ≤ days_before_year d.year + days_before_month d.year 13
ordinal-le-year d v =
    omega (arith, ordinal_lem d, days_before_month_mono d.year d.month 13 (omega arith))

eq_of_not_lt : (m n : ℕ) → ¬ (m < n) → ¬ (n < m) → m ≡ n
eq_of_not_lt m n p q = omega arith

same_month_of_year :
    (y m n k : ℕ)
    → 1 ≤ k
    → k ≤ days_in_month y n
    → days_before_month y m < days_before_month y n + k
    → days_before_month y n + k ≤ days_before_month y m + days_in_month y m
    → n ≡ m
same_month_of_year y m n k p q lo hi =
    eq_of_not_lt n m (λ h. omega (arith, days_before_month_mono y n m h))
      (λ h. omega (arith, days_before_month_mono y m n h))

year_of_ordinal :
    (d e : Date)
    → IsDate d
    → IsDate e
    → month_start d < ordinal e
    → ordinal e ≤ month_start d + days_in_month d.year d.month
    → e.year ≡ d.year
year_of_ordinal d e vd ve lo hi =
    eq_of_not_lt e.year d.year
      (λ h. omega (arith, days_before_year_mono e.year d.year ve.year_pos h, ordinal-le-year e ve))
      (λ h. omega (
        arith,
        days_before_year_mono d.year e.year vd.year_pos h,
        ordinal_lem e,
        days_before_month_mono d.year d.month 13 (omega arith),
      ))

-- A date whose ordinal lies in the month of another date is in that month.
pub same_month :
    (d e : Date)
    → IsDate d
    → IsDate e
    → month_start d < ordinal e
    → ordinal e ≤ month_start d + days_in_month d.year d.month
    → (e.year ≡ d.year) × (e.month ≡ d.month)
same_month d e vd ve lo hi =
    let y = year_of_ordinal d e vd ve lo hi in
    let day_le : e.day ≤ days_in_month d.year e.month = rw (← y) ve.day_le in
    let o : ordinal e ≡ days_before_year d.year + days_before_month d.year e.month + e.day =
      rw (← y) (ordinal_lem e) in
    (
      y,
      same_month_of_year d.year d.month e.month e.day ve.day_pos day_le (omega arith) (omega arith),
    )

Date-eq : (d e : Date) → e.year ≡ d.year → e.month ≡ d.month → e.day ≡ d.day → e ≡ d
Date-eq d e y m k = λ i. record { year = y i; month = m i; day = k i }

-- An ordinal belongs to one date.
pub ordinal_inj : (d e : Date) → IsDate d → IsDate e → ordinal e ≡ ordinal d → e ≡ d
ordinal_inj d e vd ve h =
    let (y, m) =
      same_month d e vd ve (omega (arith, ordinal_lem d)) (omega (arith, ordinal_lem d)) in
    let o : ordinal e ≡ days_before_year d.year + days_before_month d.year d.month + e.day =
      rw (← y, ← m) (ordinal_lem e) in
    Date-eq d e y m (omega (arith, ordinal_lem d))

days_before_january : (y : ℕ) → days_before_month y 1 ≡ 0
unfolding days_before_month days_in_month
days_before_january y = refl

days_before_next_year :
    (y : ℕ) → 1 ≤ y → days_before_year (y + 1) ≡ days_before_year y + days_before_month y 13
days_before_next_year zero h = absurd (omega arith)
days_before_next_year (suc k) h = rw add-one (year_length k)

-- The next day's ordinal is the next ordinal, at the end of a month and of a year too.
pub ordinal-next_day : (d e : Date) → IsDate d → next_day d ≡ ok e → ordinal e ≡ ordinal d + 1
unfolding next_day ordinal
ordinal-next_day d e v h = ground (
  arith,
  days_before_month-suc d.year d.month,
  days_before_january d.year,
  days_before_january (d.year + 1),
  days_before_next_year d.year,
)

pub add_days_lem :
    (n : ℕ) (d e : Date) → IsDate d → add_days n d ≡ ok e → IsDate e × (ordinal e ≡ ordinal d + n)
unfolding add_days
add_days_lem zero d e v h = let same : e ≡ d = ground arith in rw same (v, omega arith)
add_days_lem (suc n) d e v h =
    let (f, step, rest) = >>=-ok (next_day d) _ h in
    let (w, o) = add_days_lem n f e (next_day-IsDate d f v step) rest in
    (w, omega (arith, ordinal-next_day d f v step))

first_after : Date → Date
first_after d =
    if ltb d.month 12
    then record { year = d.year; month = d.month + 1; day = 1 }
    else record { year = d.year + 1; month = 1; day = 1 }

first_after_lem :
    (d : Date)
    → IsDate d
    → IsDate (first_after d)
      × (month_start (first_after d) ≡ month_start d + days_in_month d.year d.month)
unfolding first_after
first_after_lem d v = (
  ground (arith, days_in_month_bounds d.year (d.month + 1), days_in_month_bounds (d.year + 1) 1),
  ground (
    arith,
    days_before_month-suc d.year d.month,
    days_before_january (d.year + 1),
    days_before_next_year d.year,
  ),
)

-- The first day of the next month, and its ordinal: every day between is in the month of `d`.
pub next_month_lem :
    (d e : Date)
    → IsDate d
    → next_month d ≡ ok e
    → IsDate e × (ordinal e ≡ month_start d + days_in_month d.year d.month + 1)
unfolding next_month
next_month_lem d e v h =
    let first : Date = record d { day = 1 } in
    let vf : IsDate first = record {
      year_pos = v.year_pos;
      month_pos = v.month_pos;
      month_le = v.month_le;
      day_pos = omega arith;
      day_le = omega (arith, days_in_month_bounds d.year d.month v.month_pos);
    } in
    let (far, added, final) = >>=-ok (add_days 32 first) _ h in
    let (vfar, ofar) = add_days_lem 32 first far vf added in
    let (vn, sn) = first_after_lem d v in
    let n = first_after d in
    let b = days_in_month_bounds d.year d.month v.month_pos in
    let bn = days_in_month_bounds n.year n.month vn.month_pos in
    let (y, m) =
      same_month n far vn vfar (omega (arith, ordinal_lem first))
        (omega (arith, ordinal_lem first)) in
    let made : e ≡ record { year = n.year; month = n.month; day = 1 } = ground arith in
    rw made (
      record {
        year_pos = vn.year_pos;
        month_pos = vn.month_pos;
        month_le = vn.month_le;
        day_pos = omega arith;
        day_le = omega arith;
      },
      omega (arith, ordinal_lem (record { year = n.year; month = n.month; day = 1 })),
    )

pub next_day-matched : (d : Date) → next_day d ≢ err no_matching_time
unfolding next_day
next_day-matched d e = ground arith

add_days-matched : (n : ℕ) (d : Date) → add_days n d ≢ err no_matching_time
unfolding add_days
add_days-matched zero d e = cc
add_days-matched (suc n) d e = elim (>>=-err (next_day d) _ e) [
  | inl now ↦ next_day-matched d now
  | inr (f, _, later) ↦ add_days-matched n f later
]

pub next_month-matched : (d : Date) → next_month d ≢ err no_matching_time
unfolding next_month
next_month-matched d e =
    let first : Date = record d { day = 1 } in
    elim (>>=-err (add_days 32 first) _ e) [
      | inl now ↦ add_days-matched 32 first now
      | inr (f, _, later) ↦ cc
    ]
