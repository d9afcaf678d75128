-- ===== src/Cron/Next/Exhausted.antt =====
-- The search of `next_run_at` that gives up: the days it has looked at.
use agents_universe.Prelude.{
  ℕ, zero, suc, ◌+◌, ◌<◌, ◌≡◌, ◌≢◌, ap, inl, inr, arith, Bool-cases, Option-cases,
}
use agents_universe.Cron.Error.{ok, err, >>=-err, no_matching_time}
use agents_universe.Cron.Values.{elem}
use agents_universe.Cron.Field.{Schedule}
use agents_universe.Cron.Field.Bounds.{IsSchedule}
use agents_universe.Cron.Date.{Date, ordinal, next_day, next_month}
use agents_universe.Cron.Date.Order.{
  IsDate, ordinal_lem, next_day-IsDate, ordinal-next_day, next_month_lem, next_day-matched,
  next_month-matched,
}
use agents_universe.Cron.Next.{Zone, day_matches, day_has_transition, first_time, try_day, scan}
use agents_universe.Cron.Next.Earliest.{
  NeverTransitions, NoneBefore, skip_month, skip_day, day_least,
}

day_has_transition-matched :
    (zone : Zone) (d : Date) → day_has_transition zone d ≢ err no_matching_time
unfolding day_has_transition
day_has_transition-matched zone d e = elim (>>=-err (next_day d) _ e) [
  | inl raised ↦ next_day-matched d raised
  | inr (t, _, later) ↦ cc
]

module _ (zone : Zone) (s : Schedule) (w : IsSchedule s) (after_utc : ℕ) where
  -- Each round that is left without a result takes one day, at least, off what may be pending.
  pub scan-NoneBefore :
      (rounds : ℕ) (day : Date)
      → NeverTransitions zone
      → IsDate day
      → NoneBefore zone s w after_utc (ordinal day)
      → scan rounds zone s after_utc day ≡ err no_matching_time
      → NoneBefore zone s w after_utc (ordinal day + rounds)
  unfolding scan try_day
  scan-NoneBefore zero day never v nb e = λ r p. omega (arith, nb r p)
  scan-NoneBefore (suc n) day never v nb e = elim (Bool-cases (elem day.month s.month.values)) [
    | inr off ↦ elim (>>=-err (next_month day) (λ d. scan n zone s after_utc d) (rw off at e)) [
      | inl raised ↦ absurd (next_month-matched day raised)
      | inr (d, step, rest) ↦ later d (after_month d step) (
          scan-NoneBefore n d never (next_month_lem day d v step).0
            (skip_month zone s w after_utc day d v step off nb) rest)
    ]
    | inl mo ↦ elim (Bool-cases (day_matches day s.dom s.dow)) [
      | inr off ↦
          elim (>>=-err (next_day day) (λ d. scan n zone s after_utc d) (rw (mo, off) at e)) [
            | inl raised ↦ absurd (next_day-matched day raised)
            | inr (d, step, rest) ↦ later d (omega (arith, ordinal-next_day day d v step)) (
                scan-NoneBefore n d never (next_day-IsDate day d v step)
                  (skip_day zone s w after_utc day d v step
                    (λ r p same.
                      ground
                        (arith, p.fires.day, ap (λ (x : Date). day_matches x s.dom s.dow) same))
                    nb)
                  rest)
          ]
      | inl da ↦ elim (>>=-err (day_has_transition zone day) _ (rw (mo, da) at e)) [
        | inl raised ↦ absurd (day_has_transition-matched zone day raised)
        | inr (moved, known, rest) ↦
            let quiet = rw (never day moved known) at rest in
            elim (Option-cases
              (first_time (zone.local after_utc) day s.hour.values s.minute.values)) [
                | inr (r, found) ↦ absurd (ground (arith, quiet))
                | inl missing ↦
                    elim (>>=-err (next_day day) (λ d. scan n zone s after_utc d)
                      (rw missing at quiet)) [
                        | inl raised ↦ absurd (next_day-matched day raised)
                        | inr (d, step, again) ↦
                            later d (omega (arith, ordinal-next_day day d v step)) (
                              scan-NoneBefore n d never (next_day-IsDate day d v step)
                                (skip_day zone s w after_utc day d v step
                                  (λ r p same.
                                    let (q, found, _) = day_least zone s w after_utc day r p same in
                                    cc)
                                  nb)
                                again)
                      ]
              ]
      ]
    ]
  ]
    where
      later :
          (d : Date)
          → ordinal day < ordinal d
          → NoneBefore zone s w after_utc (ordinal d + n)
          → NoneBefore zone s w after_utc (ordinal day + suc n)
      later d h nb' r p = omega (arith, nb' r p)

      after_month : (d : Date) → next_month day ≡ ok d → ordinal day < ordinal d
      after_month d step = omega (arith, (next_month_lem day d v step).1, ordinal_lem day)
