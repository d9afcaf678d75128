-- ===== src/Cron/Next/Scan.antt =====
-- The loop over the days of `next_run_at`: what it returns is due, and nothing due is skipped.
use agents_universe.Prelude.{
  ℕ, zero, suc, ◌<◌, ◌≡◌, ◌⊎◌, ap, ◌∙◌, inl, inr, Bool, true, false, some, List, arith, Bool-cases,
  Option-cases,
}
use agents_universe.Cron.Error.{ok, >>=-ok}
use agents_universe.Cron.Values.{elem}
use agents_universe.Cron.Field.{Schedule}
use agents_universe.Cron.Date.{Date, next_day, next_month}
use agents_universe.Cron.Date.Order.{IsDate, next_day-IsDate, next_month_lem}
use agents_universe.Cron.Next.{
  Reading, Zone, number, to_utc, combine, day_matches, day_has_transition, first_time, try_day,
  scan,
}
use agents_universe.Cron.Next.Fires.{Fires, AtTime, AtTime-Fires, first_time-some}
use agents_universe.Cron.Next.Slow.{Reads, best_time-IsDue}

-- On a day with no transition, a reading later than that of an instant stands for a later instant.
-- Not all zones of the tz database are so: clocks that fell back across midnight showed the end of a day
-- twice, whose two midnights have the same offset.
abbrev pub IsMonotone : Zone → Type 0
IsMonotone zone =
    (r : Reading) (u : ℕ)
    → day_has_transition zone r.date ≡ ok false
    → number (zone.local u) < number r
    → u < to_utc zone r false

-- Later than `after_utc`: as an instant on a day with a transition, on the local clock on any other.
abbrev pub IsLater : Zone → ℕ → Reading → ℕ → Type 0
IsLater zone after_utc r u =
    ((day_has_transition zone r.date ≡ ok true) × (after_utc < u))
    ⊎ ((day_has_transition zone r.date ≡ ok false)
        × (number (zone.local after_utc) < number r)
        × (u ≡ to_utc zone r false))

-- A fire time after `after_utc`.
pub record Due (zone : Zone) (s : Schedule) (after_utc : ℕ) (u : ℕ) : Type 0 where
  pub r : Reading
  pub later : IsLater zone after_utc r u
  pub valid : IsDate r.date
  pub fires : Fires s r
  pub reads : Reads zone r u

pub AtTime-date : (day : Date) (hs ms : List ℕ) (r : Reading) → AtTime day hs ms r → r.date ≡ day
unfolding combine
AtTime-date day hs ms r t = ap (λ (q : Reading). q.date) t.reading

module _ (zone : Zone) (s : Schedule) (after_utc : ℕ) where
  pub Due-later : (u : ℕ) → IsMonotone zone → Due zone s after_utc u → after_utc < u
  Due-later u mono d = elim d.later [
    | inl (tr, later) ↦ later
    | inr (quiet, later, made) ↦ rw made (mono d.r after_utc quiet later)
  ]

  try_day-Due :
      (day : Date) (transition : Bool) (u : ℕ)
      → IsDate day
      → elem day.month s.month.values ≡ true
      → day_matches day s.dom s.dow ≡ true
      → day_has_transition zone day ≡ ok transition
      → try_day zone s after_utc day transition ≡ some u
      → Due zone s after_utc u
  unfolding try_day
  try_day-Due day true u v mo da tr e =
      let d = best_time-IsDue zone _ after_utc day s.hour.values s.minute.values u e in
      record {
        r = d.r;
        later = inl (rw (AtTime-date day _ _ d.r d.at) tr, d.later);
        valid = rw (AtTime-date day _ _ d.r d.at) v;
        fires = AtTime-Fires s d.r day mo da d.at;
        reads = d.reads;
      }
  try_day-Due day false u v mo da tr e =
      elim (Option-cases (first_time (zone.local after_utc) day s.hour.values s.minute.values)) [
        | inl missing ↦ absurd (ground arith)
        | inr (r, found) ↦
            let (at, later) = first_time-some (zone.local after_utc) day _ _ r found in
            let same = AtTime-date day _ _ r at in
            let made : u ≡ to_utc zone r false = ground arith in
            record {
              r = r;
              later = inr (rw same tr, later, made);
              valid = rw same v;
              fires = AtTime-Fires s r day mo da at;
              reads = (false, made);
            }
      ]

  pub scan-Due :
      (rounds : ℕ) (day : Date) (u : ℕ)
      → IsDate day
      → scan rounds zone s after_utc day ≡ ok u
      → Due zone s after_utc u
  unfolding scan
  scan-Due zero day u v e = cc
  scan-Due (suc n) day u v e = elim (Bool-cases (elem day.month s.month.values)) [
    | inr off ↦
        let (d, step, rest) =
          >>=-ok (next_month day) (λ d. scan n zone s after_utc d) (rw off at e) in
        scan-Due n d u (next_month_lem day d v step).0 rest
    | inl mo ↦ elim (Bool-cases (day_matches day s.dom s.dow)) [
      | inr off ↦
          let (d, step, rest) =
            >>=-ok (next_day day) (λ d. scan n zone s after_utc d) (rw (mo, off) at e) in
          scan-Due n d u (next_day-IsDate day d v step) rest
      | inl da ↦
          let (tr, known, rest) = >>=-ok (day_has_transition zone day) _ (rw (mo, da) at e) in
          elim (Option-cases (try_day zone s after_utc day tr)) [
            | inr (w, found) ↦
                let same : w ≡ u = ground arith in
                try_day-Due day tr u v mo da known (found ∙ ap some same)
            | inl missing ↦
                let (d, step, again) =
                  >>=-ok (next_day day) (λ d. scan n zone s after_utc d) (rw missing at rest) in
                scan-Due n d u (next_day-IsDate day d v step) again
          ]
    ]
  ]
