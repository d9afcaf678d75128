-- ===== src/Cron/Next/Earliest.antt =====
-- In a zone that never changes its offset `next_run_at` returns the earliest fire time.
use native.Mathlib.Decide.{dec_lt}
use mathlib.Core.Path.{subst}
use agents_universe.Prelude.{
  ℕ, zero, suc, ◌≤◌, ◌<◌, ◌≡◌, refl, ap, ◌∙◌, inl, inr, Bool, true, false, some, arith, Bool-cases,
  Option-cases,
}
use agents_universe.Cron.Error.{ok, >>=-ok}
use agents_universe.Cron.Values.{elem}
use agents_universe.Cron.Values.Laws.{elem-Below}
use agents_universe.Cron.Field.{Schedule}
use agents_universe.Cron.Field.Bounds.{IsSchedule}
use agents_universe.Cron.Date.{Date, ordinal, next_day, next_month}
use agents_universe.Cron.Date.Order.{
  IsDate, ordinal_lem, next_day-IsDate, ordinal-next_day, next_month_lem, same_month, ordinal_inj,
}
use agents_universe.Cron.Next.{
  Reading, Zone, number, to_utc, combine, day_matches, day_has_transition, first_time, try_day,
  scan, day_us,
}
use agents_universe.Cron.Next.Fires.{Fires, AtTime-Fires, first_time-some, first_time_least}
use agents_universe.Cron.Next.Scan.{AtTime-date}

abbrev pub NeverTransitions : Zone → Type 0
NeverTransitions zone = (day : Date) (b : Bool) → day_has_transition zone day ≡ ok b → b ≡ false

-- A reading at which the schedule fires and that is later than the reading `start`.
pub record Pending (s : Schedule) (start r : Reading) : Type 0 where
  pub valid : IsDate r.date
  pub fires : Fires s r
  pub later : number start < number r

pub record Earliest (zone : Zone) (s : Schedule) (start : Reading) (u : ℕ) : Type 0 where
  pub r : Reading
  pub instant : u ≡ to_utc zone r false
  pub pending : Pending s start r
  pub least : (r' : Reading) → Pending s start r' → number r ≤ number r'

-- A firing reading of a day, as a time of the two lists.
Fires-combine : (s : Schedule) (r : Reading) (f : Fires s r) → r ≡ combine r.date f.h f.m
unfolding combine
Fires-combine s r f = λ i. record { date = r.date; micros = f.time i }

pub Fires-bounds : (s : Schedule) (r : Reading) → IsSchedule s → Fires s r → r.micros < day_us
Fires-bounds s r w f = omega (
  arith,
  f.time,
  elem-Below f.h 23 _ w.hours.bounded f.hour,
  elem-Below f.m 59 _ w.minutes.bounded f.minute,
)

module _ (zone : Zone) (s : Schedule) (w : IsSchedule s) (after_utc : ℕ) where
  -- No pending reading lies on a day before `day`.
  abbrev pub NoneBefore : ℕ → Type 0
  NoneBefore n = (r : Reading) → Pending s (zone.local after_utc) r → n ≤ ordinal r.date

  pub skip_month :
      (day d : Date)
      → IsDate day
      → next_month day ≡ ok d
      → elem day.month s.month.values ≡ false
      → NoneBefore (ordinal day)
      → NoneBefore (ordinal d)
  skip_month day d v step off nb r p =
      let (vd, od) = next_month_lem day d v step in
      elim (dec_lt (ordinal r.date) (ordinal d)) [
        | no late ↦ omega arith
        | yes soon ↦
            let (y, m) =
              same_month day r.date v p.valid (omega (arith, nb r p, ordinal_lem day))
                (omega (arith, nb r p, ordinal_lem day)) in
            absurd (ground (arith, p.fires.month))
      ]

  pub skip_day :
      (day d : Date)
      → IsDate day
      → next_day day ≡ ok d
      → ((r : Reading) → Pending s (zone.local after_utc) r → ¬ (r.date ≡ day))
      → NoneBefore (ordinal day)
      → NoneBefore (ordinal d)
  skip_day day d v step off nb r p =
      let od = ordinal-next_day day d v step in
      elim (dec_lt (ordinal r.date) (ordinal d)) [
        | no late ↦ omega arith
        | yes soon ↦ absurd (off r p (ordinal_inj day r.date v p.valid (omega (arith, nb r p))))
      ]

  -- A pending reading of the day bounds the one that the fast path finds.
  pub day_least :
      (day : Date) (r' : Reading)
      → Pending s (zone.local after_utc) r'
      → r'.date ≡ day
      → (r : Reading) × (first_time (zone.local after_utc) day s.hour.values s.minute.values
          ≡ some r)
        × (number r ≤ number r')
  day_least day r' p same =
      let at : r' ≡ combine day p.fires.h p.fires.m =
        Fires-combine s r' p.fires ∙ ap (λ (d : Date). combine d p.fires.h p.fires.m) same in
      let same_number = ap (λ (q : Reading). number q) at in
      let (r, found, least) =
        first_time_least (zone.local after_utc) day 0 0 s.hour.values s.minute.values p.fires.h
          p.fires.m w.hours.ascending w.minutes.ascending w.minutes.bounded p.fires.hour
          p.fires.minute (omega (arith, p.later, same_number)) in
      (r, found, omega (arith, least, same_number))

  day-Earliest :
      (day : Date) (r : Reading)
      → IsDate day
      → elem day.month s.month.values ≡ true
      → day_matches day s.dom s.dow ≡ true
      → NoneBefore (ordinal day)
      → first_time (zone.local after_utc) day s.hour.values s.minute.values ≡ some r
      → Earliest zone s (zone.local after_utc) (to_utc zone r false)
  day-Earliest day r v mo da nb found =
      let (at, later) = first_time-some (zone.local after_utc) day _ _ r found in
      let same = AtTime-date day _ _ r at in
      let same_ordinal = ap ordinal same in
      let fires = AtTime-Fires s r day mo da at in
      record {
        r = r;
        instant = refl;
        pending = record { valid = rw same v; fires = fires; later = later };
        least = λ r' p. elim (dec_lt (ordinal day) (ordinal r'.date)) [
          | yes after ↦ omega (arith, Fires-bounds s r w fires, same_ordinal)
          | no not_after ↦
              let here = ordinal_inj day r'.date v p.valid (omega (arith, nb r' p)) in
              let (q, found', least) = day_least day r' p here in
              let one : q ≡ r = ground (arith) in
              omega (arith, least, ap (λ (x : Reading). number x) one)
        ];
      }

  pub scan-Earliest :
      (rounds : ℕ) (day : Date) (u : ℕ)
      → NeverTransitions zone
      → IsDate day
      → NoneBefore (ordinal day)
      → scan rounds zone s after_utc day ≡ ok u
      → Earliest zone s (zone.local after_utc) u
  unfolding scan try_day
  scan-Earliest zero day u never v nb e = cc
  scan-Earliest (suc n) day u never v nb e = elim (Bool-cases (elem day.month s.month.values)) [
    | inr off ↦
        let (d, step, rest) =
          >>=-ok (next_month day) (λ d. scan n zone s after_utc d) (rw off at e) in
        scan-Earliest n d u never (next_month_lem day d v step).0 (skip_month day d v step off nb)
          rest
    | inl mo ↦ elim (Bool-cases (day_matches day s.dom s.dow)) [
      | inr off ↦
          let (d, step, rest) =
            >>=-ok (next_day day) (λ d. scan n zone s after_utc d) (rw (mo, off) at e) in
          scan-Earliest n d u never (next_day-IsDate day d v step)
            (skip_day day d v step
              (λ r p same.
                ground (arith, p.fires.day, ap (λ (x : Date). day_matches x s.dom s.dow) same))
              nb)
            rest
      | inl da ↦
          let (tr, known, rest) = >>=-ok (day_has_transition zone day) _ (rw (mo, da) at e) in
          let quiet = rw (never day tr known) at rest in
          elim (Option-cases
            (first_time (zone.local after_utc) day s.hour.values s.minute.values)) [
              | inr (r, found) ↦
                  let made : to_utc zone r false ≡ u = ground (arith, quiet) in
                  subst (Earliest zone s (zone.local after_utc)) made
                    (day-Earliest day r v mo da nb found)
              | inl missing ↦
                  let (d, step, again) =
                    >>=-ok (next_day day) (λ d. scan n zone s after_utc d) (rw missing at quiet) in
                  scan-Earliest n d u never (next_day-IsDate day d v step)
                    (skip_day day d v step
                      (λ r p same. let (q, found, _) = day_least day r p same in cc) nb)
                    again
            ]
    ]
  ]
