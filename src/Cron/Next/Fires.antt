-- ===== src/Cron/Next/Fires.antt =====
-- What it means that a schedule fires at a reading, and the loops over the times of one day.
use native.Mathlib.Decide.{ℕ_discrete}
use agents_universe.Prelude.{
  ℕ, suc, ◌+◌, ◌*◌, ◌≤◌, ◌<◌, ◌≡◌, refl, ap, ◌∙◌, inl, inr, true, Option, none, some, List, [], ◌∷◌,
  arith, ltb, ◌==◌, All, Bool-cases, ltb→lt, Option-cases,
}
use agents_universe.Cron.Values.{elem}
use agents_universe.Cron.Values.Laws.{Above, Below, elem-Above, elem-Below}
use agents_universe.Cron.Field.{Schedule}
use agents_universe.Cron.Date.{Date, ordinal}
use agents_universe.Cron.Next.{
  Reading, number, combine, day_matches, minute_us, day_us, first_minute, first_time, or_else,
  consider, consider_all,
}

-- The schedule fires at this local reading.
pub record Fires (s : Schedule) (r : Reading) : Type 0 where
  pub month : elem r.date.month s.month.values ≡ true
  pub day : day_matches r.date s.dom s.dow ≡ true
  pub h : ℕ
  pub m : ℕ
  pub hour : elem h s.hour.values ≡ true
  pub minute : elem m s.minute.values ≡ true
  pub time : r.micros ≡ (h * 60 + m) * minute_us

-- A time of the day `day`, out of the two lists.
pub record AtTime (day : Date) (hs ms : List ℕ) (r : Reading) : Type 0 where
  pub h : ℕ
  pub m : ℕ
  pub hour : elem h hs ≡ true
  pub minute : elem m ms ≡ true
  pub reading : r ≡ combine day h m

pub AtTime-Fires :
    (s : Schedule) (r : Reading) (day : Date)
    → elem day.month s.month.values ≡ true
    → day_matches day s.dom s.dow ≡ true
    → AtTime day s.hour.values s.minute.values r
    → Fires s r
unfolding combine
AtTime-Fires s r day mo da t = rw t.reading (record {
  month = mo;
  day = da;
  h = t.h;
  m = t.m;
  hour = t.hour;
  minute = t.minute;
  time = refl;
})

first_minute-some :
    (after : Reading) (day : Date) (h : ℕ) (ms : List ℕ) (r : Reading)
    → first_minute after day h ms ≡ some r
    → (m : ℕ) × (elem m ms ≡ true) × (r ≡ combine day h m) × (number after < number r)
unfolding first_minute elem
first_minute-some after day h [] r e = cc
first_minute-some after day h (m ∷ ms) r e =
    elim (Bool-cases (ltb (number after) (number (combine day h m)))) [
      | inl later ↦
          let same : r ≡ combine day h m = ground arith in
          (m, ground arith, same, rw same (ltb→lt _ _ later))
      | inr early ↦
          let (n, i, same, l) = first_minute-some after day h ms r (ground arith) in
          (n, ground arith, same, l)
    ]

pub first_time-some :
    (after : Reading) (day : Date) (hs ms : List ℕ) (r : Reading)
    → first_time after day hs ms ≡ some r
    → AtTime day hs ms r × (number after < number r)
unfolding first_time elem
first_time-some after day [] ms r e = cc
first_time-some after day (h ∷ hs) ms r e = elim (Option-cases (first_minute after day h ms)) [
  | inr (q, found) ↦
      let same : q ≡ r = ground arith in
      let (m, i, at, l) = first_minute-some after day h ms r (found ∙ ap some same) in
      (record { h = h; m = m; hour = ground arith; minute = i; reading = at }, l)
  | inl missing ↦
      let (t, l) = first_time-some after day hs ms r (ground arith) in
      (
        record {
          h = t.h;
          m = t.m;
          hour = ground (arith, t.hour);
          minute = t.minute;
          reading = t.reading;
        },
        l,
      )
]

pub number-combine :
    (day : Date) (h m : ℕ)
    → number (combine day h m) ≡ ordinal day * day_us + (h * 60 + m) * minute_us
unfolding combine
number-combine day h m = refl

-- The loop over the minutes finds the earliest one that is later than `after`.
first_minute_least :
    (after : Reading) (day : Date) (h lo : ℕ) (ms : List ℕ) (m' : ℕ)
    → Above lo ms
    → elem m' ms ≡ true
    → number after < number (combine day h m')
    → (r : Reading) × (first_minute after day h ms ≡ some r)
      × (number r ≤ number (combine day h m'))
unfolding first_minute elem
first_minute_least after day h lo [] m' a i l = cc
first_minute_least after day h lo (m ∷ ms) m' a i l =
    elim (Bool-cases (ltb (number after) (number (combine day h m)))) [
      | inl later ↦ (
        combine day h m,
        rw later refl,
        ground
            (arith, number-combine day h m, number-combine day h m', elem-Above m' (suc m) ms a.1),
      )
      | inr early ↦ elim (Bool-cases (m' == m)) [
        | inl e ↦ absurd (ground (arith, number-combine day h m, number-combine day h m'))
        | inr ne ↦
            let (r, found, least) =
              first_minute_least after day h (suc m) ms m' a.1 (ground arith) l in
            (r, ground arith, least)
      ]
    ]

-- The two loops find the earliest time of the day that is later than `after`.
pub first_time_least :
    (after : Reading) (day : Date) (lo lo' : ℕ) (hs ms : List ℕ) (h' m' : ℕ)
    → Above lo hs
    → Above lo' ms
    → Below 59 ms
    → elem h' hs ≡ true
    → elem m' ms ≡ true
    → number after < number (combine day h' m')
    → (r : Reading) × (first_time after day hs ms ≡ some r)
      × (number r ≤ number (combine day h' m'))
unfolding first_time elem
first_time_least after day lo lo' [] ms h' m' ah am bm ih im l = cc
first_time_least after day lo lo' (h ∷ hs) ms h' m' ah am bm ih im l = elim (ℕ_discrete h' h) [
  | yes e ↦
      let (r, found, least) = first_minute_least after day h lo' ms m' am im (rw e at l) in
      (r, rw (found, or_else), rw e least)
  | no ne ↦
      let later_hour : elem h' hs ≡ true = ground arith in
      elim (Option-cases (first_minute after day h ms)) [
        | inr (q, found) ↦
            let (m, i, at, _) = first_minute-some after day h ms q found in
            (
              q,
              rw (found, or_else),
              rw at (
                  omega (
                    arith,
                    number-combine day h m,
                    number-combine day h' m',
                    elem-Below m 59 ms bm i,
                    elem-Above h' (suc h) hs ah.1 later_hour,
                  )),
            )
        | inl missing ↦
            let (r, found, least) =
              first_time_least after day (suc h) lo' hs ms h' m' ah.1 am bm later_hour im l in
            (r, rw (missing, or_else) found, least)
      ]
]

-- The slow path: what holds of every candidate that is after `after_utc` holds of the best.
module _ {ℓ} (P : ℕ → Type ℓ) (after_utc : ℕ) where
  abbrev pub Holds : Option ℕ → Type ℓ
  Holds none = Unit
  Holds (some u) = P u

  consider-Holds :
      (best : Option ℕ) (u : ℕ)
      → Holds best
      → (after_utc < u → P u)
      → Holds (consider after_utc best u)
  unfolding consider
  consider-Holds none u b p = elim (Bool-cases (ltb after_utc u)) [
    | inl e ↦ rw e (p (ltb→lt _ _ e))
    | inr e ↦ rw e tt
  ]
  consider-Holds (some v) u b p = elim (Bool-cases (ltb after_utc u)) [
    | inl e ↦ elim (Bool-cases (ltb u v)) [
      | inl f ↦ rw (e, f) (p (ltb→lt _ _ e))
      | inr f ↦ rw (e, f) b
    ]
    | inr e ↦ rw e b
  ]

  pub consider_all-Holds :
      (best : Option ℕ) (us : List ℕ)
      → Holds best
      → All (λ u. after_utc < u → P u) us
      → Holds (consider_all after_utc best us)
  unfolding consider_all
  consider_all-Holds best [] b p = b
  consider_all-Holds best (u ∷ us) b p =
      consider_all-Holds (consider after_utc best u) us (consider-Holds best u b p.0) p.1
