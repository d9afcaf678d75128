-- ===== src/Cron/Next/Slow.antt =====
-- The days with a transition: the scan over every reading and both folds.
use mathlib.Core.Path.{subst}
use agents_universe.Prelude.{
  ℕ, ◌<◌, ◌≡◌, refl, Bool, true, false, Option, none, some, List, [], ◌∷◌, arith, All, All-map,
}
use agents_universe.Cron.Values.{elem}
use agents_universe.Cron.Date.{Date}
use agents_universe.Cron.Next.{Reading, Zone, to_utc, combine, candidates, best_minute, best_time}
use agents_universe.Cron.Next.Fires.{AtTime, Holds, consider_all-Holds}

-- The instant of a reading of this zone, with some fold.
abbrev pub Reads : Zone → Reading → ℕ → Type 0
Reads zone r u = (fold : Bool) × (u ≡ to_utc zone r fold)

candidates-Reads :
    (zone : Zone) (dense : Bool) (r : Reading) → All (Reads zone r) (candidates zone dense r)
unfolding candidates
candidates-Reads zone dense r =
    let first : Reads zone r (to_utc zone r false) = (false, refl) in
    let second : Reads zone r (to_utc zone r true) = (true, refl) in ground (arith, first, second)

-- What the slow path may return: an instant after `after_utc`, of a time of the day.
pub record IsDue (zone : Zone) (after_utc : ℕ) (day : Date) (hs ms : List ℕ) (u : ℕ) : Type 0 where
  pub later : after_utc < u
  pub r : Reading
  pub at : AtTime day hs ms r
  pub reads : Reads zone r u

module _ (zone : Zone) (dense : Bool) (after_utc : ℕ) (day : Date) where
  best_minute-Holds :
      (P : ℕ → Type 0) (h : ℕ) (ms : List ℕ) (best : Option ℕ)
      → Holds P after_utc best
      → ((m : ℕ)
          → elem m ms ≡ true
          → (u : ℕ) → Reads zone (combine day h m) u
          → after_utc < u
          → P u)
      → Holds P after_utc (best_minute zone dense after_utc day h best ms)
  unfolding best_minute elem
  best_minute-Holds P h [] best b p = b
  best_minute-Holds P h (m ∷ ms) best b p =
      best_minute-Holds P h ms _
        (consider_all-Holds P after_utc best (candidates zone dense (combine day h m)) b (
          All-map (Reads zone (combine day h m)) (λ u. after_utc < u → P u) (p m (ground arith)) _
            (candidates-Reads zone dense (combine day h m))))
        (λ m' i. p m' (ground (arith, i)))

  best_time-Holds :
      (P : ℕ → Type 0) (hs ms : List ℕ) (best : Option ℕ)
      → Holds P after_utc best
      → ((h m : ℕ)
          → elem h hs ≡ true
          → elem m ms ≡ true
          → (u : ℕ) → Reads zone (combine day h m) u
          → after_utc < u
          → P u)
      → Holds P after_utc (best_time zone dense after_utc day hs ms best)
  unfolding best_time elem
  best_time-Holds P [] ms best b p = b
  best_time-Holds P (h ∷ hs) ms best b p =
      best_time-Holds P hs ms _
        (best_minute-Holds P h ms best b (λ m i u. p h m (ground arith) i u))
        (λ h' m' j i u. p h' m' (ground (arith, j)) i u)

  pub best_time-IsDue :
      (hs ms : List ℕ) (u : ℕ)
      → best_time zone dense after_utc day hs ms none ≡ some u
      → IsDue zone after_utc day hs ms u
  best_time-IsDue hs ms u e = subst (Holds (IsDue zone after_utc day hs ms) after_utc) e (
      best_time-Holds (IsDue zone after_utc day hs ms) hs ms none tt λ h m j i v reads later.
        record {
          later = later;
          r = combine day h m;
          at = record { h = h; m = m; hour = j; minute = i; reading = refl };
          reads = reads;
        })
