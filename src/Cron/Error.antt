-- ===== src/Cron/Error.antt =====
-- `CronError` of scheduling/cron.py: one constructor for each message.
use agents_universe.Prelude.{ℕ, String, ◌≡◌, refl, ◌⊎◌, inl, inr, arith}

pub data CronError : Type 0 where
  empty_field empty_entry invalid_step inverted_range invalid_value no_value : String → CronError
  out_of_range : String → ℕ → CronError
  wrong_field_count : ℕ → CronError
  unknown_timezone no_matching_time date_overflow : CronError

-- A call that raises is `err`.
pub data Result {ℓ} (T : Type ℓ) : Type ℓ where
  err : CronError → Result T
  ok : T → Result T

module _ {ℓ κ} {T : Type ℓ} {U : Type κ} where
  infixl 10 ◌>>=◌
  abbrev pub ◌>>=◌ : Result T → (T → Result U) → Result U
  err raised >>= continue = err raised
  ok value >>= continue = continue value

  -- Inversion of a bind that did not raise.
  pub >>=-ok :
      (m : Result T) (continue : T → Result U) {u : U}
      → (m >>= continue) ≡ ok u
      → (t : T) × (m ≡ ok t) × (continue t ≡ ok u)
  >>=-ok (err raised) continue h = cc
  >>=-ok (ok value) continue h = (value, refl, h)

  -- Inversion of a bind that raised.
  pub >>=-err :
      (m : Result T) (continue : T → Result U) {e : CronError}
      → (m >>= continue) ≡ err e
      → (m ≡ err e) ⊎ ((t : T) × (m ≡ ok t) × (continue t ≡ err e))
  >>=-err (err raised) continue h = inl (ground arith)
  >>=-err (ok value) continue h = inr (value, refl, h)
