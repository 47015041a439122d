-- ===== src/Utils/Retry.antt =====
-- utils/retry.go. `f n` is what the attempt with `tryCount == n` gives, and `elapsed n` what
-- `time.Since(startTime)` gives after it. The loop runs on fuel, and `none` means that it ran out.
pub mod Ends
pub mod Examples
use validator_health_check.Prelude.{
  ℕ, zero, suc, ℤ, Option, none, some, Duration, pos, seconds, ltb_ℤ, if◌then◌else◌,
}

pub data Result {ℓ κ} (A : Type ℓ) (E : Type κ) : Type (ℓ ⊔ κ) where
  ok : A → Result A E
  err : E → Result A E

pub record RetryOption : Type 0 where
  pub min_retry_count : ℤ
  pub maximum_retry_duration : Duration

abbrev pub default_retry_option : RetryOption
default_retry_option = record { min_retry_count = pos 3; maximum_retry_duration = pos (seconds 5) }

-- `firstErr`, after an attempt that failed
abbrev pub first_of {κ} : {E : Type κ} → Option E → E → E
first_of none e = e
first_of (some first) e = first

module _ {ℓ κ} {A : Type ℓ} {E : Type κ} (f : ℕ → Result A E) (elapsed : ℕ → Duration)
    (o : RetryOption) where
  unfoldable pub retry_loop : ℕ → ℕ → Option E → Option (Result A E)
  retry_loop zero try_count first_err = none
  retry_loop (suc fuel) try_count first_err = elim (f try_count) [
    | ok a ↦ some (ok a)
    | err e ↦
        let rest = retry_loop fuel (suc try_count) (some (first_of first_err e)) in
        if ltb_ℤ (pos try_count) o.min_retry_count
        then rest
        else if ltb_ℤ (elapsed try_count) o.maximum_retry_duration
        then rest
        else some (err (first_of first_err e))
  ]

  -- `Retry`, with the fuel of its loop
  unfoldable pub retry : ℕ → Option (Result A E)
  unfolding retry_loop
  retry fuel = retry_loop fuel 0 none
