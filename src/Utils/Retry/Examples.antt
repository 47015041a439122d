-- ===== src/Utils/Retry/Examples.antt =====
-- Attempts that take two seconds each, of which the fifth succeeds.
use validator_health_check.Prelude.{
  ℕ, eqb, if◌then◌else◌, suc, ◌*◌, Duration, pos, seconds, arith, refl,
}
use validator_health_check.Utils.Retry.{Result, ok, err, retry, default_retry_option}
use validator_health_check.Utils.Retry.Ends.{Ended, retry-Ended}

abbrev attempt : ℕ → Result ℕ ℕ
attempt n = if eqb n 4 then ok 7 else err n

abbrev two_seconds_each : ℕ → Duration
two_seconds_each n = pos (seconds (2 * suc n))

retry-Ended_example :
    Ended attempt two_seconds_each default_retry_option
      (retry attempt two_seconds_each default_retry_option 4)
retry-Ended_example =
    retry-Ended attempt two_seconds_each default_retry_option 3 4 refl (omega arith)
