-- ===== src/Config/App.antt =====
-- config/app_config.go: the validation of the general settings. That of the logging section is of
-- another library and a parameter.
use validator_health_check.Prelude.{
  Bool, Option, none, some, ℤ, Duration, pos, ltb_ℤ, minutes, seconds, if◌then◌else◌,
}

pub record AppConfig : Type 0 where
  pub hot_reload_interval : Duration
  pub health_check_interval : Duration
  pub health_check_count : ℤ

pub data AppError : Type 0 where
  hot_reload_too_short health_check_too_short too_few_workers logging_invalid : AppError

abbrev pub minimum_worker_health_check : ℤ
minimum_worker_health_check = pos 5

-- `AppConfig.Validate`, with the result of `c.Logging.Validate()`.
unfoldable pub validate_app : Bool → AppConfig → Option AppError
validate_app logging_valid c =
    if ltb_ℤ c.hot_reload_interval (pos (minutes 1))
    then some hot_reload_too_short
    else if ltb_ℤ c.health_check_interval (pos (seconds 30))
    then some health_check_too_short
    else if ltb_ℤ c.health_check_count minimum_worker_health_check
    then some too_few_workers
    else if logging_valid
    then none
    else some logging_invalid
