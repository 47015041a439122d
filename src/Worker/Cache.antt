-- ===== src/Worker/Cache.antt =====
-- work/health_check_worker/cache_hc.go: the last result of each validator's check. Each operation
-- holds the lock from start to end and reads the clock once, as `now`.
use validator_health_check.Prelude.{
  ℤ, Bool, Option, none, [], Text, Map, get, put, Time, zero_time, pos, text_eq,
}
use validator_health_check.Worker.Outside.{BondStatus, Float64}

pub record CacheValidatorHealthCheck : Type 0 where
  pub valoper : Text
  pub valcons : Text
  pub moniker : Text
  pub rank : ℤ
  pub bond_status : Option BondStatus
  pub tome_stoned : Option Bool
  pub jailed : Option Bool
  pub jailed_until : Option Time
  pub missed_block_count : Option ℤ
  pub downtime_slashing_when_missed_excess : Option ℤ
  pub uptime : Option Float64
  pub time_occurs : Time

-- `CacheValidatorHealthCheck{Valoper: valoper}`
abbrev pub empty_cache : Text → CacheValidatorHealthCheck
empty_cache valoper = record {
  valoper = valoper;
  valcons = [];
  moniker = [];
  rank = pos 0;
  bond_status = none;
  tome_stoned = none;
  jailed = none;
  jailed_until = none;
  missed_block_count = none;
  downtime_slashing_when_missed_excess = none;
  uptime = none;
  time_occurs = zero_time;
}

abbrev pub HealthCheckCache : Type 0
HealthCheckCache = Map Text CacheValidatorHealthCheck

unfoldable pub put_cache_validator_health_check :
    Time → CacheValidatorHealthCheck → HealthCheckCache → HealthCheckCache
put_cache_validator_health_check now cache caches =
    put cache.valoper (record cache { time_occurs = now }) caches

unfoldable pub get_cache_validator_health_check :
    Text → HealthCheckCache → Option CacheValidatorHealthCheck
get_cache_validator_health_check valoper caches = get valoper caches
