-- ===== src/CallCenter/RateLimiter.antt =====
-- services/telegram_call_center_svc/types/rate_limiter.go. A call holds the lock from start to end and
-- reads the clock once, as `now`.
pub mod Spacing
use validator_health_check.Prelude.{
  Bool, true, false, Option, none, some, Text, Map, get, put, Time, Duration, since, ltb_ℤ, text_eq,
  if◌then◌else◌,
}

-- `lastRequest`
abbrev pub RateLimiter : Type 0
RateLimiter = Map Text Time

abbrev pub is_too_soon : Time → Duration → Option Time → Bool
is_too_soon now interval none = false
is_too_soon now interval (some last) = ltb_ℤ (since now last) interval

unfoldable pub request : Time → Text → Duration → RateLimiter → Bool × RateLimiter
request now key interval r =
    if is_too_soon now interval (get key r) then (false, r) else (true, put key now r)
