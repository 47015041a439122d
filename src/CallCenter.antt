-- ===== src/CallCenter.antt =====
-- services/telegram_call_center_svc: the commands that users send to their bot.
pub mod Context
pub mod RateLimiter
pub mod Pause
pub mod Silent
pub mod Search
pub mod Answers
pub mod Listing
pub mod Status
pub mod Desk
