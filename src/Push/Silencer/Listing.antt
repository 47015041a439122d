-- ===== src/Push/Silencer/Listing.antt =====
-- What `/silent` lists as the effective patterns.
use validator_health_check.Prelude.{
  ℤ, Text, Time, get, int_eq, text_eq, ◌≡◌, ltb, false, some, arith, ◌≢◌, delete_if, ◌<◌, Map, [],
  ◌∷◌,
}
use validator_health_check.Push.Silencer.{
  Silencer, get_silent_patterns_by_chat_id, patterns_of, is_expired,
}

get-delete_if :
    (now : Time) (pattern : Text) (expiry : Time) (m : Map Text Time)
    → get pattern (delete_if (is_expired now) m) ≡ some expiry
    → ltb expiry now ≡ false
unfolding get delete_if
get-delete_if now pattern expiry [] h = cc
get-delete_if now pattern expiry ((p, w) ∷ m) h = ground (arith, get-delete_if now pattern expiry m)

-- A pattern that has expired and is still stored is listed, and would not be if the copy of the
-- patterns in force were returned.
pub lists_expired :
    (now : Time) (chat_id : ℤ) (pattern : Text) (expiry : Time) (s : Silencer)
    → get pattern (patterns_of (get chat_id s)) ≡ some expiry
    → expiry < now
    → (get pattern (get_silent_patterns_by_chat_id now chat_id s) ≡ some expiry)
      × (get pattern (delete_if (is_expired now) (patterns_of (get chat_id s))) ≢ some expiry)
unfolding get_silent_patterns_by_chat_id
lists_expired now chat_id pattern expiry s h past =
    (h, λ e. ground (arith, get-delete_if now pattern expiry (patterns_of (get chat_id s)) e))
