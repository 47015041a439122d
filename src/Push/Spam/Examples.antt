-- ===== src/Push/Spam/Examples.antt =====
-- Two calls about a jailed validator, ten seconds apart.
use validator_health_check.Prelude.{
  true, false, not, ◌&&◌, [], ◌∷◌, Text, text, arith, ◌≡◌, refl, Time, pos, seconds, minutes, any,
  text_eq, get, put, text_beq,
}
use validator_health_check.Push.Spam.{jailed, should_send_message, is_recent, send_loop, case_eq}
use validator_health_check.Push.Spam.Spacing.{
  Call, call, calls, is_listed, last_sent, should_send-listed, sends_spaced,
}

abbrev watcher : Text
watcher = text "alice"

abbrev call_at : Time → Call
call_at now = record {
  now = now;
  case = jailed;
  identities = watcher ∷ text "bob" ∷ watcher ∷ [];
  interval = pos (minutes 1);
}

should_send-listed_example : is_listed watcher (call (call_at (seconds 10)) []).0 ≡ (
    is_listed watcher (call_at (seconds 10)).identities
    && not (is_recent (seconds 10) (pos (minutes 1)) (last_sent jailed watcher [])))
should_send-listed_example =
    should_send-listed (seconds 10) jailed watcher (call_at (seconds 10)).identities
      (pos (minutes 1)) []

picked : is_listed watcher (call (call_at (seconds 10)) []).0 ≡ true
unfolding should_send_message send_loop is_recent get put any text_beq
picked = refl

sends_spaced_example :
    is_listed watcher
      (call
        (call_at (seconds 30))
        (calls (call_at (seconds 20) ∷ []) (call (call_at (seconds 10)) []).1)).0
    ≡ false
sends_spaced_example =
    sends_spaced (call_at (seconds 10)) (call_at (seconds 30)) (call_at (seconds 20) ∷ [])
      (minutes 1) watcher [] picked (omega arith, tt) refl refl (omega arith)
