-- ===== src/CallCenter/Silent/Examples.antt =====
-- A chat silences a message, and another chat keeps its patterns.
use validator_health_check.Prelude.{
  false, [], Option, some, Text, text, Time, Duration, seconds, hours, pos, arith, ◌≡◌, refl, get,
  int_eq,
}
use validator_health_check.Push.Silencer.{SilenceError}
use validator_health_check.CallCenter.Context.{TelegramUpdateCtx, TimeFormat}
use validator_health_check.CallCenter.Silent.{process_command_silent}
use validator_health_check.CallCenter.Silent.Chats.{IsShort, silent-Kept}

abbrev two_hours : Text → Option Duration
two_hours part = some (pos (hours 2))

abbrev show_duration : Duration → Text
show_duration d = text "2h0m0s"

abbrev show_time : Time → Text
show_time t = text "2024-01-01 00:00:00"

abbrev format : TimeFormat
format = record {
  parse_duration = two_hours;
  duration_string = show_duration;
  date_time = show_time;
}

abbrev show_error : SilenceError → Text
show_error e = text "refused"

abbrev ctx : TelegramUpdateCtx
ctx = record {
  chat_id = pos 42;
  command_args = text "2h junovaloper1a";
  identity = text "alice";
  username = text "alice_tg";
  is_root_user = false;
}

nothing_silenced-IsShort : IsShort (seconds 10) []
unfolding get
nothing_silenced-IsShort chat_id = tt

silent-Kept_example :
    IsShort (seconds 20) (process_command_silent format show_error (seconds 20) ctx []).1
    × (get (pos 7) (process_command_silent format show_error (seconds 20) ctx []).1
        ≡ get (pos 7) [])
silent-Kept_example =
    silent-Kept format show_error (seconds 10) (seconds 20) ctx [] (pos 7) (omega arith)
      nothing_silenced-IsShort refl
