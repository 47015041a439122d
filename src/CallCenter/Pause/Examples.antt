-- ===== src/CallCenter/Pause/Examples.antt =====
-- A watcher pauses a validator for an hour.
use validator_health_check.Prelude.{
  false, [], ◌∷◌, Option, some, Text, text, Time, Duration, seconds, hours, pos, refl, get,
  zero_time,
}
use validator_health_check.Registry.Users.{no_users}
use validator_health_check.Registry.Pauser.{nothing_paused}
use validator_health_check.Registry.Chains.{
  ChainRegistry, RegisteredChainConfig, get_copy_all_chain_configs,
}
use validator_health_check.Push.Pusher.{no_queues}
use validator_health_check.Push.Pusher.Enqueue.{IsKeyed}
use validator_health_check.CallCenter.Context.{TelegramUpdateCtx, TimeFormat, Center}
use validator_health_check.CallCenter.Pause.{process_command_pause}
use validator_health_check.CallCenter.Pause.Watched.{Handled, pause-Handled}

abbrev one_hour : Text → Option Duration
one_hour part = some (pos (hours 1))

abbrev print_duration : Duration → Text
print_duration d = text "1h0m0s"

abbrev print_time : Time → Text
print_time t = text "2024-01-01 00:00:00"

abbrev pub format : TimeFormat
format = record {
  parse_duration = one_hour;
  duration_string = print_duration;
  date_time = print_time;
}

abbrev pub ctx : TelegramUpdateCtx
ctx = record {
  chat_id = pos 42;
  command_args = text "junovaloper1a 1h";
  identity = text "alice";
  username = text "alice_tg";
  is_root_user = false;
}

abbrev juno : RegisteredChainConfig
juno = record {
  chain_name = text "juno";
  chain_id = text "juno-1";
  priority = false;
  rpc = text "http://localhost:26657" ∷ [];
  validators =
      record {
        validator_operator_address = text "junovaloper1a";
        watchers_identity = text "alice" ∷ [];
        optional_health_check_rpc = [];
      }
      ∷ [];
  health_check_rpc = [];
  last_health_check_utc = zero_time;
}

abbrev pub chains : ChainRegistry
chains = record {
  chain_name_to_chain_config = (text "juno", juno) ∷ [];
  watcher_identity_to_chain_name_to_valoper = [];
}

abbrev pub center : Center
center = record { pauser = nothing_paused; silencer = []; pusher = no_queues }

pub no_queues-IsKeyed : IsKeyed no_queues
unfolding get
no_queues-IsKeyed = record { at_receiver = λ id q h. cc }

pause-Handled_example :
    Handled
      (text "alice")
      (get_copy_all_chain_configs chains)
      center
      (process_command_pause (seconds 10) format no_users chains ctx center)
pause-Handled_example =
    pause-Handled (seconds 10) format no_users chains ctx center refl no_queues-IsKeyed
