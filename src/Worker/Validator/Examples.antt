-- ===== src/Worker/Validator/Examples.antt =====
-- A tombstoned validator and one that is paused.
use validator_health_check.Prelude.{
  true, pos, [], ◌∷◌, some, text, get, text_eq, int_eq, arith, refl, ◌-ℤ◌,
}
use validator_health_check.Utils.Retry.{err}
use validator_health_check.Config.Users.{UserRecord, UserTelegramConfig}
use validator_health_check.Registry.Chains.{ValidatorOfRegisteredChainConfig}
use validator_health_check.Push.Pusher.{no_queues}
use validator_health_check.Push.Pusher.Enqueue.{IsKeyed}
use validator_health_check.Worker.Messages.Fatal.{HaveTelegram}
use validator_health_check.Worker.Outside.{World, bonded}
use validator_health_check.Worker.State.{Channel, ◌>>◌}
use validator_health_check.Worker.Steps.{Adds}
use validator_health_check.Worker.Sample.{world, idle}
use validator_health_check.Worker.Slashing.{AreInRange, has_window, slashing_when_missed_excess}
use validator_health_check.Worker.Direct.{check_managed}
use validator_health_check.Worker.Validator.{Fetched, check_validators}
use validator_health_check.Worker.Validator.Additive.{checks-Adds}

abbrev silent_world : World
silent_world = world λ client. err (text "no status")

abbrev carol_telegram : UserTelegramConfig
carol_telegram = record { username = text "carol_tg"; user_id = pos 44; token = text "125:abc" }

abbrev carol : UserRecord
carol = record { identity = text "carol"; root = true; telegram_config = some carol_telegram }

abbrev pub channel : Channel
channel = record { chain_name = text "juno"; records = (text "carol", carol) ∷ [] }

pub channel-HaveTelegram : HaveTelegram channel.records
unfolding get
channel-HaveTelegram identity r h = (carol_telegram, ground arith)

pub idle-IsKeyed : IsKeyed no_queues
unfolding get
idle-IsKeyed = record { at_receiver = λ id q h. cc }

abbrev pub watched : ValidatorOfRegisteredChainConfig
watched = record {
  validator_operator_address = text "junovaloper1a";
  watchers_identity = text "carol" ∷ [];
  optional_health_check_rpc = text "http://a:80";
}

abbrev fetched : Fetched
fetched = record {
  staking_validators =
      (
        text "junovaloper1a",
        record {
          operator_address = text "junovaloper1a";
          moniker = text "alpha";
          consensus_pubkey = text "a";
          status = bonded;
          tokens = pos 7;
        },
      )
      ∷ [];
  ranks = (text "junovaloper1a", 1) ∷ [];
  signing_infos = some [];
  slashing_params = some (record { min_signed_per_window = pos 5; signed_blocks_window = pos 100 });
}

fetched-AreInRange : AreInRange silent_world.numbers fetched.slashing_params
unfolding has_window slashing_when_missed_excess ◌-ℤ◌
fetched-AreInRange = ((true, refl), λ e. (pos 95, refl))

checks-Adds_example : Adds idle (
    (check_validators silent_world channel fetched (watched ∷ [])
        >> check_managed silent_world channel (text "carol" ∷ []) (text "http://b:80" ∷ []))
      idle)
checks-Adds_example =
    checks-Adds silent_world channel channel-HaveTelegram (λ client. refl) fetched (watched ∷ [])
      (text "carol" ∷ []) (text "http://b:80" ∷ []) idle fetched-AreInRange (refl, tt) idle-IsKeyed
