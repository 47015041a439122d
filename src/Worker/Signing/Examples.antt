-- ===== src/Worker/Signing/Examples.antt =====
-- Two tombstoned validators with one watcher.
use validator_health_check.Prelude.{
  ℕ, ◌≤◌, ◌<◌, ◌+◌, true, pos, [], ◌∷◌, none, some, Text, text, seconds, hours, get, text_eq,
  int_eq, arith, refl,
}
use validator_health_check.Utils.Retry.{err}
use validator_health_check.Config.Users.{UserRecord, UserTelegramConfig}
use validator_health_check.Push.Pusher.{no_queues}
use validator_health_check.Push.Pusher.Enqueue.{IsKeyed}
use validator_health_check.Worker.Messages.Fatal.{HaveTelegram}
use validator_health_check.Worker.Outside.{World, SigningInfo}
use validator_health_check.Worker.Cache.{empty_cache}
use validator_health_check.Worker.State.{Channel}
use validator_health_check.Worker.Sample.{world, idle}
use validator_health_check.Worker.Signing.{Checked, check_signing_info}
use validator_health_check.Worker.Signing.Suppressed.{
  IsFollowedQuietly, second_tombstoned-IsFollowedQuietly,
}

abbrev silent_world : World
silent_world = world λ client. err (text "no status")

abbrev carol_telegram : UserTelegramConfig
carol_telegram = record { username = text "carol_tg"; user_id = pos 44; token = text "125:abc" }

abbrev carol : UserRecord
carol = record { identity = text "carol"; root = true; telegram_config = some carol_telegram }

abbrev channel : Channel
channel = record { chain_name = text "juno"; records = (text "carol", carol) ∷ [] }

channel-HaveTelegram : HaveTelegram channel.records
unfolding get
channel-HaveTelegram identity r h = (carol_telegram, ground arith)

idle-IsKeyed : IsKeyed no_queues
unfolding get
idle-IsKeyed = record { at_receiver = λ id q h. cc }

abbrev checked : Text → Checked
checked valoper = record {
  channel = channel;
  validator = record {
    validator_operator_address = valoper;
    watchers_identity = text "carol" ∷ [];
    optional_health_check_rpc = [];
  };
  moniker = valoper;
}

abbrev tombstoned_info : Text → SigningInfo
tombstoned_info valcons = record {
  address = valcons;
  tombstoned = true;
  jailed_until = seconds 10;
  missed_blocks_counter = pos 3;
}

within_an_hour : (t : ℕ) → t ≤ 0 + 2 → seconds (1000 + t) < seconds (1000 + 0) + hours 1
within_an_hour t h = omega arith

second_tombstoned-IsFollowedQuietly_example :
    IsFollowedQuietly
      (check_signing_info silent_world
        (checked (text "junovaloper1a"))
        (tombstoned_info (text "junovalcons1a"))
        none
        (empty_cache (text "junovaloper1a"))
        idle)
      (check_signing_info silent_world
        (checked (text "junovaloper1b"))
        (tombstoned_info (text "junovalcons1b"))
        none
        (empty_cache (text "junovaloper1b")))
unfolding get
second_tombstoned-IsFollowedQuietly_example =
    second_tombstoned-IsFollowedQuietly silent_world (checked (text "junovaloper1a"))
      (checked (text "junovaloper1b")) (tombstoned_info (text "junovalcons1a"))
      (tombstoned_info (text "junovalcons1b")) none none (empty_cache (text "junovaloper1a"))
      (empty_cache (text "junovaloper1b")) idle refl refl channel-HaveTelegram idle-IsKeyed
      (λ i h. h) (λ i h. refl) within_an_hour
