-- ===== src/Worker/Messages/Examples.antt =====
-- The watcher of a tombstoned validator is told.
use validator_health_check.Prelude.{
  none, put, all, ◌≡◌, refl, true, false, [], ◌∷◌, some, Text, text, Map, pos, get, seconds,
  text_eq, arith, int_eq,
}
use validator_health_check.Config.Users.{
  UserRecord, UserTelegramConfig, validate_users, validate_user, validate_telegram, see_users,
  see_user, see_telegram, is_empty_or_incomplete_config,
}
use validator_health_check.Registry.Users.{no_users, update_users_config, update_validated}
use validator_health_check.Worker.Messages.Complete.{Collected, collect-Collected}
use validator_health_check.Push.Pusher.{no_queues}
use validator_health_check.Push.Pusher.Enqueue.{IsKeyed}
use validator_health_check.Worker.Messages.{
  ConditionalMessage, Watchers, collect_watchers, enqueue_telegram_message_by_identity,
}
use validator_health_check.Worker.Messages.Told.{Grown, told, enqueue_by_identity-Grown}
use validator_health_check.Worker.Messages.Fatal.{
  NoneFatal, Calm, HaveTelegram, enqueue_by_identity-Calm,
}

abbrev carol_telegram : UserTelegramConfig
carol_telegram = record { username = text "carol_tg"; user_id = pos 44; token = text "125:abc" }

abbrev carol : UserRecord
carol = record { identity = text "carol"; root = false; telegram_config = some carol_telegram }

abbrev records : Map Text UserRecord
records = (text "carol", carol) ∷ []

abbrev tombstoned : ConditionalMessage
tombstoned = record { message = text "is TOMBSTONED"; message_for_root = [] }

records-HaveTelegram : HaveTelegram records
unfolding get
records-HaveTelegram identity r h = (carol_telegram, ground arith)

queues-IsKeyed : IsKeyed no_queues
unfolding get
queues-IsKeyed = record { at_receiver = λ id q h. cc }

queues-NoneFatal : NoneFatal no_queues
unfolding get
queues-NoneFatal id = tt

enqueue_by_identity-Calm_example : Calm (
    enqueue_telegram_message_by_identity
      (seconds 10)
      records
      (text "juno")
      (text "junovaloper1a")
      tombstoned
      true
      (text "carol" ∷ [])
      no_queues)
enqueue_by_identity-Calm_example =
    enqueue_by_identity-Calm (seconds 10) records (text "juno") (text "junovaloper1a") tombstoned
      true (text "carol" ∷ []) no_queues records-HaveTelegram queues-IsKeyed queues-NoneFatal

abbrev root_carol : UserRecord
root_carol = record { identity = text "carol"; root = true; telegram_config = some carol_telegram }

abbrev no_watchers : Watchers
no_watchers = record { identities = []; records = [] }

carol-accepted : (update_users_config (root_carol ∷ []) no_users).0 ≡ none
unfolding update_users_config update_validated validate_users see_users see_user see_telegram
    validate_user validate_telegram is_empty_or_incomplete_config get put all
carol-accepted = refl

collect-Collected_example :
    Collected
      (update_users_config (root_carol ∷ []) no_users).1
      (text "carol" ∷ text "dan" ∷ [])
      no_watchers
      (collect_watchers
        (update_users_config (root_carol ∷ []) no_users).1
        (text "carol" ∷ text "dan" ∷ [])
        no_watchers)
collect-Collected_example =
    collect-Collected (root_carol ∷ []) no_users (text "carol" ∷ text "dan" ∷ []) no_watchers
      carol-accepted

-- A watcher of two validators of the chain.
enqueue_by_identity-Grown_example :
    Grown
      (seconds 10)
      records
      (text "juno")
      []
      tombstoned
      false
      no_queues
      (λ id.
        told
          (seconds 10)
          records
          (text "juno")
          []
          tombstoned
          false
          id
          (text "carol" ∷ text "carol" ∷ []))
      (enqueue_telegram_message_by_identity
        (seconds 10)
        records
        (text "juno")
        []
        tombstoned
        false
        (text "carol" ∷ text "carol" ∷ [])
        no_queues)
enqueue_by_identity-Grown_example =
    enqueue_by_identity-Grown (seconds 10) records (text "juno") [] tombstoned false
      (text "carol" ∷ text "carol" ∷ []) no_queues records-HaveTelegram queues-IsKeyed
