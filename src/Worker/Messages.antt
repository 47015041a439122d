-- ===== src/Worker/Messages.antt =====
-- work/health_check_worker/worker.go: who is told of a chain's problems, and how. Each call of the
-- pusher reads the clock once, as `now`.
pub mod Complete
pub mod Fatal
pub mod Told
pub mod Examples
use validator_health_check.Prelude.{
  Bool, true, false, not, ◌||◌, ◌&&◌, List, [], ◌∷◌, ◌++◌, Option, none, some, Text, text, Map, get,
  put, Time, zero_time, is_empty, Run, done, panic, ◌>>=◌, text_eq, if◌then◌else◌,
}
use validator_health_check.Config.Users.{
  UserRecord, UserTelegramConfig, is_empty_or_incomplete_config,
}
use validator_health_check.Registry.Users.{UserRegistry, get_user_record_by_identity}
use validator_health_check.Push.Message.{QueueMessage}
use validator_health_check.Push.Pusher.{TelegramPusher, enqueue}

-- `allWatchersIdentity` and `watchersIdentityToUserRecord`
pub record Watchers : Type 0 where
  pub identities : List Text
  pub records : Map Text UserRecord

abbrev add_watcher : Text → Option UserRecord → Watchers → Run Watchers
add_watcher identity none w = done w
add_watcher identity (some r) w =
    if is_empty_or_incomplete_config r.telegram_config
    then panic
    else done
        (record { identities = w.identities ++ identity ∷ []; records = put identity r w.records })

-- The loop over the watchers of one validator.
unfoldable pub collect_watchers : UserRegistry → List Text → Watchers → Run Watchers
collect_watchers users [] w = done w
collect_watchers users (identity ∷ identities) w = do
  w' ← add_watcher identity (get_user_record_by_identity identity users) w
  collect_watchers users identities w'

pub record ConditionalMessage : Type 0 where
  pub message : Text
  pub message_for_root : Text

-- The text for one user.
unfoldable pub message_text : Text → Text → ConditionalMessage → Bool → Bool → Text
message_text chain_name validator m fatal root =
    (if fatal then text "*FATAL!!*" else [])
    ++ (text "["
        ++ (chain_name
            ++ (text "]"
                ++ ((if is_empty validator then [] else text "[" ++ (validator ++ text "]"))
                    ++ (text " "
                        ++ (if not (is_empty m.message_for_root) && root
                            then m.message_for_root
                            else m.message))))))

abbrev pub queue_message :
    Text → Text → ConditionalMessage → Bool → UserRecord → UserTelegramConfig → QueueMessage
queue_message chain_name validator m fatal r c = record {
  receiver_id = c.user_id;
  priority = r.root;
  fatal = false;
  message = message_text chain_name validator m fatal r.root;
  enqueue_time_utc = zero_time;
}

abbrev pub enqueue_to_watcher :
    Time
    → Text
    → Text
    → ConditionalMessage
    → Bool
    → UserRecord
    → Option UserTelegramConfig
    → TelegramPusher
    → Run TelegramPusher
enqueue_to_watcher now chain_name validator m fatal r none tp = panic
enqueue_to_watcher now chain_name validator m fatal r (some c) tp =
    enqueue now (queue_message chain_name validator m fatal r c) tp

abbrev pub enqueue_if_found :
    Time
    → Text
    → Text
    → ConditionalMessage
    → Bool
    → Option UserRecord
    → TelegramPusher
    → Run TelegramPusher
enqueue_if_found now chain_name validator m fatal none tp = done tp
enqueue_if_found now chain_name validator m fatal (some r) tp =
    enqueue_to_watcher now chain_name validator m fatal r r.telegram_config tp

-- `enqueueTelegramMessageByIdentity`
unfoldable pub enqueue_telegram_message_by_identity :
    Time
    → Map Text UserRecord
    → Text
    → Text
    → ConditionalMessage
    → Bool
    → List Text
    → TelegramPusher
    → Run TelegramPusher
enqueue_telegram_message_by_identity now records chain_name validator m fatal [] tp = done tp
enqueue_telegram_message_by_identity now records chain_name validator m fatal (i ∷ is) tp = do
  tp' ← enqueue_if_found now chain_name validator m fatal (get i records) tp
  enqueue_telegram_message_by_identity now records chain_name validator m fatal is tp'
