-- ===== src/Push/Pusher.antt =====
-- services/telegram_push_message_svc/telegram_pusher.go: the queues of all receivers, and the turn
-- of the loop that sends what one of them holds. The queues are objects that the map and the two
-- slices share: the map holds them here, and the slices hold their receiver ids. An operation reads
-- the clock once, as `now`. Making a bot and calling telegram through it, retries included, are
-- `deliver`; `sort.Slice` is `sorter`.
pub mod Enqueue
pub mod Choice
pub mod Delivery
pub mod Turn
pub mod Examples
use validator_health_check.Prelude.{
  ℕ, ℤ, Bool, true, false, not, ◌||◌, ◌&&◌, List, [], ◌∷◌, ◌++◌, Option, none, some, Text, Map, get,
  put, length, ltb, ltb_ℤ, eqb, Time, since, zero_time, map, Run, done, panic, ◌>>=◌, SortSlice,
  if◌then◌else◌, int_eq,
}
use validator_health_check.Config.Users.{
  UserRecord, UserTelegramConfig, is_empty_or_incomplete_config,
}
use validator_health_check.Registry.Users.{UserRegistry, get_user_record_by_telegram_user_id}
use validator_health_check.Push.Message.{
  QueueMessage, minimum_between_telegram_push_same_user, batch_size_telegram_push_per_user,
}
use validator_health_check.Push.Queue.{
  ReceiverBasedQueue, new_receiver_based_queue, enqueue_message, any_pending_message,
  get_queue_info, dequeue_messages,
}
use validator_health_check.Push.Queue.Batch.{combined}
use validator_health_check.Push.Silencer.{Silencer, should_silent_by_chat_id}

pub record TelegramPusher : Type 0 where
  pub queues_receiver_based : Map ℤ ReceiverBasedQueue
  pub priority_queue : List ℤ
  pub non_priority_queue : List ℤ

abbrev pub no_queues : TelegramPusher
no_queues = record { queues_receiver_based = []; priority_queue = []; non_priority_queue = [] }

-- The receiver's queue, which is made and listed if there is none.
unfoldable pub ensure_queue :
    QueueMessage → Option ReceiverBasedQueue → TelegramPusher → ReceiverBasedQueue × TelegramPusher
ensure_queue message (some existing) tp = (existing, tp)
ensure_queue message none tp =
    let queue = new_receiver_based_queue message.receiver_id message.priority in
    let queues = put message.receiver_id queue tp.queues_receiver_based in
    (
      queue,
      if message.priority
          then record tp {
            queues_receiver_based = queues;
            priority_queue = tp.priority_queue ++ message.receiver_id ∷ [];
          }
          else record tp {
            queues_receiver_based = queues;
            non_priority_queue = tp.non_priority_queue ++ message.receiver_id ∷ [];
          },
    )

-- A message with no time gets the present one.
abbrev pub stamp : Time → QueueMessage → QueueMessage
stamp now message =
    if eqb message.enqueue_time_utc zero_time
    then record message { enqueue_time_utc = now }
    else message

-- The end of `enqueueMessageWL`, with the queue and the pusher that holds it.
unfoldable pub enqueue_ensured :
    Time → QueueMessage → ReceiverBasedQueue × TelegramPusher → Run TelegramPusher
enqueue_ensured now message (queue, tp) = do
  queue' ← enqueue_message now (stamp now message) queue
  done (record tp {
    queues_receiver_based = put message.receiver_id queue' tp.queues_receiver_based;
  })

-- `enqueueMessageWL` of the pusher, which `EnqueueMessageWL` calls.
unfoldable pub enqueue : Time → QueueMessage → TelegramPusher → Run TelegramPusher
unfolding ensure_queue enqueue_ensured
enqueue now message tp =
    enqueue_ensured now message
      (ensure_queue message (get message.receiver_id tp.queues_receiver_based) tp)

unfoldable pub get_all_queues : TelegramPusher → List ℤ
get_all_queues tp = tp.priority_queue ++ tp.non_priority_queue

-- The three tests of the loop over all queues.
unfoldable pub is_ready : Time → Option ReceiverBasedQueue → Bool
is_ready now none = false
is_ready now (some q) =
    any_pending_message q
    && not (ltb (get_queue_info q).size 1)
    && not (
        ltb_ℤ (since now (get_queue_info q).last_enqueue_utc)
          minimum_between_telegram_push_same_user)

-- The loop that assigns `firstNonEmptyQueue`, which starts as `current`.
unfoldable pub choose_queue : Time → Map ℤ ReceiverBasedQueue → List ℤ → Option ℤ → Option ℤ
choose_queue now queues [] current = current
choose_queue now queues (id ∷ ids) current =
    choose_queue now queues ids (if is_ready now (get id queues) then some id else current)

-- The loop over the dequeued messages: those that no pattern silences.
unfoldable pub drop_silenced :
    Time → ℤ → List QueueMessage → Silencer → List QueueMessage × Silencer
drop_silenced now receiver_id [] s = ([], s)
drop_silenced now receiver_id (m ∷ ms) s =
    let (silenced, s') = should_silent_by_chat_id now receiver_id m.message s in
    let (rest, s'') = drop_silenced now receiver_id ms s' in
    (if silenced then rest else m ∷ rest, s'')

-- Fatal messages first, then the older ones.
abbrev pub more_urgent : QueueMessage → QueueMessage → Bool
more_urgent left right =
    if left.fatal
    then (if right.fatal then ltb left.enqueue_time_utc right.enqueue_time_utc else true)
    else (if right.fatal then false else ltb left.enqueue_time_utc right.enqueue_time_utc)

pub data PushError : Type 0 where
  user_record_not_found telegram_config_incomplete send_failed : PushError

abbrev pub delivered : Bool → Option PushError
delivered true = none
delivered false = some send_failed

abbrev pub send_with_config :
    (Text → ℤ → Text → Bool) → ℤ → Text → Option UserTelegramConfig → Option PushError
send_with_config deliver receiver_id content none = some telegram_config_incomplete
send_with_config deliver receiver_id content (some c) =
    if is_empty_or_incomplete_config (some c)
    then some telegram_config_incomplete
    else delivered (deliver c.token receiver_id content)

abbrev pub send_to_user : (Text → ℤ → Text → Bool) → ℤ → Text → Option UserRecord → Option PushError
send_to_user deliver receiver_id content none = some user_record_not_found
send_to_user deliver receiver_id content (some r) =
    send_with_config deliver receiver_id content r.telegram_config

-- The deferred loop that puts the messages back.
unfoldable pub enqueue_all : Time → List QueueMessage → TelegramPusher → Run TelegramPusher
enqueue_all now [] tp = done tp
enqueue_all now (m ∷ ms) tp = do tp' ← enqueue now m tp; enqueue_all now ms tp'

pub record World : Type 0 where
  pub pusher : TelegramPusher
  pub silencer : Silencer

pub data Outcome : Type 0 where
  all_cool_down no_message all_silenced sent : Outcome
  failed : PushError → Outcome

module _ (sorter : SortSlice QueueMessage) (deliver : Text → ℤ → Text → Bool) where
  -- What follows the attempt to send.
  unfoldable pub after_attempt :
      Time → List QueueMessage → World → Option PushError → Run (Outcome × World)
  after_attempt now messages w none = done (sent, w)
  after_attempt now messages w (some e) = do
    tp ← enqueue_all now messages w.pusher
    done (failed e, record w { pusher = tp })

  -- The combined message of what was not silenced is sent.
  unfoldable pub push_messages :
      Time → UserRegistry → ℤ → List QueueMessage → World → Run (Outcome × World)
  unfolding after_attempt
  push_messages now users receiver_id [] w = done (all_silenced, w)
  push_messages now users receiver_id (m ∷ ms) w =
      let messages = sorter.sort_slice more_urgent (m ∷ ms) in
      after_attempt now messages w (
        send_to_user deliver receiver_id (combined messages)
          (get_user_record_by_telegram_user_id receiver_id users))

  unfoldable pub push_dequeued :
      Time → UserRegistry → ℤ → List QueueMessage → World → Run (Outcome × World)
  unfolding push_messages
  push_dequeued now users receiver_id [] w = done (no_message, w)
  push_dequeued now users receiver_id (m ∷ ms) w =
      let (messages, s) = drop_silenced now receiver_id (m ∷ ms) w.silencer in
      push_messages now users receiver_id messages (record w { silencer = s })

  unfoldable pub push_queue :
      Time → UserRegistry → ℤ → Option ReceiverBasedQueue → World → Run (Outcome × World)
  unfolding push_dequeued
  push_queue now users receiver_id none w = panic
  push_queue now users receiver_id (some q) w =
      let (dequeued, q') = dequeue_messages now batch_size_telegram_push_per_user q in
      push_dequeued now users receiver_id dequeued (record w {
        pusher = record w.pusher {
          queues_receiver_based = put receiver_id q' w.pusher.queues_receiver_based;
        };
      })

  unfoldable pub push_chosen : Time → UserRegistry → Option ℤ → World → Run (Outcome × World)
  unfolding push_queue
  push_chosen now users none w = done (all_cool_down, w)
  push_chosen now users (some receiver_id) w =
      push_queue now users receiver_id (get receiver_id w.pusher.queues_receiver_based) w

  -- One round of the loop of `start`, behind its sleeps.
  unfoldable pub push_turn : Time → UserRegistry → World → Run (Outcome × World)
  unfolding push_chosen
  push_turn now users w =
      push_chosen now users
        (choose_queue now w.pusher.queues_receiver_based (get_all_queues w.pusher) none) w
