-- ===== src/Push/Queue.antt =====
-- services/telegram_push_message_svc/receiver_based_queue.go: the queue of one receiver. Each
-- operation holds the queue's lock from start to end and reads the clock once, as `now`.
pub mod Batch
pub mod Removal
pub mod Examples
use Batch.{within_limit}
use validator_health_check.Prelude.{
  ℕ, ℤ, Bool, List, [], ◌∷◌, ◌++◌, length, take, drop, leb, ltb, Time, ◌==◌, if◌then◌else◌, Run,
  done, panic, zero_time, int_eq,
}
use validator_health_check.Push.Message.{QueueMessage}

pub record ReceiverBasedQueue : Type 0 where
  pub receiver_id : ℤ
  pub is_priority : Bool
  pub last_enqueue_utc : Time
  pub enqueued_messages : List QueueMessage

unfoldable pub new_receiver_based_queue : ℤ → Bool → ReceiverBasedQueue
new_receiver_based_queue receiver_id is_priority = record {
  receiver_id = receiver_id;
  is_priority = is_priority;
  last_enqueue_utc = zero_time;
  enqueued_messages = [];
}

-- A message for another receiver panics.
unfoldable pub enqueue_message : Time → QueueMessage → ReceiverBasedQueue → Run ReceiverBasedQueue
enqueue_message now message r =
    if message.receiver_id == r.receiver_id
    then done (record r {
      enqueued_messages = r.enqueued_messages ++ message ∷ [];
      last_enqueue_utc = now;
    })
    else panic

unfoldable pub any_pending_message : ReceiverBasedQueue → Bool
any_pending_message r = ltb 0 (length r.enqueued_messages)

pub record QueueInfo : Type 0 where
  pub receiver : ℤ
  pub is_receiver_priority : Bool
  pub size : ℕ
  pub last_enqueue_utc : Time

unfoldable pub get_queue_info : ReceiverBasedQueue → QueueInfo
get_queue_info r = record {
  receiver = r.receiver_id;
  is_receiver_priority = r.is_priority;
  size = length r.enqueued_messages;
  last_enqueue_utc = r.last_enqueue_utc;
}

-- The messages that `size` selects, and those that stay behind them.
unfoldable pub selected : ℕ → List QueueMessage → List QueueMessage
selected size messages = if leb (length messages) size then messages else take size messages

unfoldable pub unselected : ℕ → List QueueMessage → List QueueMessage
unselected size messages = if leb (length messages) size then [] else drop size messages

-- What the length limit leaves of the selected messages is put back in front.
unfoldable pub put_back :
    List QueueMessage → List QueueMessage → List QueueMessage → List QueueMessage
put_back kept result rest =
    if ltb (length kept) (length result) then drop (length kept) result ++ rest else rest

-- The result is the slice that `size` selects, as the code's plain `return` gives it.
unfoldable pub dequeue_messages :
    Time → ℕ → ReceiverBasedQueue → List QueueMessage × ReceiverBasedQueue
unfolding selected unselected put_back within_limit
dequeue_messages now size r =
    let result = selected size r.enqueued_messages in
    let rest = unselected size r.enqueued_messages in
    let kept = within_limit 0 0 result in
    (result, record r { enqueued_messages = put_back kept result rest; last_enqueue_utc = now })
