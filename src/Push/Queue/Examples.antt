-- ===== src/Push/Queue/Examples.antt =====
-- A queue whose two messages are too long for one telegram message together.
use validator_health_check.Prelude.{
  ℕ, zero, suc, ◌≤◌, ◌<◌, List, [], ◌∷◌, ◌++◌, Text, length, take, arith, ◌≡◌, ◌≢◌, refl, pos,
  seconds, false,
}
use validator_health_check.Push.Message.{QueueMessage, maximum_telegram_message_length}
use validator_health_check.Push.Queue.{
  ReceiverBasedQueue, dequeue_messages, selected, unselected, put_back,
}
use validator_health_check.Push.Queue.Batch.{within_limit, combined, length-combined}
use validator_health_check.Push.Queue.Removal.{
  sent_off, dequeue-conserves, dequeue-within_limit, dequeue-duplicates, dequeue-blocked,
}

unfoldable letters : ℕ → Text
letters zero = []
letters (suc n) = 97 ∷ letters n

length-letters : (n : ℕ) → length (letters n) ≡ n
unfolding letters
length-letters zero = refl
length-letters (suc n) = omega (arith, length-letters n)

abbrev message_of : ℕ → QueueMessage
message_of n = record {
  receiver_id = pos 7;
  priority = false;
  fatal = false;
  message = letters n;
  enqueue_time_utc = seconds 100;
}

abbrev queue_of : List QueueMessage → ReceiverBasedQueue
queue_of ms = record {
  receiver_id = pos 7;
  is_priority = false;
  last_enqueue_utc = seconds 100;
  enqueued_messages = ms;
}

abbrev two_messages : List QueueMessage
two_messages = message_of 4000 ∷ message_of 200 ∷ []

abbrev three_messages : List QueueMessage
three_messages = message_of 5000 ∷ two_messages

selected-all : selected 20 two_messages ≡ two_messages
unfolding selected
selected-all = refl

two_messages-long : maximum_telegram_message_length ≤ length (combined (selected 20 two_messages))
two_messages-long = rw selected-all (
    omega (
      arith,
      length-combined (message_of 4000) (message_of 200 ∷ []),
      length-letters 4000,
      length-letters 200,
    ))

dequeue-conserves_example :
    ((dequeue_messages (seconds 200) 20 (queue_of two_messages)).0 ≡ take 20 two_messages)
    × ((repeated : List QueueMessage) × ((dequeue_messages
            (seconds 200)
            20
            (queue_of two_messages)).0
          ≡ sent_off 20 (queue_of two_messages) ++ repeated))
    × (sent_off 20 (queue_of two_messages)
          ++ (dequeue_messages (seconds 200) 20 (queue_of two_messages)).1.enqueued_messages
        ≡ two_messages)
dequeue-conserves_example = dequeue-conserves (seconds 200) 20 (queue_of two_messages)

dequeue-duplicates_example :
    (twice : List QueueMessage) × (twice ≢ [])
    × ((dequeue_messages (seconds 200) 20 (queue_of two_messages)).0
        ≡ sent_off 20 (queue_of two_messages) ++ twice)
    × ((dequeue_messages (seconds 200) 20 (queue_of two_messages)).1.enqueued_messages
        ≡ twice ++ unselected 20 two_messages)
dequeue-duplicates_example =
    dequeue-duplicates (seconds 200) 20 (queue_of two_messages) two_messages-long

dequeue-blocked_example :
    ((dequeue_messages (seconds 200) 2 (queue_of three_messages)).1.enqueued_messages
      ≡ message_of 5000 ∷ two_messages)
    × ((dequeue_messages (seconds 200) 2 (queue_of three_messages)).0
        ≡ selected 2 (message_of 5000 ∷ two_messages))
dequeue-blocked_example =
    dequeue-blocked (seconds 200) 2 (queue_of three_messages) (message_of 5000) two_messages refl
      (omega (arith, length-letters 5000))

abbrev short_messages : List QueueMessage
short_messages = message_of 3 ∷ message_of 2 ∷ []

short-removed :
    short_messages
      ++ (dequeue_messages (seconds 200) 20 (queue_of short_messages)).1.enqueued_messages
    ≡ short_messages
unfolding dequeue_messages selected unselected put_back within_limit letters
short-removed = refl

dequeue-within_limit_example :
    (length (combined short_messages) < maximum_telegram_message_length)
    × (length (combined (dequeue_messages (seconds 200) 20 (queue_of short_messages)).0)
          < maximum_telegram_message_length
        → short_messages ≡ (dequeue_messages (seconds 200) 20 (queue_of short_messages)).0)
dequeue-within_limit_example =
    dequeue-within_limit (seconds 200) 20 (queue_of short_messages) short_messages short-removed
