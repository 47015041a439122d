-- ===== src/Push/Pusher/Examples.antt =====
-- A pusher with the queue of one user, who cannot be reached.
use validator_health_check.Prelude.{
  ℤ, pos, Bool, true, false, [], ◌∷◌, none, Text, text, arith, ◌≡◌, refl, seconds, any, int_eq,
  ==_iff, get, Map, since,
}
use validator_health_check.Push.Message.{QueueMessage}
use validator_health_check.Push.Queue.{ReceiverBasedQueue, any_pending_message, get_queue_info}
use validator_health_check.Push.Pusher.{
  TelegramPusher, World, enqueue, choose_queue, get_all_queues, is_ready,
}
use validator_health_check.Push.Pusher.Enqueue.{IsKeyed, Enqueued, enqueue-Enqueued}
use validator_health_check.Push.Pusher.Choice.{ready, LastReady, choose-LastReady, priority_waits}

abbrev message : QueueMessage
message = record {
  receiver_id = pos 7;
  priority = false;
  fatal = false;
  message = text "validator is jailed";
  enqueue_time_utc = seconds 10;
}

abbrev queue : ReceiverBasedQueue
queue = record {
  receiver_id = pos 7;
  is_priority = false;
  last_enqueue_utc = seconds 10;
  enqueued_messages = message ∷ [];
}

abbrev queues : Map ℤ ReceiverBasedQueue
queues = (pos 7, queue) ∷ []

abbrev pusher : TelegramPusher
pusher = record {
  queues_receiver_based = queues;
  priority_queue = [];
  non_priority_queue = pos 7 ∷ [];
}

pusher-IsKeyed : IsKeyed pusher
unfolding get
pusher-IsKeyed = record { at_receiver = λ id q h. ground (arith, ==_iff (pos 7) id) }

enqueue-Enqueued_example :
    Enqueued (seconds 20) message pusher (enqueue (seconds 20) message pusher)
enqueue-Enqueued_example = enqueue-Enqueued (seconds 20) message pusher pusher-IsKeyed

choose-LastReady_example :
    LastReady
      (seconds 90)
      queues
      (pos 7 ∷ pos 8 ∷ [])
      (choose_queue (seconds 90) queues (pos 7 ∷ pos 8 ∷ []) none)
choose-LastReady_example = choose-LastReady (seconds 90) queues (pos 7 ∷ pos 8 ∷ [])

queue-ready : any (ready (seconds 90) queues) (pos 7 ∷ []) ≡ true
unfolding any is_ready any_pending_message get_queue_info get since
queue-ready = refl

priority_waits_example :
    choose_queue (seconds 90) queues (get_all_queues pusher) none
    ≡ choose_queue (seconds 90) queues (pos 7 ∷ []) none
priority_waits_example = priority_waits (seconds 90) pusher queue-ready

abbrev world : World
world = record { pusher = pusher; silencer = [] }

abbrev refuses : Text → ℤ → Text → Bool
refuses token chat_id content = false
