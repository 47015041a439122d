-- ===== src/Push/Pusher/Enqueue.antt =====
-- What `enqueueMessageWL` does to the queues.
use validator_health_check.Prelude.{
  ℤ, List, [], ◌∷◌, ◌++◌, Option, none, some, get, put, get-put, Time, Run, done, panic,
  if◌then◌else◌, int_eq, ◌==◌, ==_iff, arith, ◌≡◌, refl, Option-cases, inl, inr,
}
use validator_health_check.Push.Message.{QueueMessage}
use validator_health_check.Push.Queue.{
  ReceiverBasedQueue, new_receiver_based_queue, enqueue_message,
}
use validator_health_check.Push.Pusher.{
  TelegramPusher, ensure_queue, stamp, enqueue_ensured, enqueue,
}

-- Each queue stands under its own receiver.
pub record IsKeyed (tp : TelegramPusher) : Type 0 where
  pub at_receiver :
      (id : ℤ) (q : ReceiverBasedQueue)
      → get id tp.queues_receiver_based ≡ some q
      → q.receiver_id ≡ id

-- The messages that wait for a receiver.
abbrev pub messages_of : Option ReceiverBasedQueue → List QueueMessage
messages_of none = []
messages_of (some q) = q.enqueued_messages

abbrev pub waiting : ℤ → TelegramPusher → List QueueMessage
waiting id tp = messages_of (get id tp.queues_receiver_based)

-- What `enqueue` leaves, if it does not panic.
abbrev pub Enqueued : Time → QueueMessage → TelegramPusher → Run TelegramPusher → Type 0
Enqueued now m tp panic = ⊥
Enqueued now m tp (done tp') =
    IsKeyed tp'
    × ((id : ℤ)
        → waiting id tp'
          ≡ (if m.receiver_id == id then waiting id tp ++ stamp now m ∷ [] else waiting id tp))

-- The queue with one more message.
abbrev grown : Time → QueueMessage → ReceiverBasedQueue → ReceiverBasedQueue
grown now m q = record q {
  enqueued_messages = q.enqueued_messages ++ stamp now m ∷ [];
  last_enqueue_utc = now;
}

receiver-stamp : (now : Time) (m : QueueMessage) → (stamp now m).receiver_id ≡ m.receiver_id
receiver-stamp now m = ground arith

enqueue_message-done :
    (now : Time) (m : QueueMessage) (q : ReceiverBasedQueue)
    → q.receiver_id ≡ m.receiver_id
    → enqueue_message now (stamp now m) q ≡ done (grown now m q)
unfolding enqueue_message
enqueue_message-done now m q e =
    ground (arith, ==_iff (stamp now m).receiver_id q.receiver_id, receiver-stamp now m)

module _ (now : Time) (m : QueueMessage) (tp : TelegramPusher) (k : IsKeyed tp) where
  Enqueued-put :
      (q : ReceiverBasedQueue) (tp' : TelegramPusher)
      → q.receiver_id ≡ m.receiver_id
      → q.enqueued_messages ≡ waiting m.receiver_id tp
      → ((id : ℤ)
          → get id tp'.queues_receiver_based ≡ (
              if m.receiver_id == id
              then some (grown now m q)
              else get id tp.queues_receiver_based))
      → Enqueued now m tp (done tp')
  Enqueued-put q tp' e same at = (
    record {
      at_receiver = λ id q' h. ground (arith, at id, k.at_receiver id q', ==_iff m.receiver_id id);
    },
    λ id. ground (arith, at id, ==_iff m.receiver_id id),
  )

  Enqueued-ensured :
      (p : ReceiverBasedQueue × TelegramPusher)
      → p.0.receiver_id ≡ m.receiver_id
      → p.0.enqueued_messages ≡ waiting m.receiver_id tp
      → ((id : ℤ)
          → get id (put m.receiver_id (grown now m p.0) p.1.queues_receiver_based) ≡ (
              if m.receiver_id == id
              then some (grown now m p.0)
              else get id tp.queues_receiver_based))
      → Enqueued now m tp (enqueue_ensured now m p)
  unfolding enqueue_ensured
  Enqueued-ensured p e same at =
      rw (enqueue_message-done now m p.0 e) (Enqueued-put p.0 _ e same at)

  ensured-existing :
      (q : ReceiverBasedQueue)
      → get m.receiver_id tp.queues_receiver_based ≡ some q
      → Enqueued now m tp (enqueue_ensured now m (ensure_queue m (some q) tp))
  unfolding ensure_queue
  ensured-existing q h =
      Enqueued-ensured (q, tp) (k.at_receiver m.receiver_id q h) (rw h)
        λ id. get-put m.receiver_id id (grown now m q) tp.queues_receiver_based

  ensured-new :
      get m.receiver_id tp.queues_receiver_based ≡ none
      → Enqueued now m tp (enqueue_ensured now m (ensure_queue m none tp))
  unfolding ensure_queue new_receiver_based_queue
  ensured-new h = Enqueued-ensured (ensure_queue m none tp) refl (rw h) λ id. ground (
    arith,
    get-put m.receiver_id id (grown now m fresh) (put m.receiver_id fresh tp.queues_receiver_based),
    get-put m.receiver_id id fresh tp.queues_receiver_based,
  )
    where
      fresh : ReceiverBasedQueue
      fresh = new_receiver_based_queue m.receiver_id m.priority

enqueue_lem :
    (now : Time) (m : QueueMessage) (tp : TelegramPusher)
    → enqueue now m tp
      ≡ enqueue_ensured now m (ensure_queue m (get m.receiver_id tp.queues_receiver_based) tp)
unfolding enqueue
enqueue_lem now m tp = refl

-- `enqueueMessageWL` does not panic when each queue stands under its own receiver, which stays so;
-- the message goes to the end of its receiver's queue, stamped with the time if it had none, and no
-- other receiver's messages change.
pub enqueue-Enqueued :
    (now : Time) (m : QueueMessage) (tp : TelegramPusher)
    → IsKeyed tp
    → Enqueued now m tp (enqueue now m tp)
enqueue-Enqueued now m tp k = elim (Option-cases (get m.receiver_id tp.queues_receiver_based)) [
  | inl missing ↦ rw (enqueue_lem, missing) (ensured-new now m tp k missing)
  | inr (q, found) ↦ rw (enqueue_lem, found) (ensured-existing now m tp k q found)
]
