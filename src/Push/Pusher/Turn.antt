-- ===== src/Push/Pusher/Turn.antt =====
-- A turn of the pusher: it never panics, and what it does to the messages.
use validator_health_check.Prelude.{
  ℤ, Bool, List, ◌++◌, Text, Time, map, Run, done, panic, if◌then◌else◌, int_eq, ◌==◌, ◌≡◌, refl,
  All,
}
use mathlib.Core.List.{Permᴰ}
use mathlib.Core.List.Permᴰ.{refl as perm_refl}
use validator_health_check.Push.Message.{QueueMessage}
use validator_health_check.Push.Silencer.{Silencer}
use validator_health_check.Registry.Users.{UserRegistry}
use validator_health_check.Push.Pusher.{TelegramPusher, World, Outcome, stamp}
use validator_health_check.Push.Pusher.Delivery.{IsInOrder, IsDelivered}
use validator_health_check.Push.Pusher.Enqueue.{IsKeyed, waiting}

-- Every message of the list is for this receiver.
abbrev pub AreFor : ℤ → List QueueMessage → Type 0
AreFor id = All (λ m. m.receiver_id ≡ id)

-- What `enqueue_all` leaves, if it does not panic.
abbrev pub EnqueuedAll : Time → ℤ → List QueueMessage → TelegramPusher → Run TelegramPusher → Type 0
EnqueuedAll now id ms tp panic = ⊥
EnqueuedAll now id ms tp (done tp') =
    (j : ℤ) → waiting j tp' ≡ (if id == j then waiting j tp ++ map (stamp now) ms else waiting j tp)

-- The receiver has these messages waiting, and the others what they had.
abbrev pub Waits : ℤ → List QueueMessage → TelegramPusher → TelegramPusher → Type 0
Waits id messages before after =
    (j : ℤ) → waiting j after ≡ (if id == j then messages else waiting j before)

-- The turn that took the queue of `id`, and left `kept` in it: it tried to send the messages that were
-- not silenced, in order. Behind `kept`, what was tried is put back exactly if it was not delivered.
abbrev pub Turned :
    (Text → ℤ → Text → Bool)
    → UserRegistry
    → Time
    → ℤ
    → List QueueMessage
    → List QueueMessage
    → TelegramPusher
    → Run (Outcome × World)
    → Type 0
Turned deliver users now id kept unsilenced before panic = ⊥
Turned deliver users now id kept unsilenced before (done (outcome, w)) =
    (tried : List QueueMessage) × Permᴰ tried unsilenced
    × IsInOrder tried
    × (IsDelivered deliver users id tried → Waits id kept before w.pusher)
    × (¬ IsDelivered deliver users id tried
        → Waits id (kept ++ map (stamp now) tried) before w.pusher)

-- The receiver's queue holds `kept`, and the others are as before.
abbrev Holds : ℤ → List QueueMessage → TelegramPusher → TelegramPusher → Type 0
Holds id kept before tp =
    IsKeyed tp × ((j : ℤ) → waiting j tp ≡ (if id == j then kept else waiting j before))
