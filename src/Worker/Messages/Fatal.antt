-- ===== src/Worker/Messages/Fatal.antt =====
-- What becomes of the urgency of the worker's messages.
use validator_health_check.Prelude.{
  ℤ, Bool, true, false, List, [], ◌∷◌, ◌++◌, Option, none, some, Text, Map, get, Time, All,
  All-append, Run, done, panic, ◌>>=◌, text_eq, int_eq, ◌==◌, if◌then◌else◌, arith, ◌≡◌, refl, sym,
  subst,
}
use validator_health_check.Config.Users.{UserRecord, UserTelegramConfig}
use validator_health_check.Push.Message.{QueueMessage}
use validator_health_check.Push.Pusher.{TelegramPusher, stamp}
use validator_health_check.Push.Pusher.Enqueue.{IsKeyed, waiting, Enqueued, enqueue-Enqueued}
use validator_health_check.Worker.Messages.{
  ConditionalMessage, queue_message, enqueue_to_watcher, enqueue_if_found,
  enqueue_telegram_message_by_identity,
}

-- No waiting message is marked as fatal.
abbrev pub NoneFatal : TelegramPusher → Type 0
NoneFatal tp = (id : ℤ) → All (λ m. m.fatal ≡ false) (waiting id tp)

abbrev pub Calm : Run TelegramPusher → Type 0
Calm panic = ⊥
Calm (done tp) = IsKeyed tp × NoneFatal tp

-- Every record has a telegram section.
abbrev pub HaveTelegram : Map Text UserRecord → Type 0
HaveTelegram records =
    (identity : Text) (r : UserRecord)
    → get identity records ≡ some r
    → (c : UserTelegramConfig) × (r.telegram_config ≡ some c)

Calm-Enqueued :
    (now : Time) (m : QueueMessage) (tp : TelegramPusher) (r : Run TelegramPusher)
    → m.fatal ≡ false
    → NoneFatal tp
    → Enqueued now m tp r
    → Calm r
Calm-Enqueued now m tp panic h calm e = e
Calm-Enqueued now m tp (done tp') h calm (k, at) =
    (k, λ id. subst (All (λ x. x.fatal ≡ false)) (sym (at id)) (grown id (m.receiver_id == id)))
  where
    stamped : (stamp now m).fatal ≡ false
    stamped = ground arith

    grown :
        (id : ℤ) (b : Bool)
        → All
            (λ x. x.fatal ≡ false)
            (if b then waiting id tp ++ stamp now m ∷ [] else waiting id tp)
    grown id true = All-append _ (waiting id tp) (stamp now m ∷ []) (calm id) (stamped, tt)
    grown id false = calm id

Calm-watcher :
    (now : Time) (chain_name validator : Text) (m : ConditionalMessage) (fatal : Bool)
    (r : UserRecord) (c : UserTelegramConfig) (t : Option UserTelegramConfig) (tp : TelegramPusher)
    → t ≡ some c
    → IsKeyed tp
    → NoneFatal tp
    → Calm (enqueue_to_watcher now chain_name validator m fatal r t tp)
Calm-watcher now chain_name validator m fatal r c none tp e k calm = cc
Calm-watcher now chain_name validator m fatal r c (some c') tp e k calm =
    Calm-Enqueued now (queue_message chain_name validator m fatal r c') tp _ refl calm
      (enqueue-Enqueued now (queue_message chain_name validator m fatal r c') tp k)

Calm-found :
    (now : Time) (chain_name validator : Text) (m : ConditionalMessage) (fatal : Bool)
    (found : Option UserRecord) (tp : TelegramPusher)
    → ((r : UserRecord) → found ≡ some r → (c : UserTelegramConfig) × (r.telegram_config ≡ some c))
    → IsKeyed tp
    → NoneFatal tp
    → Calm (enqueue_if_found now chain_name validator m fatal found tp)
Calm-found now chain_name validator m fatal none tp h k calm = (k, calm)
Calm-found now chain_name validator m fatal (some r) tp h k calm =
    let (c, e) = h r refl in
    Calm-watcher now chain_name validator m fatal r c r.telegram_config tp e k calm

Calm-bind :
    (r : Run TelegramPusher) (f : TelegramPusher → Run TelegramPusher)
    → Calm r
    → ((tp : TelegramPusher) → IsKeyed tp → NoneFatal tp → Calm (f tp))
    → Calm (r >>= f)
Calm-bind panic f h next = h
Calm-bind (done tp) f h next = next tp h.0 h.1

-- `enqueueTelegramMessageByIdentity`, given that every user it finds has a telegram section, does not
-- panic, and the messages that it puts into the queues are not marked as fatal, also if it is called
-- with `fatal`.
pub enqueue_by_identity-Calm :
    (now : Time) (records : Map Text UserRecord) (chain_name validator : Text)
    (m : ConditionalMessage) (fatal : Bool) (identities : List Text) (tp : TelegramPusher)
    → HaveTelegram records
    → IsKeyed tp
    → NoneFatal tp
    → Calm (
        enqueue_telegram_message_by_identity now records chain_name validator m fatal identities tp)
unfolding enqueue_telegram_message_by_identity
enqueue_by_identity-Calm now records chain_name validator m fatal [] tp h k calm = (k, calm)
enqueue_by_identity-Calm now records chain_name validator m fatal (i ∷ is) tp h k calm =
    Calm-bind _ _ (Calm-found now chain_name validator m fatal (get i records) tp (h i) k calm)
      λ tp' k' calm'.
        enqueue_by_identity-Calm now records chain_name validator m fatal is tp' h k' calm'
