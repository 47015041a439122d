-- ===== src/Worker/Messages/Told.antt =====
-- Who is told, how often, and in which order.
use mathlib.Core.List.{append_assoc, append-nil}
use validator_health_check.Prelude.{
  ℤ, Bool, true, false, List, [], ◌∷◌, ◌++◌, Option, none, some, Text, Map, get, Time, Run, done,
  panic, ◌>>=◌, text_eq, int_eq, ◌==◌, if◌then◌else◌, ◌≡◌, ◌∙◌, refl, sym, ap,
}
use validator_health_check.Config.Users.{UserRecord, UserTelegramConfig}
use validator_health_check.Push.Message.{QueueMessage}
use validator_health_check.Push.Pusher.{TelegramPusher, stamp, enqueue}
use validator_health_check.Push.Pusher.Enqueue.{IsKeyed, waiting, Enqueued, enqueue-Enqueued}
use validator_health_check.Worker.Messages.{
  ConditionalMessage, queue_message, enqueue_to_watcher, enqueue_if_found,
  enqueue_telegram_message_by_identity,
}
use validator_health_check.Worker.Messages.Fatal.{HaveTelegram}

module _ (now : Time) (records : Map Text UserRecord) (chain_name validator : Text)
    (m : ConditionalMessage) (fatal : Bool) where
  -- The message for a user, if it is the receiver.
  abbrev pub to_config : ℤ → UserRecord → Option UserTelegramConfig → List QueueMessage
  to_config id r none = []
  to_config id r (some c) =
      if c.user_id == id
      then stamp now (queue_message chain_name validator m fatal r c) ∷ []
      else []

  abbrev pub to_record : ℤ → Option UserRecord → List QueueMessage
  to_record id none = []
  to_record id (some r) = to_config id r r.telegram_config

  -- What the receiver is told: a message for each time that it is named, in order.
  abbrev pub told : ℤ → List Text → List QueueMessage
  told id [] = []
  told id (i ∷ is) = to_record id (get i records) ++ told id is

  -- The call ends, and each queue has grown by these messages.
  abbrev pub Grown : TelegramPusher → (ℤ → List QueueMessage) → Run TelegramPusher → Type 0
  Grown tp new panic = ⊥
  Grown tp new (done tp') = IsKeyed tp' × ((id : ℤ) → waiting id tp' ≡ waiting id tp ++ new id)

  Grown-Enqueued :
      (r : UserRecord) (c : UserTelegramConfig) (tp : TelegramPusher) (e : Run TelegramPusher)
      → Enqueued now (queue_message chain_name validator m fatal r c) tp e
      → Grown tp (λ id. to_config id r (some c)) e
  Grown-Enqueued r c tp panic h = h
  Grown-Enqueued r c tp (done tp') (k, at) = (k, λ id. at id ∙ joined id (c.user_id == id))
    where
      joined :
          (id : ℤ) (b : Bool)
          → (if b
              then waiting id tp ++ stamp now (queue_message chain_name validator m fatal r c) ∷ []
              else waiting id tp)
            ≡ waiting id tp
              ++ (if b then stamp now (queue_message chain_name validator m fatal r c) ∷ [] else [])
      joined id true = refl
      joined id false = sym (append-nil (waiting id tp))

  Grown-watcher :
      (r : UserRecord) (c : UserTelegramConfig) (t : Option UserTelegramConfig)
      (tp : TelegramPusher)
      → t ≡ some c
      → IsKeyed tp
      → Grown tp
          (λ id. to_config id r t)
          (enqueue_to_watcher now chain_name validator m fatal r t tp)
  Grown-watcher r c none tp e k = cc
  Grown-watcher r c (some c') tp e k =
      Grown-Enqueued r c' tp (enqueue now (queue_message chain_name validator m fatal r c') tp)
        (enqueue-Enqueued now (queue_message chain_name validator m fatal r c') tp k)

  Grown-found :
      (found : Option UserRecord) (tp : TelegramPusher)
      → ((r : UserRecord)
          → found ≡ some r
          → (c : UserTelegramConfig) × (r.telegram_config ≡ some c))
      → IsKeyed tp
      → Grown tp
          (λ id. to_record id found)
          (enqueue_if_found now chain_name validator m fatal found tp)
  Grown-found none tp h k = (k, λ id. sym (append-nil (waiting id tp)))
  Grown-found (some r) tp h k = let (c, e) = h r refl in Grown-watcher r c r.telegram_config tp e k

  Grown-bind :
      (tp : TelegramPusher) (first rest : ℤ → List QueueMessage) (r : Run TelegramPusher)
      (f : TelegramPusher → Run TelegramPusher)
      → Grown tp first r
      → ((tp' : TelegramPusher) → IsKeyed tp' → Grown tp' rest (f tp'))
      → Grown tp (λ id. first id ++ rest id) (r >>= f)
  Grown-bind tp first rest panic f h next = h
  Grown-bind tp first rest (done tp') f (k, at) next = behind (f tp') (next tp' k)
    where
      behind : (e : Run TelegramPusher) → Grown tp' rest e → Grown tp (λ id. first id ++ rest id) e
      behind panic h = h
      behind (done tp'') (k', at') = (
        k',
        λ id.
            at' id
            ∙ ap (λ q. q ++ rest id) (at id)
            ∙ append_assoc (waiting id tp) (first id) (rest id),
      )

  -- `enqueueTelegramMessageByIdentity`, given that every user it finds has a telegram section, does
  -- not panic. The queue of each receiver grows at its end by one message for each time that an
  -- identity of the list is a user with this receiver, in the order of the list: an identity that is
  -- named twice is told twice.
  pub enqueue_by_identity-Grown :
      (identities : List Text) (tp : TelegramPusher)
      → HaveTelegram records
      → IsKeyed tp
      → Grown tp
          (λ id. told id identities)
          (enqueue_telegram_message_by_identity now records chain_name validator m fatal identities
            tp)
  unfolding enqueue_telegram_message_by_identity
  enqueue_by_identity-Grown [] tp h k = (k, λ id. sym (append-nil (waiting id tp)))
  enqueue_by_identity-Grown (i ∷ is) tp h k =
      Grown-bind tp (λ id. to_record id (get i records)) (λ id. told id is) _ _
        (Grown-found (get i records) tp (h i) k) λ tp' k'. enqueue_by_identity-Grown is tp' h k'
