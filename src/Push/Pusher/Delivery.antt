-- ===== src/Push/Pusher/Delivery.antt =====
-- Whether a turn of the pusher delivers what it tries to send, and in which order it tries.
use validator_health_check.Prelude.{
  ℤ, Bool, List, [], ◌∷◌, Option, none, some, Text, if◌then◌else◌, int_eq, arith, ◌≡◌, refl, All,
  IsSorted, IsWeakOrder, true, false, ◌≤◌,
}
use validator_health_check.Config.Users.{
  UserRecord, UserTelegramConfig, is_empty_or_incomplete_config,
}
use validator_health_check.Push.Queue.Batch.{combined}
use validator_health_check.Push.Message.{QueueMessage}
use validator_health_check.Registry.Users.{UserRegistry, get_user_record_by_telegram_user_id}
use validator_health_check.Push.Pusher.{
  more_urgent, PushError, telegram_config_incomplete, delivered, send_with_config, send_to_user,
}

-- A message that may stand before another: a fatal one stands before the others, and of two that are
-- alike in this the older one.
abbrev pub Precedes : QueueMessage → QueueMessage → Type 0
Precedes m n =
    (n.fatal ≡ true → m.fatal ≡ true)
    × (m.fatal ≡ n.fatal → m.enqueue_time_utc ≤ n.enqueue_time_utc)

abbrev pub IsInOrder : List QueueMessage → Type 0
IsInOrder [] = Unit
IsInOrder (m ∷ ms) = All (Precedes m) ms × IsInOrder ms

-- The receiver is a user with a complete telegram configuration, and telegram takes the joined messages
-- for it from the bot of that user.
abbrev pub IsDelivered : (Text → ℤ → Text → Bool) → UserRegistry → ℤ → List QueueMessage → Type 0
IsDelivered deliver users id messages =
    (r : UserRecord) × (c : UserTelegramConfig) × (get_user_record_by_telegram_user_id id users
      ≡ some r)
    × (r.telegram_config ≡ some c)
    × (is_empty_or_incomplete_config (some c) ≡ false)
    × (deliver c.token id (combined messages) ≡ true)

pub more_urgent-IsWeakOrder : IsWeakOrder more_urgent
more_urgent-IsWeakOrder = record {
  irrefl = λ x. ground arith;
  negatively_trans = λ x y z h k. ground arith;
  asymm = λ x y h. ground arith;
}

Precedes-more_urgent : (m n : QueueMessage) → more_urgent n m ≡ false → Precedes m n
Precedes-more_urgent m n h = ((λ e. ground arith), λ e. ground arith)

pub IsSorted-IsInOrder : (ms : List QueueMessage) → IsSorted more_urgent ms → IsInOrder ms
IsSorted-IsInOrder [] h = tt
IsSorted-IsInOrder (m ∷ ms) h = (after ms h.0, IsSorted-IsInOrder ms h.1)
  where
    after : (ns : List QueueMessage) → All (λ n. more_urgent n m ≡ false) ns → All (Precedes m) ns
    after [] k = tt
    after (n ∷ ns) k = (Precedes-more_urgent m n k.0, after ns k.1)

module _ (deliver : Text → ℤ → Text → Bool) (users : UserRegistry) (id : ℤ)
    (tried : List QueueMessage) where
  -- The result of the attempt is an error exactly if nothing was delivered.
  abbrev pub Tells : Option PushError → Type 0
  Tells none = IsDelivered deliver users id tried
  Tells (some e) = ¬ IsDelivered deliver users id tried

  send_with_config-Tells :
      (r : UserRecord) (o : Option UserTelegramConfig)
      → get_user_record_by_telegram_user_id id users ≡ some r
      → r.telegram_config ≡ o
      → Tells (send_with_config deliver id (combined tried) o)
  send_with_config-Tells r none found e = λ d. cc (found, e, d.2, d.3)
  send_with_config-Tells r (some c) found e =
      go (is_empty_or_incomplete_config (some c)) (deliver c.token id (combined tried)) refl refl
    where
      same :
          (r' : UserRecord) (c' : UserTelegramConfig)
          → get_user_record_by_telegram_user_id id users ≡ some r'
          → r'.telegram_config ≡ some c'
          → c' ≡ c
      same r' c' found' e' = cc

      go :
          (incomplete taken : Bool)
          → is_empty_or_incomplete_config (some c) ≡ incomplete
          → deliver c.token id (combined tried) ≡ taken
          → Tells (if incomplete then some telegram_config_incomplete else delivered taken)
      go true taken i t = λ (r', c', found', e', full, took). cc (same r' c' found' e')
      go false true i t = (r, c, found, e, i, t)
      go false false i t = λ (r', c', found', e', full, took). cc (same r' c' found' e')

  pub send_to_user-Tells :
      (o : Option UserRecord)
      → get_user_record_by_telegram_user_id id users ≡ o
      → Tells (send_to_user deliver id (combined tried) o)
  send_to_user-Tells none e = λ (r', c', found', e', full, took). cc
  send_to_user-Tells (some r) e = send_with_config-Tells r r.telegram_config e refl
