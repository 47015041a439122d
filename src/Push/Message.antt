-- ===== src/Push/Message.antt =====
-- services/telegram_push_message_svc/types/queue_message.go, and the constants of
-- constants/config.go that the service uses.
use validator_health_check.Prelude.{ℕ, Bool, Text, text, ℤ, Time, Duration, pos, minutes}

pub record QueueMessage : Type 0 where
  pub receiver_id : ℤ
  pub priority : Bool
  pub fatal : Bool
  pub message : Text
  pub enqueue_time_utc : Time

abbrev pub minimum_between_telegram_push_same_user : Duration
minimum_between_telegram_push_same_user = pos (minutes 1)

abbrev pub batch_size_telegram_push_per_user : ℕ
batch_size_telegram_push_per_user = 20

abbrev pub batch_messages_line_divider : Text
batch_messages_line_divider = text "\n---\n"

abbrev pub maximum_telegram_message_length : ℕ
maximum_telegram_message_length = 4096
