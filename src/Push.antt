-- ===== src/Push.antt =====
-- services/telegram_push_message_svc: the queues of messages to telegram users, the pusher that
-- empties them, the patterns that silence messages, and the record that prevents spamming.
pub mod Message
pub mod Queue
pub mod Silencer
pub mod Spam
pub mod Pusher
