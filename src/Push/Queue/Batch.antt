-- ===== src/Push/Queue/Batch.antt =====
-- The loop of `DequeueMessagesWL` that bounds the length of one telegram message.
use validator_health_check.Prelude.{
  ℕ, ◌+◌, ◌<◌, ◌≤◌, List, [], ◌∷◌, ◌++◌, Text, length, length-append, leb, ltb, if◌then◌else◌,
  arith, ◌≡◌, refl, ap, map, join, drop, Bool-cases, inl, inr,
}
use validator_health_check.Push.Message.{
  QueueMessage, batch_messages_line_divider, maximum_telegram_message_length,
}

-- `newCumulativeMessageLength` at index `i`
abbrev pub new_cumulative_length : ℕ → ℕ → QueueMessage → ℕ
new_cumulative_length i cumulative m =
    if ltb 0 i
    then cumulative + length m.message + length batch_messages_line_divider
    else cumulative + length m.message

-- `resultWithCheckLimitMessageSize`, from index `i` on
unfoldable pub within_limit : ℕ → ℕ → List QueueMessage → List QueueMessage
within_limit i cumulative [] = []
within_limit i cumulative (m ∷ ms) =
    let new_cumulative = new_cumulative_length i cumulative m in
    if leb maximum_telegram_message_length new_cumulative
    then []
    else m ∷ within_limit (i + 1) new_cumulative ms

pub within_limit-nil : (i c : ℕ) → within_limit i c [] ≡ []
unfolding within_limit
within_limit-nil i c = refl

-- The loop keeps a prefix.
pub within_limit-append-drop :
    (i c : ℕ) (ms : List QueueMessage)
    → within_limit i c ms ++ drop (length (within_limit i c ms)) ms ≡ ms
unfolding within_limit
within_limit-append-drop i c [] = refl
within_limit-append-drop i c (m ∷ ms) =
    elim (Bool-cases (leb maximum_telegram_message_length (new_cumulative_length i c m))) [
      | inl e ↦ rw e
      | inr e ↦
          rw e (ap (◌∷◌ m) (within_limit-append-drop (i + 1) (new_cumulative_length i c m) ms))
    ]

-- The text that the pusher makes of messages.
abbrev pub combined : List QueueMessage → Text
combined ms = join batch_messages_line_divider (map (λ m. m.message) ms)

-- The length of the messages behind the first one, each with a divider in front.
abbrev pub rest_length : List QueueMessage → ℕ
rest_length [] = 0
rest_length (m ∷ ms) = 5 + length m.message + rest_length ms

pub length-combined :
    (m : QueueMessage) (ms : List QueueMessage)
    → length (combined (m ∷ ms)) ≡ length m.message + rest_length ms
unfolding join
length-combined m [] = omega arith
length-combined m (n ∷ ms) = omega (
  arith,
  length-append m.message (batch_messages_line_divider ++ combined (n ∷ ms)),
  length-append batch_messages_line_divider (combined (n ∷ ms)),
  length-combined n ms,
)

-- Behind the first message the loop stays below the limit.
rest_length-within_limit :
    (i c : ℕ) (ms : List QueueMessage)
    → 0 < i
    → c < maximum_telegram_message_length
    → c + rest_length (within_limit i c ms) < maximum_telegram_message_length
unfolding within_limit
rest_length-within_limit i c [] p h = omega arith
rest_length-within_limit i c (m ∷ ms) p h =
    ground (arith, rest_length-within_limit (i + 1) (new_cumulative_length i c m) ms)

length-within_limit_rest :
    (i c : ℕ) (ms : List QueueMessage)
    → 0 < i
    → c < maximum_telegram_message_length
    → maximum_telegram_message_length ≤ c + rest_length ms
    → length (within_limit i c ms) < length ms
unfolding within_limit
length-within_limit_rest i c [] p h k = absurd (omega arith)
length-within_limit_rest i c (m ∷ ms) p h k =
    ground (arith, length-within_limit_rest (i + 1) (new_cumulative_length i c m) ms)

within_limit_fits :
    (i c : ℕ) (ms : List QueueMessage)
    → 0 < i
    → c + rest_length ms < maximum_telegram_message_length
    → within_limit i c ms ≡ ms
unfolding within_limit
within_limit_fits i c [] p h = refl
within_limit_fits i c (m ∷ ms) p h =
    ground (arith, within_limit_fits (i + 1) (new_cumulative_length i c m) ms)

-- The loop keeps messages that make a text below the limit.
pub within_limit-fits :
    (ms : List QueueMessage)
    → length (combined ms) < maximum_telegram_message_length
    → within_limit 0 0 ms ≡ ms
unfolding within_limit join
within_limit-fits [] h = refl
within_limit-fits (m ∷ ms) h =
    ground (arith, within_limit_fits 1 (length m.message) ms, length-combined m ms)

-- Whatever the messages, those that the loop keeps make a text below telegram's limit.
pub combined-within_limit :
    (ms : List QueueMessage)
    → length (combined (within_limit 0 0 ms)) < maximum_telegram_message_length
unfolding within_limit join
combined-within_limit [] = omega arith
combined-within_limit (m ∷ ms) = ground (
  arith,
  rest_length-within_limit 1 (length m.message) ms,
  length-combined m (within_limit 1 (length m.message) ms),
)

-- The loop drops a message when the whole text would reach the limit.
pub length-within_limit-lt :
    (ms : List QueueMessage)
    → maximum_telegram_message_length ≤ length (combined ms)
    → length (within_limit 0 0 ms) < length ms
unfolding within_limit join
length-within_limit-lt [] h = absurd (omega arith)
length-within_limit-lt (m ∷ ms) h =
    ground (arith, length-within_limit_rest 1 (length m.message) ms, length-combined m ms)

pub within_limit-long :
    (m : QueueMessage) (ms : List QueueMessage)
    → maximum_telegram_message_length ≤ length m.message
    → within_limit 0 0 (m ∷ ms) ≡ []
unfolding within_limit
within_limit-long m ms h = ground arith
