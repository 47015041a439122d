-- ===== src/Push/Silencer/Capacity.antt =====
-- How many patterns a chat can hold.
use validator_health_check.Prelude.{
  ℤ, false, [], Option, none, some, Text, length, ltb, ◌+◌, ◌≤◌, get, put, delete_if, Time,
  Duration, add, trim_space, int_eq, text_eq, get-put, ==_refl, arith, ◌≡◌, Bool-cases, inl, inr,
  length-put-le, length-put_new, length-delete_if-le,
}
use validator_health_check.Push.Silencer.{
  Silencer, Patterns, ok, set_silence_pattern, set_in_chat, store_pattern, patterns_of, is_expired,
  maximum_patterns_allowed_per_chat_id, silent_pattern_minimum_length,
}

-- No chat holds more than one pattern above the documented maximum.
pub record IsBounded (s : Silencer) : Type 0 where
  pub at_chat :
      (chat_id : ℤ)
      → length (patterns_of (get chat_id s)) ≤ maximum_patterns_allowed_per_chat_id + 1

put-IsBounded :
    (chat_id : ℤ) (patterns : Patterns) (s : Silencer)
    → length patterns ≤ maximum_patterns_allowed_per_chat_id + 1
    → IsBounded s
    → IsBounded (put chat_id patterns s)
put-IsBounded chat_id patterns s fits b = record {
  at_chat = λ other. ground (arith, get-put chat_id other patterns s, b.at_chat other);
}

store-IsBounded :
    (now : Time) (chat_id : ℤ) (pattern : Text) (duration : Duration) (patterns : Patterns)
    (s : Silencer)
    → length patterns ≤ maximum_patterns_allowed_per_chat_id
    → IsBounded s
    → IsBounded (store_pattern now chat_id pattern duration patterns s).1
unfolding store_pattern
store-IsBounded now chat_id pattern duration patterns s fits =
    put-IsBounded chat_id (put pattern (add now duration) patterns) s
      (omega (arith, length-put-le pattern (add now duration) patterns))

set_in_chat-IsBounded :
    (now : Time) (chat_id : ℤ) (pattern : Text) (duration : Duration) (found : Option Patterns)
    (s : Silencer)
    → length (patterns_of found) ≤ maximum_patterns_allowed_per_chat_id + 1
    → IsBounded s
    → IsBounded (set_in_chat now chat_id pattern duration found s).1
unfolding set_in_chat
set_in_chat-IsBounded now chat_id pattern duration none s fits b =
    store-IsBounded now chat_id pattern duration [] s (omega arith) b
set_in_chat-IsBounded now chat_id pattern duration (some patterns) s fits b =
    elim (Bool-cases (ltb 50 (length (delete_if (is_expired now) patterns)))) [
      | inl full ↦
          rw (full, set_in_chat)
            (put-IsBounded chat_id (delete_if (is_expired now) patterns) s
              (omega (arith, length-delete_if-le {K = Text} (is_expired now) patterns)) b)
      | inr room ↦
          rw (room, set_in_chat)
            (store-IsBounded now chat_id pattern duration (delete_if (is_expired now) patterns) s
              (ground arith) b)
    ]

-- `SetSilencePatternWL`, refused or not, keeps every chat at 51 patterns at most.
pub set-IsBounded :
    (now : Time) (chat_id : ℤ) (raw : Text) (duration : Duration) (s : Silencer)
    → IsBounded s
    → IsBounded (set_silence_pattern now chat_id raw duration s).1
unfolding set_silence_pattern
set-IsBounded now chat_id raw duration s b =
    elim (Bool-cases (ltb (length (trim_space raw)) silent_pattern_minimum_length)) [
      | inl short ↦ rw (set_silence_pattern, short) b
      | inr long ↦
          rw (set_silence_pattern, long)
            (set_in_chat-IsBounded now chat_id (trim_space raw) duration (get chat_id s) s
              (b.at_chat chat_id) b)
    ]

set_in_chat-room :
    (now : Time) (chat_id : ℤ) (pattern : Text) (duration : Duration) (patterns : Patterns)
    (s : Silencer)
    → length (delete_if (is_expired now) patterns) ≡ maximum_patterns_allowed_per_chat_id
    → get pattern (delete_if (is_expired now) patterns) ≡ none
    → ((set_in_chat now chat_id pattern duration (some patterns) s).0 ≡ ok false)
      × (length (
            patterns_of
              (get chat_id (set_in_chat now chat_id pattern duration (some patterns) s).1))
          ≡ maximum_patterns_allowed_per_chat_id + 1)
unfolding set_in_chat
set_in_chat-room now chat_id pattern duration patterns s full new = ground (
  arith,
  get-put chat_id chat_id (put pattern (add now duration) (delete_if (is_expired now) patterns)) s,
  ==_refl chat_id,
  length-put_new pattern (add now duration) (delete_if (is_expired now) patterns) new,
)

-- A chat with exactly 50 patterns in force, the number that the refusal names as the maximum, is
-- granted a further one.
pub set-exceeds :
    (now : Time) (chat_id : ℤ) (raw : Text) (duration : Duration) (patterns : Patterns)
    (s : Silencer)
    → silent_pattern_minimum_length ≤ length (trim_space raw)
    → get chat_id s ≡ some patterns
    → length (delete_if (is_expired now) patterns) ≡ maximum_patterns_allowed_per_chat_id
    → get (trim_space raw) (delete_if (is_expired now) patterns) ≡ none
    → ((set_silence_pattern now chat_id raw duration s).0 ≡ ok false)
      × (length (patterns_of (get chat_id (set_silence_pattern now chat_id raw duration s).1))
          ≡ maximum_patterns_allowed_per_chat_id + 1)
unfolding set_silence_pattern
set-exceeds now chat_id raw duration patterns s long e full new =
    ground (arith, set_in_chat-room now chat_id (trim_space raw) duration patterns s full new)
