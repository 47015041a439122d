-- ===== src/Push/Silencer/Silences.antt =====
-- Which messages are silenced, and for how long.
use validator_health_check.Prelude.{
  ℕ, ℤ, Bool, true, false, not, ◌&&◌, ◌||◌, [], ◌∷◌, ◌++◌, Option, none, some, Text, length, ltb,
  ◌+◌, ◌≤◌, get, delete_if, delete_if-delete_if, Time, Duration, add, pos, trim_space, contains,
  contains-append, if◌then◌else◌, int_eq, text_eq, any, any_of_get, get-put, get-delete, ==_iff,
  ==_refl, ◌==◌, arith, ◌≡◌, refl, Bool-cases, Option-cases, inl, inr, ◌∙◌,
}
use validator_health_check.Push.Silencer.{
  Silencer, Patterns, ok, set_silence_pattern, set_in_chat, remove_silence_pattern, remove_in_chat,
  should_silent_by_chat_id, should_silent_in_chat, find_silencing, clean_up, patterns_of,
  is_expired,
}

-- The pattern has not expired, and the message contains it.
abbrev pub silences : Time → Text → Text × Time → Bool
silences now message entry = not (ltb entry.1 now) && contains message entry.0

find_silencing-any :
    (now : Time) (message : Text) (need : Bool) (patterns : Patterns)
    → (find_silencing now message need patterns).1 ≡ any (silences now message) patterns
unfolding find_silencing any
find_silencing-any now message need [] = refl
find_silencing-any now message need ((pattern, expiry) ∷ patterns) =
    ground (arith, find_silencing-any now message (need || ltb expiry now) patterns)

in_chat-any :
    (now : Time) (chat_id : ℤ) (message : Text) (found : Option Patterns) (s : Silencer)
    → (should_silent_in_chat now chat_id message found s).0
      ≡ any (silences now message) (patterns_of found)
unfolding should_silent_in_chat any
in_chat-any now chat_id message none s = refl
in_chat-any now chat_id message (some patterns) s = find_silencing-any now message false patterns

-- A message is silenced exactly when some pattern of the chat that has not expired is part of it.
pub should_silent-any :
    (now : Time) (chat_id : ℤ) (message : Text) (s : Silencer)
    → (should_silent_by_chat_id now chat_id message s).0
      ≡ any (silences now message) (patterns_of (get chat_id s))
unfolding should_silent_by_chat_id
should_silent-any now chat_id message s = in_chat-any now chat_id message (get chat_id s) s

-- The patterns of a chat that have not expired.
abbrev pub live_patterns : Time → ℤ → Silencer → Patterns
live_patterns now chat_id s = delete_if (is_expired now) (patterns_of (get chat_id s))

live-clean_up :
    (now : Time) (chat_id other : ℤ) (need : Bool) (s : Silencer)
    → live_patterns now other (clean_up now chat_id need s) ≡ live_patterns now other s
live-clean_up now chat_id other false s = refl
live-clean_up now chat_id other true s = ground (
  arith,
  get-put chat_id other (delete_if (is_expired now) (patterns_of (get chat_id s))) s,
  ==_iff chat_id other,
  delete_if-delete_if (is_expired now) (patterns_of (get chat_id s)),
)

live-in_chat :
    (now : Time) (chat_id other : ℤ) (message : Text) (found : Option Patterns) (s : Silencer)
    → live_patterns now other (should_silent_in_chat now chat_id message found s).1
      ≡ live_patterns now other s
unfolding should_silent_in_chat
live-in_chat now chat_id other message none s = refl
live-in_chat now chat_id other message (some patterns) s =
    live-clean_up now chat_id other (find_silencing now message false patterns).0 s

-- The cleanup that a check makes drops expired patterns only: those in force stay, of every chat.
pub live_patterns-should_silent :
    (now : Time) (chat_id other : ℤ) (message : Text) (s : Silencer)
    → live_patterns now other (should_silent_by_chat_id now chat_id message s).1
      ≡ live_patterns now other s
unfolding should_silent_by_chat_id
live_patterns-should_silent now chat_id other message s =
    live-in_chat now chat_id other message (get chat_id s) s

-- What a successful call leaves in the chat's map.
abbrev Stored : Time → ℤ → Text → Duration → Silencer → Type 0
Stored now chat_id pattern duration s =
    get pattern (patterns_of (get chat_id s)) ≡ some (add now duration)

set_in_chat-Stored :
    (now : Time) (chat_id : ℤ) (pattern : Text) (duration : Duration) (found : Option Patterns)
    (s : Silencer) (updated : Bool)
    → (set_in_chat now chat_id pattern duration found s).0 ≡ ok updated
    → Stored now chat_id pattern duration (set_in_chat now chat_id pattern duration found s).1
unfolding set_in_chat
set_in_chat-Stored now chat_id pattern duration none s updated h = simp (get-put, ==_refl)
set_in_chat-Stored now chat_id pattern duration (some patterns) s updated h =
    elim (Bool-cases (ltb 50 (length (delete_if (is_expired now) patterns)))) [
      | inl full ↦ absurd (refused full)
      | inr room ↦ rw room (simp (get-put, ==_refl))
    ]
  where
    refused : ltb 50 (length (delete_if (is_expired now) patterns)) ≡ true → ⊥
    refused full = ground arith

set-Stored :
    (now : Time) (chat_id : ℤ) (raw : Text) (duration : Duration) (s : Silencer) (updated : Bool)
    → (set_silence_pattern now chat_id raw duration s).0 ≡ ok updated
    → Stored now chat_id
        (trim_space raw)
        duration
        (set_silence_pattern now chat_id raw duration s).1
unfolding set_silence_pattern
set-Stored now chat_id raw duration s updated h =
    ground
      (arith, set_in_chat-Stored now chat_id (trim_space raw) duration (get chat_id s) s updated)

-- After `SetSilencePatternWL` succeeds at `now` for a duration of `d` nanoseconds, every message
-- of the chat that contains the trimmed pattern is silenced at each instant up to `now + d`.
pub set-silences :
    (now : Time) (chat_id : ℤ) (raw : Text) (d : ℕ) (s : Silencer) (updated : Bool) (later : Time)
    (before after : Text)
    → (set_silence_pattern now chat_id raw (pos d) s).0 ≡ ok updated
    → later ≤ now + d
    → (should_silent_by_chat_id later chat_id
        (before ++ (trim_space raw ++ after))
        (set_silence_pattern now chat_id raw (pos d) s).1).0
      ≡ true
unfolding add
set-silences now chat_id raw d s updated later before after h le =
    should_silent-any later chat_id (before ++ (trim_space raw ++ after)) _
    ∙ any_of_get (silences later (before ++ (trim_space raw ++ after))) (trim_space raw) (now + d) _
        (set-Stored now chat_id raw (pos d) s updated h)
        (ground (arith, contains-append before (trim_space raw) after))

remove_in_chat-gone :
    (chat_id : ℤ) (pattern : Text) (found : Option Patterns) (s : Silencer) (other : Text)
    → get chat_id s ≡ found
    → (remove_in_chat chat_id pattern found s).0 ≡ none
    → get other (patterns_of (get chat_id (remove_in_chat chat_id pattern found s).1))
      ≡ (if pattern == other then none else get other (patterns_of found))
unfolding remove_in_chat
remove_in_chat-gone chat_id pattern none s other e h = cc
remove_in_chat-gone chat_id pattern (some patterns) s other e h =
    elim (Option-cases (get pattern patterns)) [
      | inl missing ↦ absurd (refused missing)
      | inr (expiry, there) ↦ rw (there, remove_in_chat) (simp (get-put, get-delete, ==_refl))
    ]
  where
    refused : get pattern patterns ≡ none → ⊥
    refused missing = ground arith

-- After `RemoveSilencePatternWL` succeeds the chat has lost the trimmed pattern and no other.
pub remove-removes :
    (chat_id : ℤ) (raw : Text) (s : Silencer)
    → (remove_silence_pattern chat_id raw s).0 ≡ none
    → (other : Text)
    → get other (patterns_of (get chat_id (remove_silence_pattern chat_id raw s).1))
      ≡ (if trim_space raw == other then none else get other (patterns_of (get chat_id s)))
unfolding remove_silence_pattern
remove-removes chat_id raw s h other =
    ground (arith, remove_in_chat-gone chat_id (trim_space raw) (get chat_id s) s other refl)
