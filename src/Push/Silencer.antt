-- ===== src/Push/Silencer.antt =====
-- services/telegram_push_message_svc/silencer.go: patterns that silence a chat's messages until
-- they expire. Each operation holds the lock from start to end and reads the clock once, as `now`.
-- A map is walked in the order of its entries, which stands for Go's unspecified one.
pub mod Silences
pub mod Capacity
pub mod Listing
pub mod Examples
use validator_health_check.Prelude.{
  ℕ, ℤ, Bool, true, false, not, ◌&&◌, ◌||◌, List, [], ◌∷◌, Option, none, some, Text, length, ltb,
  Map, get, put, delete, delete_if, Time, Duration, add, trim_space, contains, if◌then◌else◌,
  int_eq, text_eq,
}

pub data SilenceError : Type 0 where
  pattern_too_short : ℕ → SilenceError
  maximum_patterns missing_pattern not_silent_any pattern_does_not_exist : SilenceError

pub data Result {ℓ} (A : Type ℓ) : Type ℓ where
  ok : A → Result A
  err : SilenceError → Result A

-- `map[string]time.Time`: the expiry of each pattern
abbrev pub Patterns : Type 0
Patterns = Map Text Time

-- `silencePatternByChatID`
abbrev pub Silencer : Type 0
Silencer = Map ℤ Patterns

abbrev pub silent_pattern_minimum_length : ℕ
silent_pattern_minimum_length = 10

abbrev pub maximum_patterns_allowed_per_chat_id : ℕ
maximum_patterns_allowed_per_chat_id = 50

-- `expiry.Before(nowUTC)`
abbrev pub is_expired : Time → Time → Bool
is_expired now expiry = ltb expiry now

abbrev pub is_effective : Time → Option Time → Bool
is_effective now none = false
is_effective now (some expiry) = ltb now expiry

-- The end of `SetSilencePatternWL`, on the chat's patterns.
unfoldable pub store_pattern :
    Time → ℤ → Text → Duration → Patterns → Silencer → Result Bool × Silencer
store_pattern now chat_id pattern duration patterns s = (
  ok (is_effective now (get pattern patterns)),
  put chat_id (put pattern (add now duration) patterns) s,
)

-- The middle of it: a chat that has patterns first loses the expired ones.
unfoldable pub set_in_chat :
    Time → ℤ → Text → Duration → Option Patterns → Silencer → Result Bool × Silencer
unfolding store_pattern
set_in_chat now chat_id pattern duration none s = store_pattern now chat_id pattern duration [] s
set_in_chat now chat_id pattern duration (some patterns) s =
    let live = delete_if (is_expired now) patterns in
    if ltb maximum_patterns_allowed_per_chat_id (length live)
    then (err maximum_patterns, put chat_id live s)
    else store_pattern now chat_id pattern duration live s

unfoldable pub set_silence_pattern : Time → ℤ → Text → Duration → Silencer → Result Bool × Silencer
set_silence_pattern now chat_id raw duration s =
    let pattern = trim_space raw in
    if ltb (length pattern) silent_pattern_minimum_length
    then (err (pattern_too_short (length pattern)), s)
    else set_in_chat now chat_id pattern duration (get chat_id s) s

-- The end of `RemoveSilencePatternWL`, on the chat's patterns.
unfoldable pub remove_in_chat :
    ℤ → Text → Option Patterns → Silencer → Option SilenceError × Silencer
remove_in_chat chat_id pattern none s = (some not_silent_any, s)
remove_in_chat chat_id pattern (some patterns) s = elim (get pattern patterns) [
  | none ↦ (some pattern_does_not_exist, s)
  | some expiry ↦ (none, put chat_id (delete pattern patterns) s)
]

unfoldable pub remove_silence_pattern : ℤ → Text → Silencer → Option SilenceError × Silencer
remove_silence_pattern chat_id raw s =
    let pattern = trim_space raw in
    if ltb (length pattern) 1
    then (some missing_pattern, s)
    else remove_in_chat chat_id pattern (get chat_id s) s

abbrev pub patterns_of : Option Patterns → Patterns
patterns_of none = []
patterns_of (some patterns) = patterns

-- `copied` is filled with the patterns that are in force, and the whole map is returned.
unfoldable pub get_silent_patterns_by_chat_id : Time → ℤ → Silencer → Patterns
get_silent_patterns_by_chat_id now chat_id s =
    let copied = delete_if (is_expired now) (patterns_of (get chat_id s)) in
    let silence_patterns_of_chat_id = patterns_of (get chat_id s) in silence_patterns_of_chat_id

-- The loop of `shouldSilentByChatIdRWL`: `needCleanup` so far, and the result.
unfoldable pub find_silencing : Time → Text → Bool → Patterns → Bool × Bool
find_silencing now message need_cleanup [] = (need_cleanup, false)
find_silencing now message need_cleanup ((pattern, expiry) ∷ patterns) =
    let expired = is_expired now expiry in
    if not expired && contains message pattern
    then (need_cleanup, true)
    else find_silencing now message (need_cleanup || expired) patterns

abbrev pub clean_up : Time → ℤ → Bool → Silencer → Silencer
clean_up now chat_id need_cleanup s =
    if need_cleanup
    then put chat_id (delete_if (is_expired now) (patterns_of (get chat_id s))) s
    else s

unfoldable pub should_silent_in_chat :
    Time → ℤ → Text → Option Patterns → Silencer → Bool × Silencer
unfolding find_silencing
should_silent_in_chat now chat_id message none s = (false, s)
should_silent_in_chat now chat_id message (some patterns) s =
    let (need_cleanup, silenced) = find_silencing now message false patterns in
    (silenced, clean_up now chat_id need_cleanup s)

unfoldable pub should_silent_by_chat_id : Time → ℤ → Text → Silencer → Bool × Silencer
should_silent_by_chat_id now chat_id message s =
    should_silent_in_chat now chat_id message (get chat_id s) s
