-- ===== src/CallCenter/Silent.antt =====
-- services/telegram_call_center_svc/command_silent.go: `/silent`. The handler gives the text that it
-- hands to `sendResponse`, whose error it returns, and what it leaves of the silencer. The clock is
-- read once, as `now`; `error_text` stands for the `Error()` of the silencer's errors.
pub mod Chats
pub mod Examples
use validator_health_check.Prelude.{
  ℕ, ℤ, Bool, true, false, not, ◌||◌, ◌&&◌, List, [], ◌∷◌, ◌++◌, Option, none, some, Text, text,
  Time, Duration, pos, hours, ltb_ℤ, is_empty, trim_space, ◌==◌, text_eq, if◌then◌else◌,
}
use validator_health_check.Push.Silencer.{
  Silencer, SilenceError, Patterns, Result, ok, err, set_silence_pattern, remove_silence_pattern,
  get_silent_patterns_by_chat_id,
}
use validator_health_check.Utils.Http.{cut}
use validator_health_check.CallCenter.Context.{TelegramUpdateCtx, TimeFormat, concat}

-- What the arguments ask for.
pub data SilentArgs : Type 0 where
  list : SilentArgs
  refused : Text → SilentArgs
  remove : Text → SilentArgs
  set : Duration → Text → SilentArgs

abbrev pub maximum_silence : Duration
maximum_silence = pos (hours 12)

abbrev ask_parsed : Text → Option Duration → SilentArgs
ask_parsed pattern none = refused (text "Invalid duration format!")
ask_parsed pattern (some dur) =
    if ltb_ℤ dur (pos 0) || ltb_ℤ maximum_silence dur
    then refused (text "Duration must be positive and less than 12 hours!")
    else set dur pattern

abbrev ask_parts : TimeFormat → Option (Text × Text) → SilentArgs
ask_parts tf none = refused (text "Invalid arguments!\n\nUsage: /silent <duration> <pattern>")
ask_parts tf (some (part, rest)) =
    let pattern = trim_space rest in
    if (part == text "0") || (part == text "0s")
    then remove pattern
    else ask_parsed pattern (tf.parse_duration part)

-- The beginning of `processCommandSilent`, up to the first change.
unfoldable pub read_silent_args : TimeFormat → TelegramUpdateCtx → SilentArgs
unfolding cut
read_silent_args tf ctx =
    let args = trim_space ctx.command_args in
    if is_empty args then list else ask_parts tf (cut (text " ") args)

abbrev list_patterns : TimeFormat → Patterns → Text
list_patterns tf [] = []
list_patterns tf ((pattern, expiry) ∷ patterns) =
    concat
      (text "\n\n- [" ∷ tf.date_time expiry ∷ text "] " ∷ pattern ∷ list_patterns tf patterns ∷ [])

abbrev listing : TimeFormat → Patterns → Text
listing tf [] = text "(none)"
listing tf (p ∷ patterns) = text "Current effective patterns:" ++ list_patterns tf (p ∷ patterns)

module _ (tf : TimeFormat) (error_text : SilenceError → Text) where
  abbrev removed_response : Option SilenceError → Text
  removed_response none = text "Removed the silent pattern"
  removed_response (some e) = text "Failed to remove the silent pattern:\n\n" ++ error_text e

  abbrev set_response : Result Bool → Text
  set_response (err e) = text "Failed to set the silent pattern:\n\n" ++ error_text e
  set_response (ok updated) =
      if updated
      then text "Successfully updated expiration for the silent pattern"
      else text "Successfully set new silent pattern"

  unfoldable pub apply_silent : Time → ℤ → SilentArgs → Silencer → Text × Silencer
  apply_silent now chat_id list s = (listing tf (get_silent_patterns_by_chat_id now chat_id s), s)
  apply_silent now chat_id (refused response) s = (response, s)
  apply_silent now chat_id (remove pattern) s =
      let (result, s') = remove_silence_pattern chat_id pattern s in (removed_response result, s')
  apply_silent now chat_id (set duration pattern) s =
      let (result, s') = set_silence_pattern now chat_id pattern duration s in
      (set_response result, s')

  -- `processCommandSilent`
  unfoldable pub process_command_silent : Time → TelegramUpdateCtx → Silencer → Text × Silencer
  unfolding read_silent_args apply_silent
  process_command_silent now ctx s = apply_silent now ctx.chat_id (read_silent_args tf ctx) s
