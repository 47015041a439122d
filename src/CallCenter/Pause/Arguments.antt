-- ===== src/CallCenter/Pause/Arguments.antt =====
-- services/telegram_call_center_svc/command_pause.go: what the arguments of `/pause` ask for.
pub mod Limit
use validator_health_check.Prelude.{
  ℕ, ℤ, Bool, true, false, not, ◌||◌, ◌&&◌, List, [], ◌∷◌, ◌++◌, Option, none, some, Text, text,
  Duration, pos, hours, ltb_ℤ, is_empty, ◌==◌, text_eq, if◌then◌else◌,
}
use validator_health_check.CallCenter.Context.{TelegramUpdateCtx, TimeFormat, split_spaces}

-- What the arguments ask for: a duration to pause for, `none` to unpause, and whether the pause has no
-- release date; or the response to arguments that ask for nothing.
pub data PauseArgs : Type 0 where
  refused : Text → PauseArgs
  asked : Text → Option Duration → Bool → PauseArgs

abbrev missing_argument : Bool → Text
missing_argument is_root_user =
    if is_root_user
    then text
        "Please provide a chain or a validator to pause!\nSee the list at /chains or /validators"
    else text "Please provide a validator to pause!\nSee the list at /validators"

abbrev pub maximum_pause : Duration
maximum_pause = pos (hours 7)

-- `30 * 365 * 24 * time.Hour`
abbrev pub ultimate_pause : Duration
ultimate_pause = pos (hours 262_800)

abbrev ask_parsed : Text → Option Duration → PauseArgs
ask_parsed target none = refused (text "Invalid duration format!")
ask_parsed target (some dur) =
    if ltb_ℤ dur (pos 0)
    then refused (text "Duration must be positive!")
    else if ltb_ℤ maximum_pause dur
    then refused (text "Duration must be less than 7 hours!")
    else asked target (some dur) false

abbrev ask_duration : TimeFormat → Text → Text → PauseArgs
ask_duration tf target part =
    if (part == text "0") || (part == text "0s")
    then asked target none false
    else ask_parsed target (tf.parse_duration part)

abbrev ask_parts : TimeFormat → List Text → PauseArgs
ask_parts tf [] = refused []
ask_parts tf (target ∷ []) = asked target (some ultimate_pause) true
ask_parts tf (target ∷ part ∷ []) = ask_duration tf target part
ask_parts tf (_ ∷ _ ∷ _ ∷ _) = refused (text "Invalid arguments!")

-- The beginning of `processCommandPause`, up to the first change.
unfoldable pub read_pause_args : TimeFormat → TelegramUpdateCtx → PauseArgs
unfolding split_spaces
read_pause_args tf ctx =
    if is_empty ctx.command_args
    then refused (missing_argument ctx.is_root_user)
    else ask_parts tf (split_spaces ctx.command_args)
