-- ===== src/CallCenter/Answers.antt =====
-- services/telegram_call_center_svc/{command_me,command_help,command_last}.go: commands that read little.
-- A handler gives the text that it hands to `sendResponse`. `fmt` is in the parameters.
use validator_health_check.Prelude.{
  ℤ, pos, Bool, false, [], ◌∷◌, ◌++◌, Option, none, some, Text, text, Time, Duration, since,
  is_empty, ltb_ℤ, if◌then◌else◌,
}
use validator_health_check.CallCenter.Context.{TelegramUpdateCtx, TimeFormat, concat}
use validator_health_check.Worker.Outside.{BondStatus, Float64}
use validator_health_check.Worker.Cache.{
  CacheValidatorHealthCheck, HealthCheckCache, get_cache_validator_health_check,
}

-- `%d`, `%.2f` of a float and of the seconds of a duration, and `BondStatus.String()`
pub record AnswerFormat : Type 0 where
  pub print_int : ℤ → Text
  pub print_percent : Float64 → Text
  pub print_seconds : Duration → Text
  pub print_status : BondStatus → Text

unfoldable pub process_command_me : AnswerFormat → ℤ → TelegramUpdateCtx → Text
process_command_me f user_id ctx = concat (
    text "Username: "
    ∷ ctx.username
    ∷ (if ctx.is_root_user then text "\n(Root)" else [])
    ∷ text "\nUser ID: "
    ∷ f.print_int user_id
    ∷ text "\nChat ID: "
    ∷ f.print_int ctx.chat_id
    ∷ [])

unfoldable pub process_command_help : TelegramUpdateCtx → Text
process_command_help ctx = concat (
    text "Available commands:"
    ∷ text "\n/me - Show your user information"
    ∷ text "\n/chains - Show chains you subscribed"
    ∷ text "\n/validators - Show validators you subscribed"
    ∷ text "\n/last <valoper> - Show last health-check statistic of a validator"
    ∷ (if ctx.is_root_user
        then text "\n/pause <chain or valoper> <duration> - Pause a chain or a validator"
        else text "\n/pause <valoper> <duration> - Pause a validator")
    ∷ text "\n/status - Show paused chains and validators"
    ∷ text "\n/search - Search for a validator by part of it address"
    ∷ text "\n/help - Show this help message"
    ∷ [])

-- `cache.TomeStoned != nil && *cache.TomeStoned`
abbrev is_set : Option Bool → Bool
is_set none = false
is_set (some b) = b

abbrev optional : {A : Type 0} → (A → Text) → Option A → Text
optional f none = []
optional f (some a) = f a

abbrev until_text : TimeFormat → Time → Text
until_text tf t = text "(until:" ++ (tf.date_time t ++ text ")\n")

abbrev jailed_text : TimeFormat → CacheValidatorHealthCheck → Text
jailed_text tf cache =
    if is_set cache.jailed
    then text "** Jailed **\n" ++ optional (until_text tf) cache.jailed_until
    else []

abbrev missed_text : AnswerFormat → Option ℤ → ℤ → Text
missed_text f none missed = text "\nMissed blocks: " ++ f.print_int missed
missed_text f (some excess) missed =
    text "\nMissed blocks: " ++ (f.print_int missed ++ (text "/" ++ f.print_int excess))

abbrev pub last_text : AnswerFormat → TimeFormat → Time → CacheValidatorHealthCheck → Text
last_text f tf now cache = concat (
    (if is_set cache.tome_stoned then text "** TomeStoned **\n" else [])
    ∷ jailed_text tf cache
    ∷ text "Moniker: "
    ∷ cache.moniker
    ∷ (if ltb_ℤ (pos 0) cache.rank then text "\nRank: " ++ f.print_int cache.rank else [])
    ∷ text "\nValoper: "
    ∷ cache.valoper
    ∷ text "\nValcons: "
    ∷ cache.valcons
    ∷ optional (λ u. text "\nUptime: " ++ (f.print_percent u ++ text "%")) cache.uptime
    ∷ optional (λ b. text "\nBond status: " ++ f.print_status b) cache.bond_status
    ∷ optional (missed_text f cache.downtime_slashing_when_missed_excess) cache.missed_block_count
    ∷ text "\nLast updated: "
    ∷ tf.date_time cache.time_occurs
    ∷ text " ("
    ∷ f.print_seconds (since now cache.time_occurs)
    ∷ text " ago)"
    ∷ [])

abbrev pub last_answer : AnswerFormat → TimeFormat → Time → Option CacheValidatorHealthCheck → Text
last_answer f tf now none = concat (
    text "No health-check data found for the validator, reason maybe:"
    ∷ text "\n- Bot have just restarted and no health-check data yet"
    ∷ text "\n- The validator is not registered"
    ∷ text
        "\n- The provided address is invalid, use /validators to list or /search by part of address"
    ∷ [])
last_answer f tf now (some cache) = last_text f tf now cache

unfoldable pub process_command_last :
    AnswerFormat → TimeFormat → Time → HealthCheckCache → TelegramUpdateCtx → Text
process_command_last f tf now caches ctx =
    if is_empty ctx.command_args
    then text "Please provide a validator operator address"
    else last_answer f tf now (get_cache_validator_health_check ctx.command_args caches)
