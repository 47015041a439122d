-- ===== src/CallCenter/Desk.antt =====
-- services/telegram_call_center_svc/{employee,telegram_update_ctx}.go: who is answered, and by which
-- command. The text of an answer is what goes to `sendResponse`, whose own error is not modelled. The
-- clock is read once, as `now`. A panic of a handler leaves what the rate limiter has noted.
pub mod Spaced
pub mod Ordinary
pub mod Examples
use validator_health_check.Prelude.{
  ℤ, Bool, true, false, List, [], ◌∷◌, ◌++◌, Option, none, some, Text, text, Time, pos, seconds,
  SortSlice, Run, done, panic, ◌==◌, text_eq, if◌then◌else◌,
}
use validator_health_check.Config.Users.{
  UserRecord, UserTelegramConfig, is_empty_or_incomplete_config,
}
use validator_health_check.Registry.Users.{UserRegistry, get_user_record_by_telegram_user_id}
use validator_health_check.Registry.Chains.{ChainRegistry, RegisteredChainConfig}
use validator_health_check.Push.Silencer.{Silencer, SilenceError}
use validator_health_check.Worker.Cache.{HealthCheckCache}
use validator_health_check.CallCenter.RateLimiter.{RateLimiter, request}
use validator_health_check.CallCenter.Context.{TelegramUpdateCtx, TimeFormat, Center}
use validator_health_check.CallCenter.Answers.{
  AnswerFormat, process_command_me, process_command_help, process_command_last,
}
use validator_health_check.CallCenter.Listing.{process_command_chains, process_command_validators}
use validator_health_check.CallCenter.Status.{process_command_status}
use validator_health_check.CallCenter.Pause.{process_command_pause}
use validator_health_check.CallCenter.Search.{process_command_search}
use validator_health_check.CallCenter.Silent.{process_command_silent}

-- A command that came in.
pub record Update : Type 0 where
  pub user_id : ℤ
  pub chat_id : ℤ
  pub command : Text
  pub command_args : Text

-- What the handlers read of other components.
pub record Books : Type 0 where
  pub users : UserRegistry
  pub chains : ChainRegistry
  pub caches : HealthCheckCache

-- The response, the error of the call itself, and what the handler leaves.
pub record Answer : Type 0 where
  pub response : Text
  pub error : Option Text
  pub center : Center

-- The context of a command of this user.
abbrev context : Update → UserRecord → UserTelegramConfig → TelegramUpdateCtx
context u r c = record {
  chat_id = u.chat_id;
  command_args = u.command_args;
  identity = r.identity;
  username = c.username;
  is_root_user = r.root;
}

abbrev context_of_config :
    Update → UserRecord → Option UserTelegramConfig → Option TelegramUpdateCtx
context_of_config u r none = none
context_of_config u r (some c) =
    if is_empty_or_incomplete_config (some c) then none else some (context u r c)

abbrev context_of_record : Update → Option UserRecord → Option TelegramUpdateCtx
context_of_record u none = none
context_of_record u (some r) = context_of_config u r r.telegram_config

-- `none` for who is not a user, or has no complete configuration.
abbrev pub sender : UserRegistry → Update → Option TelegramUpdateCtx
sender users u = context_of_record u (get_user_record_by_telegram_user_id u.user_id users)

abbrev pub answer : Center → Text → Run Answer
answer w response = done (record { response = response; error = none; center = w })

abbrev pub answer_pause : Run (Text × Center) → Run Answer
answer_pause panic = panic
answer_pause (done (response, w)) = answer w response

abbrev pub answer_silent : Center → Text × Silencer → Run Answer
answer_silent w (response, s) = answer (record w { silencer = s }) response

module _ (tf : TimeFormat) (f : AnswerFormat) (sorter : SortSlice RegisteredChainConfig)
    (error_text : SilenceError → Text) where
  abbrev pub forbidden : Update → Center → Run Answer
  forbidden u w =
      let id = f.print_int u.user_id in
      done (record {
        response = text "Hey " ++ (id ++ text ", you are not allowed to use this bot");
        error = some (text "forbidden access, user-id: " ++ id);
        center = w;
      })

  -- The `switch` of `processUpdate`.
  unfoldable pub process_command : Time → Books → Update → TelegramUpdateCtx → Center → Run Answer
  process_command now b u ctx w =
      if u.command == text "me"
      then answer w (process_command_me f u.user_id ctx)
      else if u.command == text "chains"
      then answer w (process_command_chains sorter now w.pauser b.chains ctx)
      else if u.command == text "validators"
      then answer w (process_command_validators sorter now w.pauser b.chains ctx)
      else if u.command == text "pause"
      then answer_pause (process_command_pause now tf b.users b.chains ctx w)
      else if u.command == text "status"
      then answer w (process_command_status tf now w.pauser b.chains ctx)
      else if u.command == text "last"
      then answer w (process_command_last f tf now b.caches ctx)
      else if u.command == text "search"
      then answer w (process_command_search b.chains ctx)
      else if u.command == text "silent"
      then answer_silent w (process_command_silent tf error_text now ctx w.silencer)
      else answer w (process_command_help ctx)

  abbrev pub serve_allowed :
      Time
      → Books
      → Update
      → TelegramUpdateCtx
      → Center
      → Bool × RateLimiter
      → Run Answer × RateLimiter
  serve_allowed now b u ctx w (allowed, r) = (
    if allowed
        then process_command now b u ctx w
        else answer w (text "Rate limit exceeded, please try again later"),
    r,
  )

  abbrev pub serve :
      Time
      → Books
      → Update
      → Option TelegramUpdateCtx
      → Center
      → RateLimiter
      → Run Answer × RateLimiter
  serve now b u none w r = (forbidden u w, r)
  serve now b u (some ctx) w r =
      serve_allowed now b u ctx w (request now (f.print_int u.user_id) (pos (seconds 3)) r)

  -- `processUpdate`
  unfoldable pub process_update :
      Time → Books → Update → Center → RateLimiter → Run Answer × RateLimiter
  unfolding process_command
  process_update now b u w r = serve now b u (sender b.users u) w r
