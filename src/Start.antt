-- ===== src/Start.antt =====
-- cmd/start.go: one round of the hot reload of the configuration, from what the files give.
pub mod BotsKept
pub mod Reload
pub mod Examples
use validator_health_check.Prelude.{
  Bool, true, false, List, [], ◌∷◌, Option, none, some, Text, Duration, pos, minutes, seconds,
  ltb_ℤ, Run, done, panic, ◌>>=◌, if◌then◌else◌,
}
use validator_health_check.Utils.Retry.{Result, ok, err}
use validator_health_check.Config.Users.{
  UsersConfig, UserRecord, UserTelegramConfig, UserError, to_user_records, validate_users,
}
use validator_health_check.Config.Load.{UsersFile, Visited, load_users_config, load_chains_config}
use validator_health_check.Config.Chains.{ChainConfig, ChainError, validate_chains}
use validator_health_check.Registry.Users.{UserRegistry, update_users_config}
use validator_health_check.Registry.Chains.{ChainRegistry, update_chains_config}
use validator_health_check.Registry.Bots.{
  BotRegistry, TelegramBot, get_telegram_bot_by_token, set_priority, add_chat_id,
}

-- What a reload changes.
pub record Registries : Type 0 where
  pub users : UserRegistry
  pub chains : ChainRegistry
  pub bots : BotRegistry

-- At least thirty seconds, and else a minute.
abbrev pub reload_interval : Duration → Duration
reload_interval d = if ltb_ℤ d (pos (seconds 30)) then pos (minutes 1) else d

-- A bot that could not be had is passed over.
abbrev pub set_up_bot :
    UserRecord → UserTelegramConfig → Result TelegramBot Text → BotRegistry → BotRegistry
set_up_bot r c (err e) bots = bots
set_up_bot r c (ok bot) bots =
    add_chat_id c.token c.user_id (if r.root then set_priority c.token bots else bots)

abbrev pub set_up_answer :
    UserRecord → UserTelegramConfig → Run (Result TelegramBot Text × BotRegistry) → Run BotRegistry
set_up_answer r c panic = panic
set_up_answer r c (done (answer, bots)) = done (set_up_bot r c answer bots)

module _ (make : Text → Result Text Text) where
  abbrev pub init_bot : UserRecord → Option UserTelegramConfig → BotRegistry → Run BotRegistry
  init_bot r none bots = done bots
  init_bot r (some c) bots =
      set_up_answer r c (get_telegram_bot_by_token make c.token (λ others. others) bots)

  -- The loop over the users.
  unfoldable pub init_bots : List UserRecord → BotRegistry → Run BotRegistry
  init_bots [] bots = done bots
  init_bots (r ∷ rs) bots = do bots' ← init_bot r r.telegram_config bots; init_bots rs bots'

  abbrev pub with_bots : Registries → UserRegistry → Run BotRegistry → Run (Bool × Registries)
  with_bots s users panic = panic
  with_bots s users (done bots) = done (true, record s { users = users; bots = bots })

  abbrev pub on_update :
      List UserRecord → Registries → Option UserError × UserRegistry → Run (Bool × Registries)
  on_update rs s (some e, users) = done (false, record s { users = users })
  on_update rs s (none, users) = with_bots s users (init_bots rs s.bots)

  abbrev pub on_users_valid :
      List UserRecord → Registries → Option UserError → Run (Bool × Registries)
  on_users_valid rs s (some e) = done (false, s)
  on_users_valid rs s none = on_update rs s (update_users_config rs s.users)

  -- The first part; it says whether the chains are to be reloaded.
  unfoldable pub reload_users : Result UsersConfig Text → Registries → Run (Bool × Registries)
  unfolding init_bots
  reload_users (err e) s = done (false, s)
  reload_users (ok c) s = on_users_valid (to_user_records c) s (validate_users (to_user_records c))

abbrev pub on_chains_valid :
    UsersConfig → List ChainConfig → Registries → Option ChainError → Registries
on_chains_valid users cs s (some e) = s
on_chains_valid users cs s none = record s { chains = (update_chains_config users cs s.chains).1 }

-- The second part.
unfoldable pub reload_chains :
    UsersConfig → Result (List ChainConfig) Text → Registries → Registries
reload_chains users (err e) s = s
reload_chains users (ok cs) s = on_chains_valid users cs s (validate_chains users cs)

abbrev pub with_chains :
    UsersConfig → Registries → Run (Result (List ChainConfig) Text) → Run Registries
with_chains users s panic = panic
with_chains users s (done load_chains) = done (reload_chains users load_chains s)

-- The files of the chains are loaded only once the users are reloaded.
abbrev pub then_chains : Result UsersConfig Text → List Visited → Bool × Registries → Run Registries
then_chains (err e) visited (reloaded, s) = done s
then_chains (ok users) visited (reloaded, s) =
    if reloaded then with_chains users s (load_chains_config visited) else done s

abbrev pub with_users :
    (Text → Result Text Text) → List Visited → Registries → Result UsersConfig Text → Run Registries
with_users make visited s load_users =
    reload_users make load_users s >>= then_chains load_users visited

-- One round of `routineHotReload`.
unfoldable pub hot_reload :
    (Text → Result Text Text) → UsersFile → List Visited → Registries → Run Registries
unfolding reload_users reload_chains
hot_reload make users_file visited s = load_users_config users_file >>= with_users make visited s
