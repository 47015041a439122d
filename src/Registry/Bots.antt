-- ===== src/Registry/Bots.antt =====
-- registry/telegram_bot_registry: one bot for each token. Bots are of another library: making one is
-- `make`, which gives an id or the text of an error. The map owns the bots: a change through a shared
-- pointer is made to the bot that stands under the token. The channel of new bots is the list of
-- the tokens that were put into it. The lock of the registry is taken twice for one call; `others`
-- is what other callers do in between.
pub mod Kept
use validator_health_check.Prelude.{
  ℤ, Bool, true, false, not, ◌&&◌, List, [], ◌∷◌, ◌++◌, Option, none, some, Text, text, Map, get,
  put, is_empty, map, Run, done, panic, SortSlice, int_eq, text_eq, if◌then◌else◌,
}
use validator_health_check.Utils.Retry.{Result, ok, err}

pub record TelegramBot : Type 0 where
  pub id : Text
  pub chat_ids : Map ℤ Bool
  pub priority : Bool

unfoldable pub new_telegram_bot : Text → TelegramBot
new_telegram_bot id = record { id = id; chat_ids = []; priority = false }

pub record BotRegistry : Type 0 where
  pub telegram_bot_by_token : Map Text TelegramBot
  pub shutting_down : Bool
  pub channel_new_bot : List Text

abbrev pub no_bots : BotRegistry
no_bots = record { telegram_bot_by_token = []; shutting_down = false; channel_new_bot = [] }

-- `getTelegramBotByTokenRL`: an error while shutting down, and else what is found.
unfoldable pub find_bot : Text → BotRegistry → Result (Option TelegramBot) Text
find_bot token r =
    if r.shutting_down then err (text "shutting down") else ok (get token r.telegram_bot_by_token)

abbrev pub keep_bot : Text → Result Text Text → BotRegistry → Result TelegramBot Text × BotRegistry
keep_bot token (err e) r = (err e, r)
keep_bot token (ok id) r = (
  ok (new_telegram_bot id),
  record r {
    telegram_bot_by_token = put token (new_telegram_bot id) r.telegram_bot_by_token;
    channel_new_bot = r.channel_new_bot ++ token ∷ [];
  },
)

module _ (make : Text → Result Text Text) where
  -- Under the lock.
  abbrev pub look_again :
      Text → Result (Option TelegramBot) Text → BotRegistry → Result TelegramBot Text × BotRegistry
  look_again token (err e) r = (err e, r)
  look_again token (ok (some bot)) r = (ok bot, r)
  look_again token (ok none) r = keep_bot token (make token) r

  abbrev pub look_first :
      Text
      → (BotRegistry → BotRegistry)
      → Result (Option TelegramBot) Text
      → BotRegistry
      → Result TelegramBot Text × BotRegistry
  look_first token others (err e) r = (err e, r)
  look_first token others (ok (some bot)) r = (ok bot, r)
  look_first token others (ok none) r = look_again token (find_bot token (others r)) (others r)

  unfoldable pub get_telegram_bot_by_token :
      Text → (BotRegistry → BotRegistry) → BotRegistry → Run (Result TelegramBot Text × BotRegistry)
  unfolding find_bot
  get_telegram_bot_by_token token others r =
      if is_empty token then panic else done (look_first token others (find_bot token r) r)

-- A change of the bot under a token.
abbrev change_bot :
    Text → (TelegramBot → TelegramBot) → Option TelegramBot → BotRegistry → BotRegistry
change_bot token f none r = r
change_bot token f (some bot) r = record r {
  telegram_bot_by_token = put token (f bot) r.telegram_bot_by_token;
}

abbrev with_priority : TelegramBot → TelegramBot
with_priority bot = record bot { priority = true }

-- `PriorityWL`
unfoldable pub set_priority : Text → BotRegistry → BotRegistry
set_priority token r = change_bot token with_priority (get token r.telegram_bot_by_token) r

abbrev with_chat_id : ℤ → TelegramBot → TelegramBot
with_chat_id chat_id bot = record bot { chat_ids = put chat_id true bot.chat_ids }

-- `AddChatIdWL`
unfoldable pub add_chat_id : Text → ℤ → BotRegistry → BotRegistry
add_chat_id token chat_id r =
    change_bot token (with_chat_id chat_id) (get token r.telegram_bot_by_token) r

unfoldable pub flag_shutting_down : BotRegistry → BotRegistry
flag_shutting_down r = record r { shutting_down = true }

unfoldable pub get_all_chain_ids : TelegramBot → List ℤ
get_all_chain_ids bot = map (λ entry. entry.0) bot.chat_ids

unfoldable pub get_all_telegram_bots : BotRegistry → List TelegramBot
get_all_telegram_bots r = map (λ entry. entry.1) r.telegram_bot_by_token

unfoldable pub sort_by_priority : SortSlice TelegramBot → List TelegramBot → List TelegramBot
sort_by_priority sorter bots =
    sorter.sort_slice (λ left right. left.priority && not right.priority) bots
