-- ===== src/Start/BotsKept.antt =====
-- Setting up the bots of the users keeps the bots that there are.
use validator_health_check.Prelude.{
  Bool, true, false, List, [], ◌∷◌, Option, none, some, Text, is_empty, Run, done, panic, ◌>>=◌,
  text_eq, int_eq, if◌then◌else◌, arith, ◌≡◌,
}
use validator_health_check.Utils.Retry.{Result, ok, err}
use validator_health_check.Config.Users.{UserRecord, UserTelegramConfig}
use validator_health_check.Config.Users.Valid.{AllComplete}
use validator_health_check.Registry.Bots.{BotRegistry, TelegramBot, set_priority, add_chat_id}
use validator_health_check.Registry.Bots.Kept.{
  KeepsBots, KeepsBots-refl, KeepsBots-trans, set_priority-KeepsBots, add_chat_id-KeepsBots, Gives,
  get_bot-Gives,
}
use validator_health_check.Start.{set_up_bot, set_up_answer, init_bot, init_bots}

-- The step ends and keeps every bot.
abbrev pub KeepsAll : BotRegistry → Run BotRegistry → Type 0
KeepsAll bots panic = ⊥
KeepsAll bots (done bots') = KeepsBots bots bots'

set_up-KeepsBots :
    (r : UserRecord) (c : UserTelegramConfig) (answer : Result TelegramBot Text)
    (bots : BotRegistry)
    → KeepsBots bots (set_up_bot r c answer bots)
set_up-KeepsBots r c (err e) bots = KeepsBots-refl bots
set_up-KeepsBots r c (ok bot) bots = by_root r.root
  where
    by_root :
        (root : Bool)
        → KeepsBots bots
            (add_chat_id c.token c.user_id (if root then set_priority c.token bots else bots))
    by_root true =
        KeepsBots-trans bots (set_priority c.token bots)
          (add_chat_id c.token c.user_id (set_priority c.token bots))
          (set_priority-KeepsBots c.token bots)
          (add_chat_id-KeepsBots c.token c.user_id (set_priority c.token bots))
    by_root false = add_chat_id-KeepsBots c.token c.user_id bots

set_up_answer-KeepsAll :
    (r : UserRecord) (c : UserTelegramConfig) (bots : BotRegistry)
    (answer : Run (Result TelegramBot Text × BotRegistry))
    → Gives c.token bots answer
    → KeepsAll bots (set_up_answer r c answer)
set_up_answer-KeepsAll r c bots panic h = h
set_up_answer-KeepsAll r c bots (done (err e, bots')) h = h
set_up_answer-KeepsAll r c bots (done (ok bot, bots')) h =
    KeepsBots-trans bots bots' (set_up_bot r c (ok bot) bots') h.0
      (set_up-KeepsBots r c (ok bot) bots')

module _ (make : Text → Result Text Text) where
  init_bot-KeepsAll :
      (r : UserRecord) (c : UserTelegramConfig) (t : Option UserTelegramConfig) (bots : BotRegistry)
      → t ≡ some c
      → is_empty c.token ≡ false
      → KeepsAll bots (init_bot make r t bots)
  init_bot-KeepsAll r c none bots e full = cc
  init_bot-KeepsAll r c (some c') bots e full =
      set_up_answer-KeepsAll r c' bots _
        (get_bot-Gives make c'.token (λ others. others) bots (ground arith) (KeepsBots-refl bots))

  KeepsAll-bind :
      (bots : BotRegistry) (r : Run BotRegistry) (f : BotRegistry → Run BotRegistry)
      → KeepsAll bots r
      → ((bots' : BotRegistry) → KeepsAll bots' (f bots'))
      → KeepsAll bots (r >>= f)
  KeepsAll-bind bots panic f h next = h
  KeepsAll-bind bots (done bots') f h next = further (f bots') (next bots')
    where
      further : (r : Run BotRegistry) → KeepsAll bots' r → KeepsAll bots r
      further panic k = k
      further (done bots'') k = KeepsBots-trans bots bots' bots'' h k

  pub init_bots-KeepsAll :
      (rs : List UserRecord) (bots : BotRegistry)
      → AllComplete rs
      → KeepsAll bots (init_bots make rs bots)
  unfolding init_bots
  init_bots-KeepsAll [] bots h = KeepsBots-refl bots
  init_bots-KeepsAll (r ∷ rs) bots ((c, here), h) =
      KeepsAll-bind bots (init_bot make r r.telegram_config bots) (init_bots make rs)
        (init_bot-KeepsAll r c r.telegram_config bots here.has_config here.has_token)
        λ bots'. init_bots-KeepsAll rs bots' h
