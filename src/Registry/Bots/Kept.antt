-- ===== src/Registry/Bots/Kept.antt =====
-- What a bot has been given stays with it.
use validator_health_check.Prelude.{
  ℤ, Bool, true, false, text, subst, Bool-cases, [], ◌∷◌, ◌++◌, Option, none, some, Text, get, put,
  get-put, is_empty, Run, done, panic, text_eq, int_eq, ◌==◌, ==_iff, ==_refl, if◌then◌else◌, arith,
  ◌≡◌, refl, Option-cases, inl, inr,
}
use validator_health_check.Utils.Retry.{Result, ok, err}
use validator_health_check.Registry.Bots.{
  TelegramBot, BotRegistry, find_bot, new_telegram_bot, keep_bot, look_again, look_first,
  get_telegram_bot_by_token, set_priority, add_chat_id,
}

-- The bot is the same one, with at least its chats, and still has priority if it had.
pub record Grows (bot bot' : TelegramBot) : Type 0 where
  pub same_id : bot'.id ≡ bot.id
  pub keeps_chats :
      (chat_id : ℤ) → get chat_id bot.chat_ids ≡ some true → get chat_id bot'.chat_ids ≡ some true
  pub keeps_priority : bot.priority ≡ true → bot'.priority ≡ true

abbrev pub GrownTo : TelegramBot → Option TelegramBot → Type 0
GrownTo bot none = ⊥
GrownTo bot (some bot') = Grows bot bot'

-- Every bot stays under its token, and only grows.
abbrev pub KeepsBots : BotRegistry → BotRegistry → Type 0
KeepsBots r r' =
    (token : Text) (bot : TelegramBot)
    → get token r.telegram_bot_by_token ≡ some bot
    → GrownTo bot (get token r'.telegram_bot_by_token)

Grows-refl : (bot : TelegramBot) → Grows bot bot
Grows-refl bot = record { same_id = refl; keeps_chats = λ c h. h; keeps_priority = λ h. h }

Grows-trans : (a b c : TelegramBot) → Grows a b → Grows b c → Grows a c
Grows-trans a b c h k = record {
  same_id = cc (h.same_id, k.same_id);
  keeps_chats = λ id e. k.keeps_chats id (h.keeps_chats id e);
  keeps_priority = λ e. k.keeps_priority (h.keeps_priority e);
}

GrownTo-trans :
    (a : TelegramBot) (b : Option TelegramBot) (r : BotRegistry) (token : Text)
    → GrownTo a b
    → ((bot : TelegramBot) → b ≡ some bot → GrownTo bot (get token r.telegram_bot_by_token))
    → GrownTo a (get token r.telegram_bot_by_token)
GrownTo-trans a none r token h k = absurd h
GrownTo-trans a (some b) r token h k = further (get token r.telegram_bot_by_token) (k b refl)
  where
    further : (c : Option TelegramBot) → GrownTo b c → GrownTo a c
    further none g = g
    further (some c) g = Grows-trans a b c h g

pub KeepsBots-refl : (r : BotRegistry) → KeepsBots r r
KeepsBots-refl r token bot h = rw h (Grows-refl bot)

pub KeepsBots-trans : (r r' r'' : BotRegistry) → KeepsBots r r' → KeepsBots r' r'' → KeepsBots r r''
KeepsBots-trans r r' r'' h k token bot e =
    GrownTo-trans bot (get token r'.telegram_bot_by_token) r'' token (h token bot e)
      λ b found. k token b found

-- A change of one bot that only adds.
put-KeepsBots :
    (token : Text) (bot bot' : TelegramBot) (r : BotRegistry)
    → get token r.telegram_bot_by_token ≡ some bot
    → Grows bot bot'
    → KeepsBots r (record r { telegram_bot_by_token = put token bot' r.telegram_bot_by_token })
put-KeepsBots token bot bot' r h g other b found = elim (Bool-cases (token == other)) [
  | inl same ↦
      let e : bot ≡ b = ground (arith, ==_iff token other) in
      rw (get-put token other bot' r.telegram_bot_by_token, same) (subst (λ x. Grows x bot') e g)
  | inr differ ↦ rw (get-put token other bot' r.telegram_bot_by_token, differ, found) (Grows-refl b)
]

-- A new bot under a token that had none.
new-KeepsBots :
    (token : Text) (bot : TelegramBot) (r : BotRegistry)
    → get token r.telegram_bot_by_token ≡ none
    → KeepsBots r (record r {
      telegram_bot_by_token = put token bot r.telegram_bot_by_token;
      channel_new_bot = r.channel_new_bot ++ token ∷ [];
    })
new-KeepsBots token bot r h other b found = elim (Bool-cases (token == other)) [
  | inl same ↦ absurd (ground (arith, ==_iff token other))
  | inr differ ↦ rw (get-put token other bot r.telegram_bot_by_token, differ, found) (Grows-refl b)
]

priority-Grows : (bot : TelegramBot) → Grows bot (record bot { priority = true })
priority-Grows bot = record { same_id = refl; keeps_chats = λ c h. h; keeps_priority = λ h. refl }

chat-Grows :
    (chat_id : ℤ) (bot : TelegramBot)
    → Grows bot (record bot { chat_ids = put chat_id true bot.chat_ids })
chat-Grows chat_id bot = record {
  same_id = refl;
  keeps_chats = λ c h. ground (arith, get-put chat_id c true bot.chat_ids);
  keeps_priority = λ h. h;
}

pub set_priority-KeepsBots : (token : Text) (r : BotRegistry) → KeepsBots r (set_priority token r)
unfolding set_priority
set_priority-KeepsBots token r = elim (Option-cases (get token r.telegram_bot_by_token)) [
  | inl missing ↦ rw missing (KeepsBots-refl r)
  | inr (bot, found) ↦ rw found (put-KeepsBots token bot _ r found (priority-Grows bot))
]

pub add_chat_id-KeepsBots :
    (token : Text) (chat_id : ℤ) (r : BotRegistry) → KeepsBots r (add_chat_id token chat_id r)
unfolding add_chat_id
add_chat_id-KeepsBots token chat_id r = elim (Option-cases (get token r.telegram_bot_by_token)) [
  | inl missing ↦ rw missing (KeepsBots-refl r)
  | inr (bot, found) ↦ rw found (put-KeepsBots token bot _ r found (chat-Grows chat_id bot))
]

-- The call ends and keeps every bot; a bot that is given stands under the token.
abbrev pub Gives : Text → BotRegistry → Run (Result TelegramBot Text × BotRegistry) → Type 0
Gives token r panic = ⊥
Gives token r (done (err e, r')) = KeepsBots r r'
Gives token r (done (ok bot, r')) = KeepsBots r r' × (get token r'.telegram_bot_by_token ≡ some bot)

module _ (make : Text → Result Text Text) where
  keep_bot-Gives :
      (token : Text) (made : Result Text Text) (r r' : BotRegistry)
      → KeepsBots r r'
      → get token r'.telegram_bot_by_token ≡ none
      → Gives token r (done (keep_bot token made r'))
  keep_bot-Gives token (err e) r r' keeps missing = keeps
  keep_bot-Gives token (ok id) r r' keeps missing = (
    KeepsBots-trans r r' (keep_bot token (ok id) r').1 keeps
        (new-KeepsBots token (new_telegram_bot id) r' missing),
    ground
        (arith, get-put token token (new_telegram_bot id) r'.telegram_bot_by_token, ==_refl token),
  )

  look_again-Gives :
      (token : Text) (r r' : BotRegistry) (down : Bool) (found : Option TelegramBot)
      → KeepsBots r r'
      → get token r'.telegram_bot_by_token ≡ found
      → Gives token r
          (done (look_again make token (if down then err (text "shutting down") else ok found) r'))
  look_again-Gives token r r' true found keeps e = keeps
  look_again-Gives token r r' false none keeps e = keep_bot-Gives token (make token) r r' keeps e
  look_again-Gives token r r' false (some bot) keeps e = (keeps, e)

  look_first-Gives :
      (token : Text) (others : BotRegistry → BotRegistry) (r : BotRegistry) (down : Bool)
      (found : Option TelegramBot)
      → KeepsBots r (others r)
      → get token r.telegram_bot_by_token ≡ found
      → Gives token r (
          done (
            look_first make token others (if down then err (text "shutting down") else ok found) r))
  unfolding find_bot
  look_first-Gives token others r true found keeps e = KeepsBots-refl r
  look_first-Gives token others r false (some bot) keeps e = (KeepsBots-refl r, e)
  look_first-Gives token others r false none keeps e =
      look_again-Gives token r (others r) (others r).shutting_down
        (get token (others r).telegram_bot_by_token) keeps refl

  pub get_bot-Gives :
      (token : Text) (others : BotRegistry → BotRegistry) (r : BotRegistry)
      → is_empty token ≡ false
      → KeepsBots r (others r)
      → Gives token r (get_telegram_bot_by_token make token others r)
  unfolding get_telegram_bot_by_token find_bot
  get_bot-Gives token others r full keeps = rw full (
      look_first-Gives token others r r.shutting_down (get token r.telegram_bot_by_token) keeps
        refl)
