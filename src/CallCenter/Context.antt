-- ===== src/CallCenter/Context.antt =====
-- services/telegram_call_center_svc/{telegram_update_ctx,employee}.go: what a command is handled with,
-- and the message to all root users. Functions of the `time` package that read and print durations
-- and instants are the fields of `TimeFormat`.
use validator_health_check.Prelude.{
  ℕ, ℤ, Bool, true, false, List, [], ◌∷◌, ◌++◌, Option, none, some, Text, Time, zero_time, Duration,
  any, Run, done, panic, ◌>>=◌, if◌then◌else◌, eqb, refl, ◌≡◌, text_eq, ◌==◌,
}
use validator_health_check.Config.Users.{
  UserRecord, UserTelegramConfig, is_empty_or_incomplete_config,
}
use validator_health_check.Registry.Users.{
  UserRegistry, get_user_record_by_identity, get_root_users_identity,
}
use validator_health_check.Registry.Pauser.{Pauser}
use validator_health_check.Push.Message.{QueueMessage}
use validator_health_check.Push.Silencer.{Silencer}
use validator_health_check.Push.Pusher.{TelegramPusher, enqueue}
use validator_health_check.Push.Pusher.Enqueue.{IsKeyed, Enqueued, enqueue-Enqueued}

pub record TelegramUpdateCtx : Type 0 where
  pub chat_id : ℤ
  pub command_args : Text
  pub identity : Text
  pub username : Text
  pub is_root_user : Bool

pub record TimeFormat : Type 0 where
  pub parse_duration : Text → Option Duration
  pub duration_string : Duration → Text
  pub date_time : Time → Text

-- What the commands change.
pub record Center : Type 0 where
  pub pauser : Pauser
  pub silencer : Silencer
  pub pusher : TelegramPusher

-- The pieces that `fmt.Sprintf` and `strings.Builder` put together.
abbrev pub concat : List Text → Text
concat [] = []
concat (t ∷ ts) = t ++ concat ts

-- `strings.Split(s, " ")`
abbrev pub add_byte : ℕ → List Text → List Text
add_byte c [] = (c ∷ []) ∷ []
add_byte c (t ∷ ts) = (c ∷ t) ∷ ts

unfoldable pub split_spaces : Text → List Text
split_spaces [] = [] ∷ []
split_spaces (c ∷ s) =
    let rest = split_spaces s in if eqb c b' ' then [] ∷ rest else add_byte c rest

abbrev pub is_listed : Text → List Text → Bool
is_listed identity = any (λ other. other == identity)

-- The message to one root user, whose record is looked up again.
abbrev pub enqueue_to_config :
    Time → Text → Bool → Option UserTelegramConfig → TelegramPusher → Run TelegramPusher
enqueue_to_config now message fatal none tp = done tp
enqueue_to_config now message fatal (some c) tp =
    if is_empty_or_incomplete_config (some c)
    then done tp
    else enqueue now
        (record {
          receiver_id = c.user_id;
          priority = true;
          fatal = fatal;
          message = message;
          enqueue_time_utc = zero_time;
        })
        tp

abbrev pub enqueue_to_record :
    Time → Text → Bool → Option UserRecord → TelegramPusher → Run TelegramPusher
enqueue_to_record now message fatal none tp = done tp
enqueue_to_record now message fatal (some r) tp =
    enqueue_to_config now message fatal r.telegram_config tp

unfoldable pub enqueue_to_identities :
    Time → UserRegistry → Text → Bool → List Text → TelegramPusher → Run TelegramPusher
enqueue_to_identities now users message fatal [] tp = done tp
enqueue_to_identities now users message fatal (identity ∷ identities) tp = do
  tp' ← enqueue_to_record now message fatal (get_user_record_by_identity identity users) tp
  enqueue_to_identities now users message fatal identities tp'

unfoldable pub enqueue_to_all_root_users : Time → UserRegistry → Text → Bool → Center → Run Center
unfolding enqueue_to_identities
enqueue_to_all_root_users now users message fatal w = do
  tp ← enqueue_to_identities now users message fatal (get_root_users_identity users) w.pusher
  done (record w { pusher = tp })

-- The call ends, and the queues stand under their receivers.
abbrev StaysKeyed : Run TelegramPusher → Type 0
StaysKeyed panic = ⊥
StaysKeyed (done tp) = IsKeyed tp

StaysKeyed-Enqueued :
    (now : Time) (m : QueueMessage) (tp : TelegramPusher) (r : Run TelegramPusher)
    → Enqueued now m tp r
    → StaysKeyed r
StaysKeyed-Enqueued now m tp panic h = h
StaysKeyed-Enqueued now m tp (done tp') h = h.0

StaysKeyed-config :
    (now : Time) (message : Text) (fatal : Bool) (c : Option UserTelegramConfig)
    (tp : TelegramPusher)
    → IsKeyed tp
    → StaysKeyed (enqueue_to_config now message fatal c tp)
StaysKeyed-config now message fatal none tp k = k
StaysKeyed-config now message fatal (some c) tp k = go (is_empty_or_incomplete_config (some c))
  where
    m : QueueMessage
    m = record {
      receiver_id = c.user_id;
      priority = true;
      fatal = fatal;
      message = message;
      enqueue_time_utc = zero_time;
    }

    go : (incomplete : Bool) → StaysKeyed (if incomplete then done tp else enqueue now m tp)
    go true = k
    go false = StaysKeyed-Enqueued now m tp (enqueue now m tp) (enqueue-Enqueued now m tp k)

StaysKeyed-record :
    (now : Time) (message : Text) (fatal : Bool) (r : Option UserRecord) (tp : TelegramPusher)
    → IsKeyed tp
    → StaysKeyed (enqueue_to_record now message fatal r tp)
StaysKeyed-record now message fatal none tp k = k
StaysKeyed-record now message fatal (some r) tp k =
    StaysKeyed-config now message fatal r.telegram_config tp k

StaysKeyed-bind :
    (r : Run TelegramPusher) (f : TelegramPusher → Run TelegramPusher)
    → StaysKeyed r
    → ((tp : TelegramPusher) → IsKeyed tp → StaysKeyed (f tp))
    → StaysKeyed (r >>= f)
StaysKeyed-bind panic f h next = h
StaysKeyed-bind (done tp) f h next = next tp h

StaysKeyed-identities :
    (now : Time) (users : UserRegistry) (message : Text) (fatal : Bool) (identities : List Text)
    (tp : TelegramPusher)
    → IsKeyed tp
    → StaysKeyed (enqueue_to_identities now users message fatal identities tp)
unfolding enqueue_to_identities
StaysKeyed-identities now users message fatal [] tp k = k
StaysKeyed-identities now users message fatal (identity ∷ identities) tp k =
    StaysKeyed-bind _ _
      (StaysKeyed-record now message fatal (get_user_record_by_identity identity users) tp k)
      λ tp' k'. StaysKeyed-identities now users message fatal identities tp' k'

-- The call ends, changes nothing but the pusher, and its queues stand under their receivers.
abbrev pub OnlyPusher : Center → Run Center → Type 0
OnlyPusher w panic = ⊥
OnlyPusher w (done w') = (w'.pauser ≡ w.pauser) × (w'.silencer ≡ w.silencer) × IsKeyed w'.pusher

OnlyPusher-bind :
    (w : Center) (r : Run TelegramPusher)
    → StaysKeyed r
    → OnlyPusher w (r >>= λ tp. done (let w' : Center = record w { pusher = tp } in w'))
OnlyPusher-bind w panic h = h
OnlyPusher-bind w (done tp) h = (refl, refl, h)

pub enqueue_to_all-OnlyPusher :
    (now : Time) (users : UserRegistry) (message : Text) (fatal : Bool) (w : Center)
    → IsKeyed w.pusher
    → OnlyPusher w (enqueue_to_all_root_users now users message fatal w)
unfolding enqueue_to_all_root_users
enqueue_to_all-OnlyPusher now users message fatal w k =
    OnlyPusher-bind w _
      (StaysKeyed-identities now users message fatal (get_root_users_identity users) w.pusher k)
