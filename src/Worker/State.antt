-- ===== src/Worker/State.antt =====
-- work/health_check_worker/worker.go: what one health-check reads and changes, and its steps one
-- after the other. The services and registries are the state; `tick` counts the uses of the clock and
-- of the nodes. A step may panic.
use validator_health_check.Prelude.{
  ℕ, suc, Bool, List, [], ◌∷◌, Text, Map, Time, Duration, Run, done, panic, text_eq,
}
use validator_health_check.Config.Users.{UserRecord}
use validator_health_check.Registry.Users.{UserRegistry}
use validator_health_check.Registry.Pauser.{Pauser, is_validator_paused}
use validator_health_check.Registry.Chains.{ChainRegistry}
use validator_health_check.Registry.Addresses.{AddressRegistry}
use validator_health_check.Registry.Clients.{get_rpc_client_by_endpoint}
use validator_health_check.Utils.Retry.{Result}
use validator_health_check.Push.Pusher.{TelegramPusher}
use validator_health_check.Push.Spam.{PreventSpamming, PreventSpammingCase, should_send_message}
use validator_health_check.Worker.Gov.{GovCache}
use validator_health_check.Worker.Messages.{
  ConditionalMessage, enqueue_telegram_message_by_identity,
}
use validator_health_check.Worker.Outside.{World}
use validator_health_check.Worker.Cache.{HealthCheckCache}

pub record Services : Type 0 where
  pub tick : ℕ
  pub users : UserRegistry
  pub chains : ChainRegistry
  pub pauser : Pauser
  pub addresses : AddressRegistry
  pub clients : Map Text Text
  pub pusher : TelegramPusher
  pub spam : PreventSpamming
  pub health_checks : HealthCheckCache
  pub gov : GovCache

abbrev pub M {ℓ} : Type ℓ → Type ℓ
M A = Services → Run (A × Services)

abbrev pub pure {ℓ} : {A : Type ℓ} → A → M A
pure a s = done (a, s)

abbrev pub fail {ℓ} : {A : Type ℓ} → M A
fail s = panic

-- What follows a step that has ended so.
abbrev pub then_run {ℓ κ} :
    {A : Type ℓ} {B : Type κ} → Run (A × Services) → (A → M B) → Run (B × Services)
then_run panic f = panic
then_run (done (a, s)) f = f a s

infixl 5 ◌>>=◌ ◌>>◌
abbrev pub ◌>>=◌ {ℓ κ} : {A : Type ℓ} {B : Type κ} → M A → (A → M B) → M B
◌>>=◌ m f s = then_run (m s) f

abbrev pub ◌>>◌ {κ} : {B : Type κ} → M (Unit {0}) → M B → M B
m >> k = m >>= λ _. k

-- A computation that may panic.
abbrev pub from_run {ℓ} : {A : Type ℓ} → Run A → M A
from_run panic s = panic
from_run (done a) s = done (a, s)

-- A part of the state read, and one replaced.
abbrev pub reads {ℓ} : {A : Type ℓ} → (Services → A) → M A
reads f s = done (f s, s)

abbrev pub changes : (Services → Services) → M (Unit {0})
changes f s = done (tt, f s)

abbrev pub ticked : Services → Services
ticked s = record s { tick = suc s.tick }

-- The number of the next use of the world.
unfoldable pub next_tick : M ℕ
next_tick s = done (s.tick, ticked s)

-- `time.Now()`
unfoldable pub read_clock : World → M Time
unfolding next_tick
read_clock w = do t ← next_tick; pure (w.clock t)

-- A step on the pusher.
abbrev pub on_pusher : Run TelegramPusher → M (Unit {0})
on_pusher panic s = panic
on_pusher (done pusher) s = done (tt, record s { pusher = pusher })

-- A step on the clients.
abbrev pub on_clients : Run (Result Text Text × Map Text Text) → M (Result Text Text)
on_clients panic s = panic
on_clients (done (answer, clients)) s = done (answer, record s { clients = clients })

-- `rpcreg.GetRpcClientByEndpointWL`
unfoldable pub get_client : World → Text → M (Result Text Text)
unfolding next_tick
get_client w endpoint = do
  t ← next_tick
  clients ← reads (λ s. s.clients)
  on_clients (get_rpc_client_by_endpoint (w.connect t) endpoint (λ others. others) clients)

-- `chainreg.IsValidatorPausedRL`
unfoldable pub is_paused_now : World → Text → M Bool
unfolding read_clock
is_paused_now w valoper = do
  now ← read_clock w
  pauser ← reads (λ s. s.pauser)
  pure (is_validator_paused now valoper pauser).0

-- The messages of one chain: `enqueueTelegramMessageByIdentity` with the names that it closes over.
pub record Channel : Type 0 where
  pub chain_name : Text
  pub records : Map Text UserRecord

abbrev pub same_for_all : Text → ConditionalMessage
same_for_all message = record { message = message; message_for_root = [] }

unfoldable pub tell : World → Channel → Text → ConditionalMessage → Bool → List Text → M (Unit {0})
unfolding read_clock
tell w c validator message fatal identities = do
  now ← read_clock w
  pusher ← reads (λ s. s.pusher)
  on_pusher (
      enqueue_telegram_message_by_identity now c.records c.chain_name validator message fatal
        identities pusher)

-- `tpsvc.ShouldSendMessageWL`
unfoldable pub should_send : World → PreventSpammingCase → List Text → Duration → M (List Text)
unfolding read_clock
should_send w case identities interval = do
  now ← read_clock w
  spam ← reads (λ s. s.spam)
  changes (λ s. record s { spam = (should_send_message now case identities interval spam).1 })
  pure (should_send_message now case identities interval spam).0

-- `if len(sendToWatchers) > 0`
abbrev pub tell_any : World → Channel → Text → Text → Bool → List Text → M (Unit {0})
tell_any w c validator message fatal [] = pure tt
tell_any w c validator message fatal (i ∷ is) =
    tell w c validator (same_for_all message) fatal (i ∷ is)

-- A message to those who were not sent one of its case within the interval.
unfoldable pub tell_unless_recent :
    World → Channel → PreventSpammingCase → List Text → Duration → Text → Text → Bool → M (Unit {0})
unfolding tell should_send
tell_unless_recent w c case watchers interval validator message fatal = do
  send_to_watchers ← should_send w case watchers interval
  tell_any w c validator message fatal send_to_watchers
