-- ===== src/Worker/Steps.antt =====
-- The steps of a health-check that only add to the queues, and rules to put them together.
use mathlib.Core.List.{append_assoc, append-nil}
use validator_health_check.Prelude.{
  ℤ, Bool, true, false, List, [], ◌∷◌, ◌++◌, Text, Map, Time, Duration, is_empty, Run, done, panic,
  text_eq, int_eq, if◌then◌else◌, ◌≡◌, ◌∙◌, refl, sym, ap, subst,
}
use validator_health_check.Utils.Retry.{Result}
use validator_health_check.Registry.Pauser.{is_validator_paused}
use validator_health_check.Registry.Clients.{get_rpc_client_by_endpoint, normalized}
use validator_health_check.Registry.Clients.Kept.{Serves, get_rpc_client-Serves}
use validator_health_check.Push.Message.{QueueMessage}
use validator_health_check.Push.Pusher.{TelegramPusher}
use validator_health_check.Push.Pusher.Enqueue.{IsKeyed, waiting}
use validator_health_check.Push.Spam.{PreventSpammingCase, should_send_message}
use validator_health_check.Worker.Messages.{
  ConditionalMessage, enqueue_telegram_message_by_identity,
}
use validator_health_check.Worker.Messages.Fatal.{HaveTelegram}
use validator_health_check.Worker.Messages.Told.{Grown, told, enqueue_by_identity-Grown}
use validator_health_check.Worker.Outside.{World}
use validator_health_check.Worker.State.{
  Services, M, pure, then_run, ◌>>=◌, ticked, next_tick, read_clock, on_pusher, on_clients,
  get_client, is_paused_now, Channel, same_for_all, tell, should_send, tell_any, tell_unless_recent,
}
use validator_health_check.Worker.Endpoints.{ask_status}

-- The queues have grown at their ends, the registries and the votes are as before.
pub record Extends (s s' : Services) : Type 0 where
  pub same_users : s'.users ≡ s.users
  pub same_chains : s'.chains ≡ s.chains
  pub same_pauser : s'.pauser ≡ s.pauser
  pub same_addresses : s'.addresses ≡ s.addresses
  pub same_gov : s'.gov ≡ s.gov
  pub grown :
      (id : ℤ) → (new : List QueueMessage) × (waiting id s'.pusher ≡ waiting id s.pusher ++ new)

-- The step does not panic, and only adds.
abbrev pub Adds : {A : Type 0} → Services → Run (A × Services) → Type 0
Adds s panic = ⊥
Adds s (done (a, s')) = IsKeyed s'.pusher × Extends s s'

-- So it is from every state whose queues stand under their receivers.
pub record IsAdditive {A : Type 0} (m : M A) : Type 0 where
  pub adds : (s : Services) → IsKeyed s.pusher → Adds s (m s)

Extends-refl : (s : Services) → Extends s s
Extends-refl s = record {
  same_users = refl;
  same_chains = refl;
  same_pauser = refl;
  same_addresses = refl;
  same_gov = refl;
  grown = λ id. ([], sym (append-nil (waiting id s.pusher)));
}

Extends-trans : (s s' s'' : Services) → Extends s s' → Extends s' s'' → Extends s s''
Extends-trans s s' s'' h k = record {
  same_users = k.same_users ∙ h.same_users;
  same_chains = k.same_chains ∙ h.same_chains;
  same_pauser = k.same_pauser ∙ h.same_pauser;
  same_addresses = k.same_addresses ∙ h.same_addresses;
  same_gov = k.same_gov ∙ h.same_gov;
  grown = λ id.
      let (new, e) = h.grown id in
      let (new', e') = k.grown id in
      (new ++ new', e' ∙ ap (λ q. q ++ new') e ∙ append_assoc (waiting id s.pusher) new new');
}

pub pure-IsAdditive : {A : Type 0} (a : A) → IsAdditive (pure a)
pure-IsAdditive a = record { adds = λ s k. (k, Extends-refl s) }

pub skip-IsAdditive : IsAdditive (pure {A = Unit {0}} tt)
skip-IsAdditive = record { adds = λ s k. (k, Extends-refl s) }

Adds-further :
    {A : Type 0} (s s' : Services) (r : Run (A × Services)) → Extends s s' → Adds s' r → Adds s r
Adds-further s s' panic h g = g
Adds-further s s' (done (b, s'')) h (k, g) = (k, Extends-trans s s' s'' h g)

Adds-then :
    {A : Type 0} {B : Type 0} (s : Services) (r : Run (A × Services)) (f : A → M B)
    → Adds s r
    → ((a : A) → IsAdditive (f a))
    → Adds s (then_run r f)
Adds-then s panic f h next = h
Adds-then s (done (a, s')) f (k, h) next = Adds-further s s' (f a s') h ((next a).adds s' k)

pub >>=-IsAdditive :
    {A : Type 0} {B : Type 0} (m : M A) (f : A → M B)
    → IsAdditive m
    → ((a : A) → IsAdditive (f a))
    → IsAdditive (m >>= f)
>>=-IsAdditive m f first next = record { adds = λ s k. Adds-then s (m s) f (first.adds s k) next }

pub if-IsAdditive :
    {A : Type 0} (b : Bool) (m m' : M A)
    → IsAdditive m
    → IsAdditive m'
    → IsAdditive (if b then m else m')
if-IsAdditive true m m' h h' = h
if-IsAdditive false m m' h h' = h'

-- A step that leaves the pusher, the registries and the votes alone.
abbrev pub LeavesAll : Services → Services → Type 0
LeavesAll s s' =
    (s'.users ≡ s.users)
    × (s'.chains ≡ s.chains)
    × (s'.pauser ≡ s.pauser)
    × (s'.addresses ≡ s.addresses)
    × (s'.gov ≡ s.gov)
    × (s'.pusher ≡ s.pusher)

Extends-LeavesAll :
    (s s' : Services) → IsKeyed s.pusher → LeavesAll s s' → IsKeyed s'.pusher × Extends s s'
Extends-LeavesAll s s' k h = (
  subst IsKeyed (sym h.5) k,
  record {
    same_users = h.0;
    same_chains = h.1;
    same_pauser = h.2;
    same_addresses = h.3;
    same_gov = h.4;
    grown = λ id. ([], ap (waiting id) h.5 ∙ sym (append-nil (waiting id s.pusher)));
  },
)

pub leaves-IsAdditive :
    (f : Services → Services)
    → ((s : Services) → LeavesAll s (f s))
    → IsAdditive (λ s. done (let u : Unit {0} = tt in u, f s))
leaves-IsAdditive f leaves = record { adds = λ s k. Extends-LeavesAll s (f s) k (leaves s) }

pub read_clock-IsAdditive : (w : World) → IsAdditive (read_clock w)
unfolding read_clock next_tick
read_clock-IsAdditive w = record {
  adds = λ s k. Extends-LeavesAll s (ticked s) k (refl, refl, refl, refl, refl, refl);
}

pub is_paused_now-IsAdditive : (w : World) (v : Text) → IsAdditive (is_paused_now w v)
unfolding is_paused_now
is_paused_now-IsAdditive w v =
    >>=-IsAdditive (read_clock w) (λ now s. done ((is_validator_paused now v s.pauser).0, s))
      (read_clock-IsAdditive w) λ now. record { adds = λ s k. (k, Extends-refl s) }

pub ask_status-IsAdditive : (w : World) (client : Text) → IsAdditive (ask_status w client)
unfolding ask_status next_tick
ask_status-IsAdditive w client = record {
  adds = λ s k. Extends-LeavesAll s (ticked s) k (refl, refl, refl, refl, refl, refl);
}

-- An empty endpoint is a panic.
pub get_client-IsAdditive :
    (w : World) (endpoint : Text) → is_empty endpoint ≡ false → IsAdditive (get_client w endpoint)
unfolding get_client next_tick
get_client-IsAdditive w endpoint h = record {
  adds = λ s k.
      served s k
        (get_rpc_client_by_endpoint (w.connect s.tick) endpoint (λ others. others) s.clients)
        (get_rpc_client-Serves (w.connect s.tick) endpoint (λ others. others) s.clients h
          (λ _ _ found. found));
}
  where
    served :
        (s : Services)
        → IsKeyed s.pusher
        → (r : Run (Result Text Text × Map Text Text))
        → Serves (w.connect s.tick) (normalized (w.connect s.tick) endpoint) s.clients s.clients r
        → Adds s (on_clients r (ticked s))
    served s k panic g = absurd g
    served s k (done (answer, clients)) g =
        Extends-LeavesAll s (record (ticked s) { clients = clients }) k
          (refl, refl, refl, refl, refl, refl)

pub should_send-IsAdditive :
    (w : World) (case : PreventSpammingCase) (identities : List Text) (interval : Duration)
    → IsAdditive (should_send w case identities interval)
unfolding should_send
should_send-IsAdditive w case identities interval =
    >>=-IsAdditive (read_clock w)
      (λ now s. done ((should_send_message now case identities interval s.spam).0, sent now s))
      (read_clock-IsAdditive w)
      λ now. record {
        adds = λ s k. Extends-LeavesAll s (sent now s) k (refl, refl, refl, refl, refl, refl);
      }
  where
    sent : Time → Services → Services
    sent now s = record s { spam = (should_send_message now case identities interval s.spam).1 }

module _ (w : World) (c : Channel) (have : HaveTelegram c.records) where
  pub tell-IsAdditive :
      (validator : Text) (m : ConditionalMessage) (fatal : Bool) (identities : List Text)
      → IsAdditive (tell w c validator m fatal identities)
  unfolding tell
  tell-IsAdditive validator m fatal identities =
      >>=-IsAdditive (read_clock w)
        (λ now s.
          on_pusher
            (enqueue_telegram_message_by_identity now c.records c.chain_name validator m fatal
              identities s.pusher)
            s)
        (read_clock-IsAdditive w)
        λ now. record {
          adds = λ s k.
              put now s
                (enqueue_telegram_message_by_identity now c.records c.chain_name validator m fatal
                  identities s.pusher)
                (enqueue_by_identity-Grown now c.records c.chain_name validator m fatal identities
                  s.pusher have k);
        }
    where
      put :
          (now : Time) (s : Services) (r : Run TelegramPusher)
          → Grown now c.records c.chain_name validator m fatal s.pusher
              (λ id. told now c.records c.chain_name validator m fatal id identities)
              r
          → Adds s (on_pusher r s)
      put now s panic g = g
      put now s (done tp) (k, at) = (
        k,
        record {
          same_users = refl;
          same_chains = refl;
          same_pauser = refl;
          same_addresses = refl;
          same_gov = refl;
          grown = λ id. (told now c.records c.chain_name validator m fatal id identities, at id);
        },
      )

  tell_any-IsAdditive :
      (validator message : Text) (fatal : Bool) (identities : List Text)
      → IsAdditive (tell_any w c validator message fatal identities)
  tell_any-IsAdditive validator message fatal [] = skip-IsAdditive
  tell_any-IsAdditive validator message fatal (i ∷ is) =
      tell-IsAdditive validator (same_for_all message) fatal (i ∷ is)

  pub tell_unless_recent-IsAdditive :
      (case : PreventSpammingCase) (watchers : List Text) (interval : Duration)
      (validator message : Text) (fatal : Bool)
      → IsAdditive (tell_unless_recent w c case watchers interval validator message fatal)
  unfolding tell_unless_recent
  tell_unless_recent-IsAdditive case watchers interval validator message fatal =
      >>=-IsAdditive (should_send w case watchers interval) (tell_any w c validator message fatal)
        (should_send-IsAdditive w case watchers interval)
        λ to. tell_any-IsAdditive validator message fatal to
