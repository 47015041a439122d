-- ===== src/CallCenter/Pause/Watched.antt =====
-- What a user who is not root can pause.
use validator_health_check.Prelude.{
  Bool, true, false, not, ◌||◌, ◌&&◌, List, [], ◌∷◌, Option, none, some, Text, Time, Duration,
  is_empty, get, get-put, get-delete, add, any, Run, done, panic, ◌>>=◌, ◌==◌, ==_iff, text_eq,
  if◌then◌else◌, arith, ◌≡◌, refl, sym, subst, ◌∙◌, ◌⊎◌, Bool-cases, inl, inr,
}
use validator_health_check.Registry.Users.{UserRegistry}
use validator_health_check.Registry.Pauser.{Pauser, pause_validator, unpause_validator}
use validator_health_check.Registry.Chains.{
  ChainRegistry, RegisteredChainConfig, ValidatorOfRegisteredChainConfig,
  get_copy_all_chain_configs,
}
use validator_health_check.Push.Pusher.Enqueue.{IsKeyed}
use validator_health_check.CallCenter.Context.{
  TelegramUpdateCtx, TimeFormat, Center, is_listed, OnlyPusher, enqueue_to_all-OnlyPusher,
}
use validator_health_check.CallCenter.Pause.Arguments.{PauseArgs, refused, asked, read_pause_args}
use validator_health_check.CallCenter.Pause.{
  announce, see_validators, see_chains, apply_to_validator, try_validator, not_found,
  respond_not_found, then_validator, apply_pause, process_command_pause,
}

-- The validator is on the chain, with the user among its watchers.
abbrev pub watches_on : Text → Text → List ValidatorOfRegisteredChainConfig → Bool
watches_on identity valoper =
    any (λ v. (v.validator_operator_address == valoper) && is_listed identity v.watchers_identity)

abbrev pub watches : Text → Text → List RegisteredChainConfig → Bool
watches identity valoper = any (λ c. watches_on identity valoper c.validators)

see_validators-granted :
    (identity valoper : Text) (vs : List ValidatorOfRegisteredChainConfig) (found granted : Bool)
    → (see_validators identity valoper vs found granted).1 ≡ true
    → (granted || watches_on identity valoper vs) ≡ true
unfolding see_validators any
see_validators-granted identity valoper [] found granted h = ground arith
see_validators-granted identity valoper (v ∷ vs) found granted h = ground (
  arith,
  see_validators-granted identity valoper vs true (is_listed identity v.watchers_identity),
  see_validators-granted identity valoper vs found granted,
)

see_chains-granted :
    (identity valoper : Text) (cs : List RegisteredChainConfig) (granted : Bool)
    → (see_chains identity valoper cs granted).1 ≡ true
    → (granted || watches identity valoper cs) ≡ true
unfolding see_chains any
see_chains-granted identity valoper [] granted h = ground arith
see_chains-granted identity valoper (c ∷ cs) granted h = ground (
  arith,
  see_validators-granted identity valoper c.validators false granted,
  see_chains-granted identity valoper cs
      (see_validators identity valoper c.validators false granted).1,
)

-- The pauses of all chains are as before, and so are those of the validators that the user does not
-- watch.
abbrev pub OnlyWatched : Text → List RegisteredChainConfig → Pauser → Pauser → Type 0
OnlyWatched identity cs before after =
    (after.paused_chains ≡ before.paused_chains)
    × ((valoper : Text)
        → (get valoper after.paused_validators ≡ get valoper before.paused_validators)
          ⊎ (watches identity valoper cs ≡ true))

-- The command ends with a response; the queues stand under their receivers, what is silenced is as
-- before, and the pauses of no other than watched validators have changed.
abbrev pub Handled : Text → List RegisteredChainConfig → Center → Run (Text × Center) → Type 0
Handled identity cs w panic = ⊥
Handled identity cs w (done (response, w')) =
    IsKeyed w'.pusher × (w'.silencer ≡ w.silencer) × OnlyWatched identity cs w.pauser w'.pauser

module _ (now : Time) (tf : TimeFormat) (users : UserRegistry) (chains : ChainRegistry)
    (ctx : TelegramUpdateCtx) where
  announced-Handled :
      (cs : List RegisteredChainConfig) (w w' : Center) (response : Text) (r : Run Center)
      → OnlyWatched ctx.identity cs w.pauser w'.pauser
      → w'.silencer ≡ w.silencer
      → OnlyPusher w' r
      → Handled ctx.identity cs w
          ((r >>= λ x. done (some (response, x))) >>= λ found. done (respond_not_found ctx w found))
  announced-Handled cs w w' response panic watched silent only = only
  announced-Handled cs w w' response (done x) watched silent (same, same_silencer, k) =
      (k, same_silencer ∙ silent, subst (OnlyWatched ctx.identity cs w.pauser) (sym same) watched)

  unpause-OnlyWatched :
      (cs : List RegisteredChainConfig) (valoper : Text) (p : Pauser)
      → watches ctx.identity valoper cs ≡ true
      → OnlyWatched ctx.identity cs p (unpause_validator valoper p)
  unfolding unpause_validator
  unpause-OnlyWatched cs valoper p h = (
    refl,
    λ other. elim (Bool-cases (valoper == other)) [
      | inl e ↦ inr (subst (λ v. watches ctx.identity v cs ≡ true) ((==_iff valoper other).0 e) h)
      | inr e ↦ inl (ground (arith, get-delete valoper other p.paused_validators))
    ],
  )

  pause-OnlyWatched :
      (cs : List RegisteredChainConfig) (valoper : Text) (d : Duration) (p : Pauser)
      → watches ctx.identity valoper cs ≡ true
      → OnlyWatched ctx.identity cs p (pause_validator now valoper d p).1
  unfolding pause_validator
  pause-OnlyWatched cs valoper d p h = (
    refl,
    λ other. elim (Bool-cases (valoper == other)) [
      | inl e ↦ inr (subst (λ v. watches ctx.identity v cs ≡ true) ((==_iff valoper other).0 e) h)
      | inr e ↦ inl (ground (arith, get-put valoper other (add now d) p.paused_validators))
    ],
  )

  apply-Handled :
      (cs : List RegisteredChainConfig) (valoper chain_name : Text) (duration : Option Duration)
      (ultimate : Bool) (w : Center)
      → IsKeyed w.pusher
      → watches ctx.identity valoper cs ≡ true
      → Handled ctx.identity cs w (
          apply_to_validator now tf users ctx valoper chain_name duration ultimate w >>= λ found.
          done (respond_not_found ctx w found))
  unfolding announce
  apply-Handled cs valoper chain_name none ultimate w k h =
      announced-Handled cs w
        (let w' : Center = record w { pauser = unpause_validator valoper w.pauser } in w') _ _
        (unpause-OnlyWatched cs valoper w.pauser h) refl
        (enqueue_to_all-OnlyPusher now users _ _
          (record w { pauser = unpause_validator valoper w.pauser }) k)
  apply-Handled cs valoper chain_name (some d) ultimate w k h =
      announced-Handled cs w
        (let w' : Center = record w { pauser = (pause_validator now valoper d w.pauser).1 } in w') _
        _ (pause-OnlyWatched cs valoper d w.pauser h) refl
        (enqueue_to_all-OnlyPusher now users _ _
          (record w { pauser = (pause_validator now valoper d w.pauser).1 }) k)

  unchanged-Handled :
      (cs : List RegisteredChainConfig) (response : Text) (w : Center)
      → IsKeyed w.pusher
      → Handled ctx.identity cs w (done (response, w))
  unchanged-Handled cs response w k = (k, refl, (refl, λ valoper. inl refl))

  try-Handled :
      (target : Text) (duration : Option Duration) (ultimate : Bool) (w : Center)
      → ctx.is_root_user ≡ false
      → IsKeyed w.pusher
      → Handled ctx.identity
          (get_copy_all_chain_configs chains)
          w
          (then_validator now tf users chains ctx target duration ultimate w none)
  unfolding try_validator
  try-Handled target duration ultimate w not_root k = go seen.0 (Bool-cases seen.1)
    where
      cs : List RegisteredChainConfig
      cs = get_copy_all_chain_configs chains

      seen : Text × Bool
      seen = see_chains ctx.identity target cs ctx.is_root_user

      watched : seen.1 ≡ true → watches ctx.identity target cs ≡ true
      watched e = ground (arith, see_chains-granted ctx.identity target cs ctx.is_root_user e)

      go :
          (name : Text)
          → (seen.1 ≡ true) ⊎ (seen.1 ≡ false)
          → Handled ctx.identity cs w (
              (if is_empty name || not seen.1
                then done none
                else apply_to_validator now tf users ctx target name duration ultimate w)
              >>= λ found. done (respond_not_found ctx w found))
      go [] granted = unchanged-Handled cs (not_found ctx.is_root_user) w k
      go (c ∷ name) (inr e) = rw e (unchanged-Handled cs (not_found ctx.is_root_user) w k)
      go (c ∷ name) (inl e) =
          rw e (apply-Handled cs target (c ∷ name) duration ultimate w k (watched e))

  args-Handled :
      (args : PauseArgs) (w : Center)
      → ctx.is_root_user ≡ false
      → IsKeyed w.pusher
      → Handled ctx.identity
          (get_copy_all_chain_configs chains)
          w
          (apply_pause now tf users chains ctx args w)
  unfolding apply_pause
  args-Handled (refused response) w not_root k = unchanged-Handled _ response w k
  args-Handled (asked target duration ultimate) w not_root k =
      not_root_branch ctx.is_root_user _ _ _ not_root
        (try-Handled target duration ultimate w not_root k)
    where
      not_root_branch :
          (root other : Bool) (r r' : Run (Text × Center))
          → root ≡ false
          → Handled ctx.identity (get_copy_all_chain_configs chains) w r'
          → Handled ctx.identity
              (get_copy_all_chain_configs chains)
              w
              (if root && other then r else r')
      not_root_branch true other r r' e h = cc
      not_root_branch false other r r' e h = h

-- `/pause` of a user who is not root, while each queue stands under its own receiver, does not panic.
-- It changes the pause of no chain, and of no validator that the user does not watch on a registered
-- chain; what is silenced stays, and the queues stay under their receivers.
pub pause-Handled :
    (now : Time) (tf : TimeFormat) (users : UserRegistry) (chains : ChainRegistry)
    (ctx : TelegramUpdateCtx) (w : Center)
    → ctx.is_root_user ≡ false
    → IsKeyed w.pusher
    → Handled ctx.identity
        (get_copy_all_chain_configs chains)
        w
        (process_command_pause now tf users chains ctx w)
unfolding process_command_pause
pause-Handled now tf users chains ctx w not_root k =
    args-Handled now tf users chains ctx (read_pause_args tf ctx) w not_root k
