-- ===== src/Worker/Validator/Additive.antt =====
-- The checks of the validators of a chain do not panic and only add to the queues.
use validator_health_check.Prelude.{
  ℕ, Bool, true, false, List, [], ◌∷◌, Option, none, some, Text, All, is_empty, get, text_eq, refl,
  ◌≡◌,
}
use validator_health_check.Registry.Chains.{ValidatorOfRegisteredChainConfig}
use validator_health_check.Push.Pusher.Enqueue.{IsKeyed}
use validator_health_check.Worker.Messages.Fatal.{HaveTelegram}
use validator_health_check.Worker.Outside.{
  World, BondStatus, bonded, unbonding, unbonded, other_status, StakingValidator,
}
use validator_health_check.Worker.Cache.{CacheValidatorHealthCheck}
use validator_health_check.Worker.State.{Services, M, ◌>>◌, Channel, read_clock, is_paused_now}
use validator_health_check.Worker.Steps.{
  Adds, IsAdditive, skip-IsAdditive, >>=-IsAdditive, read_clock-IsAdditive, leaves-IsAdditive,
  is_paused_now-IsAdditive,
}
use validator_health_check.Worker.Slashing.{AreInRange}
use validator_health_check.Worker.Signing.{Checked, check_signing}
use validator_health_check.Worker.Signing.Additive.{
  tell_watchers-IsAdditive, check_signing-IsAdditive,
}
use validator_health_check.Worker.Direct.{check_direct, check_managed}
use validator_health_check.Worker.Direct.Additive.{
  check_direct-IsAdditive, check_managed-IsAdditive,
}
use validator_health_check.Worker.Validator.{
  Fetched, check_bond_status, started_cache, keep_result, check_staking, check_found, unless_paused,
  check_validator, check_validators,
}

module _ (w : World) (c : Channel) (have : HaveTelegram c.records)
    (websockets : (client : Text) → w.has_websocket client ≡ true) where
  check_bond_status-IsAdditive :
      (v : ValidatorOfRegisteredChainConfig) (moniker : Text) (rank : ℕ) (status : BondStatus)
      → IsAdditive (
          check_bond_status w
            (record { channel = c; validator = v; moniker = moniker })
            rank
            status)
  unfolding check_bond_status
  check_bond_status-IsAdditive v moniker rank bonded = skip-IsAdditive
  check_bond_status-IsAdditive v moniker rank unbonded =
      tell_watchers-IsAdditive w (record { channel = c; validator = v; moniker = moniker }) have _ _
  check_bond_status-IsAdditive v moniker rank unbonding =
      tell_watchers-IsAdditive w (record { channel = c; validator = v; moniker = moniker }) have _ _
  check_bond_status-IsAdditive v moniker rank (other_status n) =
      tell_watchers-IsAdditive w (record { channel = c; validator = v; moniker = moniker }) have _ _

  keep_result-IsAdditive : (cache : CacheValidatorHealthCheck) → IsAdditive (keep_result w cache)
  keep_result-IsAdditive cache =
      >>=-IsAdditive (read_clock w) _ (read_clock-IsAdditive w)
        λ now. leaves-IsAdditive _ λ s. (refl, refl, refl, refl, refl, refl)

  check_staking-IsAdditive :
      (v : ValidatorOfRegisteredChainConfig) (f : Fetched) (rank : ℕ) (sv : StakingValidator)
      → AreInRange w.numbers f.slashing_params
      → IsAdditive
          (check_staking w (record { channel = c; validator = v; moniker = sv.moniker }) f rank sv)
  check_staking-IsAdditive v f rank sv range =
      >>=-IsAdditive (check_bond_status w k rank sv.status) _
        (check_bond_status-IsAdditive v sv.moniker rank sv.status)
        λ _.
          >>=-IsAdditive (check_signing w k f.signing_infos f.slashing_params _) _
            (check_signing-IsAdditive w k have f.signing_infos f.slashing_params
              (started_cache v.validator_operator_address rank sv) range)
            λ cache.
              >>=-IsAdditive (check_direct w k) _ (check_direct-IsAdditive w websockets k have)
                λ _. keep_result-IsAdditive cache
    where
      k : Checked
      k = record { channel = c; validator = v; moniker = sv.moniker }

  check_found-IsAdditive :
      (v : ValidatorOfRegisteredChainConfig) (f : Fetched) (found : Option StakingValidator)
      → AreInRange w.numbers f.slashing_params
      → IsAdditive (check_found w c v f found)
  check_found-IsAdditive v f none range =
      tell_watchers-IsAdditive w (record { channel = c; validator = v; moniker = [] }) have _ _
  check_found-IsAdditive v f (some sv) range = check_staking-IsAdditive v f _ sv range

  pub unless_paused-IsAdditive :
      (m : M (Unit {0})) (paused : Bool) → IsAdditive m → IsAdditive (unless_paused m paused)
  unless_paused-IsAdditive m true h = skip-IsAdditive
  unless_paused-IsAdditive m false h = h

  check_validator-IsAdditive :
      (f : Fetched) (v : ValidatorOfRegisteredChainConfig)
      → AreInRange w.numbers f.slashing_params
      → IsAdditive (check_validator w c f v)
  unfolding check_validator
  check_validator-IsAdditive f v range =
      >>=-IsAdditive (is_paused_now w v.validator_operator_address) _
        (is_paused_now-IsAdditive w v.validator_operator_address)
        λ paused.
          unless_paused-IsAdditive _ paused (
            check_found-IsAdditive v f (get v.validator_operator_address f.staking_validators)
              range)

  pub check_validators-IsAdditive :
      (f : Fetched) (vs : List ValidatorOfRegisteredChainConfig)
      → AreInRange w.numbers f.slashing_params
      → IsAdditive (check_validators w c f vs)
  unfolding check_validators
  check_validators-IsAdditive f [] range = skip-IsAdditive
  check_validators-IsAdditive f (v ∷ vs) range =
      >>=-IsAdditive (check_validator w c f v) _ (check_validator-IsAdditive f v range)
        λ _. check_validators-IsAdditive f vs range

  -- The checks of the validators of a chain and of its managed endpoints do not panic, whatever the
  -- nodes answer, if every client has a websocket client, the sdk can compute with the decimals of the
  -- fetched slashing parameters, every user they write to has a telegram section, each queue stands
  -- under its own receiver and no managed endpoint is empty. They only add at the end of
  -- the queues, and leave the users, the chains, the pauses, the addresses and the recorded votes as
  -- they were.
  pub checks-Adds :
      (f : Fetched) (vs : List ValidatorOfRegisteredChainConfig) (all_watchers rpcs : List Text)
      (s : Services)
      → AreInRange w.numbers f.slashing_params
      → All (λ rpc. is_empty rpc ≡ false) rpcs
      → IsKeyed s.pusher
      → Adds s ((check_validators w c f vs >> check_managed w c all_watchers rpcs) s)
  checks-Adds f vs all_watchers rpcs s range full keyed =
      (>>=-IsAdditive (check_validators w c f vs) (λ _. check_managed w c all_watchers rpcs)
          (check_validators-IsAdditive f vs range)
          λ _. check_managed-IsAdditive w websockets c have all_watchers rpcs full).adds
        s keyed
