-- ===== src/Worker/Validator.antt =====
-- work/health_check_worker/worker.go: the check of each validator of a chain.
pub mod Additive
pub mod Examples
use validator_health_check.Prelude.{
  ℕ, pos, Bool, true, false, List, [], ◌∷◌, ◌++◌, Option, none, some, Text, text, Map, get, Run,
  done, eqb, if◌then◌else◌, text_eq,
}
use validator_health_check.Registry.Chains.{ValidatorOfRegisteredChainConfig}
use validator_health_check.CallCenter.Context.{concat}
use validator_health_check.Worker.Outside.{
  World, BondStatus, bonded, unbonding, unbonded, other_status, StakingValidator, SigningInfo,
  SlashingParams,
}
use validator_health_check.Worker.Cache.{
  CacheValidatorHealthCheck, empty_cache, put_cache_validator_health_check,
}
use validator_health_check.Worker.State.{
  Services, M, pure, then_run, ◌>>=◌, ◌>>◌, changes, read_clock, is_paused_now, Channel,
}
use validator_health_check.Worker.Signing.{Checked, tell_watchers, check_signing}
use validator_health_check.Worker.Direct.{check_direct}

-- What is fetched of the chain before its validators are checked; the signing information is `none`
-- if fetching it failed.
pub record Fetched : Type 0 where
  pub staking_validators : Map Text StakingValidator
  pub ranks : Map Text ℕ
  pub signing_infos : Option (Map Text SigningInfo)
  pub slashing_params : Option SlashingParams

abbrev rank_text : World → ℕ → Text
rank_text w rank =
    if eqb rank 0 then [] else text " Rank " ++ (w.printing.print_int (pos rank) ++ text ".")

-- The switch over the bond status.
unfoldable pub check_bond_status : World → Checked → ℕ → BondStatus → M (Unit {0})
check_bond_status w k rank bonded = pure tt
check_bond_status w k rank unbonded =
    tell_watchers w k
      (concat (
        text "validator "
        ∷ k.moniker
        ∷ text " is un-bonded! Tombstoned?\nUse [/pause "
        ∷ k.validator.validator_operator_address
        ∷ text "] to pause health-checking this validator"
        ∷ []))
      true
check_bond_status w k rank unbonding =
    tell_watchers w k
      (concat (
        text "validator "
        ∷ k.moniker
        ∷ text " is unbonding! Fall-out of active set? Was jailed?"
        ∷ rank_text w rank
        ∷ []))
      true
check_bond_status w k rank (other_status n) =
    tell_watchers w k (text "unknown bond status " ++ w.printing.print_status (other_status n)) true

abbrev pub rank_or_zero : Option ℕ → ℕ
rank_or_zero none = 0
rank_or_zero (some rank) = rank

abbrev pub started_cache : Text → ℕ → StakingValidator → CacheValidatorHealthCheck
started_cache valoper rank sv = record (empty_cache valoper) {
  rank = pos rank;
  moniker = sv.moniker;
  bond_status = some sv.status;
}

-- What is put into the cache at the end.
abbrev pub keep_result : World → CacheValidatorHealthCheck → M (Unit {0})
keep_result w cache = do
  now ← read_clock w
  changes
      (λ s. record s { health_checks = put_cache_validator_health_check now cache s.health_checks })

abbrev pub check_staking : World → Checked → Fetched → ℕ → StakingValidator → M (Unit {0})
check_staking w k f rank sv = do
  check_bond_status w k rank sv.status
  cache ←
      check_signing w k f.signing_infos f.slashing_params
        (started_cache k.validator.validator_operator_address rank sv)
  check_direct w k
  keep_result w cache

abbrev pub check_found :
    World
    → Channel
    → ValidatorOfRegisteredChainConfig
    → Fetched
    → Option StakingValidator
    → M (Unit {0})
check_found w c v f none =
    tell_watchers w (record { channel = c; validator = v; moniker = [] })
      (text "validator not found") false
check_found w c v f (some sv) =
    check_staking w (record { channel = c; validator = v; moniker = sv.moniker }) f
      (rank_or_zero (get v.validator_operator_address f.ranks)) sv

abbrev pub unless_paused : M (Unit {0}) → Bool → M (Unit {0})
unless_paused m paused = if paused then pure tt else m

-- One round of the loop.
unfoldable pub check_validator :
    World → Channel → Fetched → ValidatorOfRegisteredChainConfig → M (Unit {0})
unfolding check_bond_status check_signing check_direct
check_validator w c f v =
    is_paused_now w v.validator_operator_address
    >>= unless_paused (check_found w c v f (get v.validator_operator_address f.staking_validators))

unfoldable pub check_validators :
    World → Channel → Fetched → List ValidatorOfRegisteredChainConfig → M (Unit {0})
unfolding check_validator
check_validators w c f [] = pure tt
check_validators w c f (v ∷ vs) = check_validator w c f v >> check_validators w c f vs
