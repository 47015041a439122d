-- ===== src/Worker/Mapping.antt =====
-- work/health_check_worker/worker.go: `reloadMappingValAddressIfNeeded`, the consensus addresses of
-- the validators of a chain.
use validator_health_check.Prelude.{
  Bool, false, not, ◌||◌, List, [], ◌∷◌, Option, none, some, Text, Run, done, panic, ◌>>=◌, is_some,
  if◌then◌else◌,
}
use validator_health_check.Utils.Retry.{Result, ok, err}
use validator_health_check.Utils.Address.{get_valcons_hrp_from_valoper_hrp}
use validator_health_check.Registry.Addresses.{
  AddressRegistry, get_valcons_by_valoper, register_pair_val_address,
}
use validator_health_check.Registry.Chains.{RegisteredChainConfig, ValidatorOfRegisteredChainConfig}
use validator_health_check.Worker.Outside.{World, StakingValidator}

-- Some validator of the configuration has no consensus address in the mapping.
unfoldable pub is_reload_needed :
    Text → List ValidatorOfRegisteredChainConfig → AddressRegistry → Bool
is_reload_needed chain_name [] a = false
is_reload_needed chain_name (v ∷ vs) a =
    not (is_some (get_valcons_by_valoper chain_name v.validator_operator_address a))
    || is_reload_needed chain_name vs a

abbrev pub register_encoded : Text → Text → Result Text Text → AddressRegistry → AddressRegistry
register_encoded chain_name valoper (err e) a = a
register_encoded chain_name valoper (ok valcons) a =
    register_pair_val_address chain_name valoper valcons a

-- A prefix that is not one of an operator address is a panic.
abbrev pub register_hrp :
    World → Text → Text → Text → Option Text → AddressRegistry → Run AddressRegistry
register_hrp w chain_name valoper cons_addr none a = panic
register_hrp w chain_name valoper cons_addr (some valcons_hrp) a =
    done
      (register_encoded chain_name valoper (w.encoding.convert_and_encode valcons_hrp cons_addr) a)

-- One round of the loop over the chain's validators.
abbrev pub register_validator :
    World → Text → StakingValidator → Option Text → AddressRegistry → Run AddressRegistry
register_validator w chain_name v none a = done a
register_validator w chain_name v (some cons_addr) a =
    register_hrp w chain_name v.operator_address cons_addr
      (get_valcons_hrp_from_valoper_hrp v.operator_address) a

unfoldable pub register_validators :
    World → Text → List StakingValidator → AddressRegistry → Run AddressRegistry
register_validators w chain_name [] a = done a
register_validators w chain_name (v ∷ vs) a = do
  a' ← register_validator w chain_name v (w.encoding.consensus_address v.consensus_pubkey) a
  register_validators w chain_name vs a'

unfoldable pub reload_mapping_val_address_if_needed :
    World → RegisteredChainConfig → List StakingValidator → AddressRegistry → Run AddressRegistry
unfolding is_reload_needed register_validators
reload_mapping_val_address_if_needed w c staking_validators a =
    if is_reload_needed c.chain_name c.validators a
    then register_validators w c.chain_name staking_validators a
    else done a
