-- ===== src/Registry/Addresses.antt =====
-- registry/validator_address_registry/validator_address_registry.go: the addresses that belong to a
-- validator. Each operation holds the lock from start to end.
pub mod Pairs
use validator_health_check.Prelude.{Option, none, some, [], Text, Map, get, put, text_eq}

pub record AddressRegistry : Type 0 where
  pub valoper_to_valcons : Map Text (Map Text Text)
  pub valcons_to_valoper : Map Text (Map Text Text)
  pub valoper_to_address : Map Text Text

abbrev pub no_addresses : AddressRegistry
no_addresses = record { valoper_to_valcons = []; valcons_to_valoper = []; valoper_to_address = [] }

-- The map of a chain, made empty if it is missing.
abbrev pub mapper_of : Option (Map Text Text) → Map Text Text
mapper_of none = []
mapper_of (some m) = m

-- `m[chainName][key] = value`, after the inner map is made if it is missing
abbrev pub put_in_chain : Text → Text → Text → Map Text (Map Text Text) → Map Text (Map Text Text)
put_in_chain chain_name key value m =
    put chain_name (put key value (mapper_of (get chain_name m))) m

unfoldable pub register_pair_val_address : Text → Text → Text → AddressRegistry → AddressRegistry
register_pair_val_address chain_name valoper valcons a = record a {
  valoper_to_valcons = put_in_chain chain_name valoper valcons a.valoper_to_valcons;
  valcons_to_valoper = put_in_chain chain_name valcons valoper a.valcons_to_valoper;
}

unfoldable pub register_pair_val_address_to_address :
    Text → Text → AddressRegistry → AddressRegistry
register_pair_val_address_to_address valoper addr a = record a {
  valoper_to_address = put valoper addr a.valoper_to_address;
}

abbrev pub get_in_chain : Text → Option (Map Text Text) → Option Text
get_in_chain key none = none
get_in_chain key (some mapper) = get key mapper

unfoldable pub get_valcons_by_valoper : Text → Text → AddressRegistry → Option Text
get_valcons_by_valoper chain_name valoper a =
    get_in_chain valoper (get chain_name a.valoper_to_valcons)

unfoldable pub get_address_by_valoper : Text → AddressRegistry → Option Text
get_address_by_valoper valoper a = get valoper a.valoper_to_address
