-- ===== src/Registry/Addresses/Pairs.antt =====
-- What is registered is found.
use validator_health_check.Prelude.{
  Text, some, ◌==◌, ◌&&◌, ==_iff, text_eq, get-put, get-nil, get, put, if◌then◌else◌, arith, ◌≡◌,
}
use validator_health_check.Registry.Addresses.{
  AddressRegistry, register_pair_val_address, get_valcons_by_valoper, get_address_by_valoper,
  register_pair_val_address_to_address, mapper_of,
}

-- A lookup finds the consensus address registered last for the chain and the validator; what was
-- registered for another chain or another validator, and the account addresses, stay.
pub get_valcons-register :
    (chain_name valoper valcons other_chain other : Text) (a : AddressRegistry)
    → (get_valcons_by_valoper other_chain other
          (register_pair_val_address chain_name valoper valcons a)
        ≡ (if (chain_name == other_chain) && (valoper == other)
            then some valcons
            else get_valcons_by_valoper other_chain other a))
      × (get_address_by_valoper other (register_pair_val_address chain_name valoper valcons a)
          ≡ get_address_by_valoper other a)
unfolding register_pair_val_address get_valcons_by_valoper get_address_by_valoper
get_valcons-register chain_name valoper valcons other_chain other a = ground (
  arith,
  ==_iff chain_name other_chain,
  get-put chain_name other_chain
      (put valoper valcons (mapper_of (get chain_name a.valoper_to_valcons))) a.valoper_to_valcons,
  get-nil {V = Text} other,
  get-put valoper other valcons (mapper_of (get chain_name a.valoper_to_valcons)),
)

pub get_address-register :
    (valoper addr other : Text) (a : AddressRegistry)
    → get_address_by_valoper other (register_pair_val_address_to_address valoper addr a)
      ≡ (if valoper == other then some addr else get_address_by_valoper other a)
unfolding register_pair_val_address_to_address get_address_by_valoper
get_address-register valoper addr other a = get-put valoper other addr a.valoper_to_address
