-- ===== src/Utils/Examples.antt =====
-- Endpoints, addresses and slices as they occur in a configuration.
use validator_health_check.Prelude.{
  true, false, List, [], ◌∷◌, Text, text, any, eqb, ◌≡◌, refl, text_eq, text_beq,
}
use validator_health_check.Utils.Http.{normalize_rpc_endpoint, ends_with_port}
use validator_health_check.Utils.Address.{is_valoper_address_format}

normalize_adds_port :
    normalize_rpc_endpoint (text "https://rpc.juno.network/") ≡ text "https://rpc.juno.network:443"
unfolding normalize_rpc_endpoint ends_with_port text_beq
normalize_adds_port = refl

valoper_is_recognised :
    is_valoper_address_format (text "cosmosvaloper18ruzecmqj9pv8ac0gvkgryuc7u004te9rh7w5s") ≡ true
unfolding is_valoper_address_format
valoper_is_recognised = refl

no_ones : any (eqb b'1') (text "qpzry") ≡ false
unfolding any
no_ones = refl

abbrev names : List Text
names = text "alice" ∷ text "bob" ∷ text "alice" ∷ []
