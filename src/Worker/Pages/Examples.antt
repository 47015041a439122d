-- ===== src/Worker/Pages/Examples.antt =====
-- A node that refuses the first attempt of each call.
use validator_health_check.Prelude.{
  ℕ, zero, suc, List, [], ◌∷◌, Text, text, pos, false, seconds, has_key, text_beq, text_eq, arith,
  refl,
}
use validator_health_check.Utils.Retry.{Result, ok, err}
use validator_health_check.Worker.Outside.{World, Page, StakingValidator, SigningInfo, bonded}
use validator_health_check.Worker.Sample.{world, encoding, idle}
use validator_health_check.Worker.Pages.{
  validators_listing, signing_infos_listing, get_all_validators, get_all_signing_infos,
}
use validator_health_check.Worker.Pages.Complete.{
  items_of, page_at, start_at, AreKeyed, Gathers, Holds, get_all-Gathers,
}

abbrev validator : Text → StakingValidator
validator operator = record {
  operator_address = operator;
  moniker = operator;
  consensus_pubkey = operator;
  status = bonded;
  tokens = pos 7;
}

abbrev validators : List (Text × StakingValidator)
validators =
    (text "k1", validator (text "junovaloper1a"))
    ∷ (text "k2", validator (text "junovaloper1b"))
    ∷ []

abbrev info : SigningInfo
info = record {
  address = text "junovalcons1a";
  tombstoned = false;
  jailed_until = seconds 10;
  missed_blocks_counter = pos 3;
}

abbrev signing_infos : List (Text × SigningInfo)
signing_infos = (text "k1", info) ∷ []

-- The response is the request, and reading it looks the page up.
abbrev answer : {A : Type 0} → List (Text × A) → Text → Result (Page A) Text
answer entries [] = err (text "no request")
answer entries (limit ∷ key) = ok (page_at limit (start_at key entries))

abbrev refuse_first : Text → ℕ → Result Text Text
refuse_first request zero = err (text "unavailable")
refuse_first request (suc n) = ok request

abbrev node_world : World
node_world = record (world λ client. err (text "no status")) {
  encoding = record encoding {
    unmarshal_validators_response = answer validators;
    unmarshal_signing_infos_response = answer signing_infos;
  };
  abci_query = λ tick client path request n. refuse_first request n;
}

Holds-validators : Holds node_world (text "http://a:80") (validators_listing node_world) validators
Holds-validators tick key =
    (200 ∷ key, (refl, (1, (omega arith, ((text "unavailable", refl), refl)))))

Holds-signing_infos :
    Holds node_world (text "http://a:80") (signing_infos_listing node_world) signing_infos
Holds-signing_infos tick key =
    (200 ∷ key, (refl, (1, (omega arith, ((text "unavailable", refl), refl)))))

validators-AreKeyed : AreKeyed validators
unfolding has_key text_beq
validators-AreKeyed = ground arith

signing_infos-AreKeyed : AreKeyed signing_infos
unfolding has_key text_beq
signing_infos-AreKeyed = ground arith

get_all-Gathers_example :
    Gathers (items_of validators) (get_all_validators node_world 3 (text "http://a:80") idle)
    × Gathers
        (items_of signing_infos)
        (get_all_signing_infos node_world 3 (text "http://a:80") idle)
get_all-Gathers_example =
    get_all-Gathers node_world (text "http://a:80") validators signing_infos 3 idle
      validators-AreKeyed signing_infos-AreKeyed Holds-validators Holds-signing_infos (omega arith)
      (omega arith)
