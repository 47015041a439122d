-- ===== src/Config/Chains/Examples.antt =====
-- One chain with one validator, watched by one user.
use validator_health_check.Prelude.{
  true, false, [], ◌∷◌, none, some, Text, text, pos, get, put, all, any, text_beq, ◌≡◌, refl,
  has_prefix,
}
use validator_health_check.Config.Users.{UsersConfig, UserRecord, UserTelegramConfig}
use validator_health_check.Config.Chains.{
  ChainConfig, ChainValidatorConfig, validate_chains, see_chains, validate_chain, validate_enabled,
  validate_validator, check_watchers, first_error,
}
use validator_health_check.Config.Chains.Valid.{IsValid, validate_chains-IsValid}
use validator_health_check.Utils.Address.{is_valoper_address_format}

abbrev dave_telegram : UserTelegramConfig
dave_telegram = record { username = text "dave_tg"; user_id = pos 45; token = text "126:abc" }

abbrev dave : UserRecord
dave = record { identity = text "dave"; root = true; telegram_config = some dave_telegram }

abbrev users : UsersConfig
users = record { users = (text "dave", dave) ∷ [] }

abbrev valoper : Text
valoper = text "cosmosvaloper18ruzecmqj9pv8ac0gvkgryuc7u004te9rh7w5s"

abbrev validator : ChainValidatorConfig
validator = record {
  validator_operator_address = valoper;
  watchers = text "dave" ∷ [];
  optional_health_check_rpc = [];
}

abbrev cosmos : ChainConfig
cosmos = record {
  chain_name = text "cosmos";
  chain_id = text "cosmoshub-4";
  disable = false;
  priority = true;
  rpcs = text "http://localhost:26657" ∷ [];
  validators = (valoper, validator) ∷ [];
  health_check_rpc = [];
}

cosmos-valid : validate_chains users (cosmos ∷ []) ≡ none
unfolding validate_chains validate_chain validate_enabled validate_validator check_watchers
    first_error see_chains is_valoper_address_format get put all any text_beq has_prefix
cosmos-valid = refl

validate_chains-IsValid_example : IsValid users (cosmos ∷ [])
validate_chains-IsValid_example = validate_chains-IsValid users (cosmos ∷ []) cosmos-valid
