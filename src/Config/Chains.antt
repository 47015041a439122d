-- ===== src/Config/Chains.antt =====
-- config/chain_config.go: the chains of the configuration and their validation. The loading of the
-- files, which fills each validator's address with its key in the map, is in Load.
pub mod Valid
pub mod Examples
use validator_health_check.Prelude.{
  ℕ, suc, Bool, true, false, not, ◌||◌, ◌&&◌, List, [], ◌∷◌, Option, none, some, Text, Map, get,
  put, is_some, is_empty, is_word, one_or_more, eqb, length, map, any, ◌==◌, int_eq, text_eq, pos,
  if◌then◌else◌,
}
use validator_health_check.Config.Users.{UsersConfig, UserRecord, UserTelegramConfig}
use validator_health_check.Utils.Address.{is_valoper_address_format}

pub record ChainValidatorConfig : Type 0 where
  pub validator_operator_address : Text
  pub watchers : List Text
  pub optional_health_check_rpc : Text

pub record ChainConfig : Type 0 where
  pub chain_name : Text
  pub chain_id : Text
  pub disable : Bool
  pub priority : Bool
  pub rpcs : List Text
  pub validators : Map Text ChainValidatorConfig
  pub health_check_rpc : List Text

pub data ChainError : Type 0 where
  chain_name_missing chain_name_format chain_id_missing chain_id_format : ChainError
  empty_rpc validators_missing address_must_be_set empty_health_check_rpc rpc_required : ChainError
  address_invalid watchers_missing empty_watcher : Text → ChainError
  no_chain_config no_enabled_chain_config : ChainError
  invalid_chain_config : Text → ChainError → ChainError
  duplicate_chain_name : Text → ChainError
  watcher_incomplete watcher_does_not_exist : Text → Text → Text → ChainError

-- An early return, and what follows it.
abbrev pub or_else : Option ChainError → Option ChainError → Option ChainError
or_else none next = next
or_else (some e) next = some e

abbrev pub fail_if : Bool → ChainError → Option ChainError
fail_if true e = some e
fail_if false e = none

-- A loop that returns the first error.
unfoldable pub first_error {ℓ} : {A : Type ℓ} → (A → Option ChainError) → List A → Option ChainError
first_error check [] = none
first_error check (x ∷ xs) = or_else (check x) (first_error check xs)

-- A match of `^[\w-]+$`
abbrev pub is_name : Text → Bool
is_name = one_or_more (λ c. is_word c || eqb c b'-')

abbrev pub is_nil {ℓ} : {A : Type ℓ} → List A → Bool
is_nil [] = true
is_nil (x ∷ xs) = false

-- One round of the loop over the validators.
unfoldable pub validate_validator : ChainValidatorConfig → Option ChainError
unfolding first_error
validate_validator v =
    let address = v.validator_operator_address in
    or_else (fail_if (is_empty address) address_must_be_set) (
      or_else (fail_if (not (is_valoper_address_format address)) (address_invalid address)) (
        or_else (fail_if (is_nil v.watchers) (watchers_missing address))
          (first_error (λ w. fail_if (is_empty w) (empty_watcher address)) v.watchers)))

-- What is checked of a chain that is not disabled.
unfoldable pub validate_enabled : ChainConfig → Option ChainError
unfolding first_error
validate_enabled c = or_else (first_error (λ rpc. fail_if (is_empty rpc) empty_rpc) c.rpcs) (
    or_else (fail_if (is_nil c.validators) validators_missing) (
      or_else (first_error (λ entry. validate_validator entry.1) c.validators) (
        or_else
          (first_error (λ rpc. fail_if (is_empty rpc) empty_health_check_rpc) c.health_check_rpc)
          (fail_if (is_nil c.rpcs && is_nil c.health_check_rpc) rpc_required))))

-- `ChainConfig.Validate`
unfoldable pub validate_chain : ChainConfig → Option ChainError
unfolding validate_enabled
validate_chain c = or_else (fail_if (is_empty c.chain_name) chain_name_missing) (
    or_else (fail_if (not (is_name c.chain_name)) chain_name_format) (
      or_else (fail_if (is_empty c.chain_id) chain_id_missing) (
        or_else (fail_if (not (is_name c.chain_id)) chain_id_format)
          (if c.disable then none else validate_enabled c))))

-- `errors.Wrapf`
abbrev pub wrap : Text → Option ChainError → Option ChainError
wrap name none = none
wrap name (some e) = some (invalid_chain_config name e)

abbrev pub lacks_telegram : Option UserTelegramConfig → Bool
lacks_telegram none = true
lacks_telegram (some t) = (t.user_id == pos 0) || is_empty t.username || is_empty t.token

-- The check on a watcher, with the record found for it.
abbrev pub check_watcher : Text → Text → Text → Option UserRecord → Option ChainError
check_watcher chain valoper watcher none = some (watcher_does_not_exist watcher chain valoper)
check_watcher chain valoper watcher (some r) =
    fail_if (lacks_telegram r.telegram_config) (watcher_incomplete watcher chain valoper)

unfoldable pub check_watchers : UsersConfig → ChainConfig → Option ChainError
unfolding first_error
check_watchers users c =
    first_error
      (λ entry.
        first_error
          (λ watcher.
            check_watcher c.chain_name entry.1.validator_operator_address watcher
              (get watcher users.users))
          entry.1.watchers)
      c.validators

-- The loop over the chains: `uniqueChainNames` and `notDisabledCount` so far.
unfoldable pub see_chains : UsersConfig → List ChainConfig → Map Text Bool → ℕ → Option ChainError
see_chains users [] seen count = fail_if (eqb count 0) no_enabled_chain_config
see_chains users (c ∷ cs) seen count = or_else (wrap c.chain_name (validate_chain c)) (
    or_else (fail_if (is_some (get c.chain_name seen)) (duplicate_chain_name c.chain_name)) (
      or_else (check_watchers users c) (
        see_chains users cs (put c.chain_name true seen) (if c.disable then count else suc count))))

-- `ChainsConfig.Validate`
unfoldable pub validate_chains : UsersConfig → List ChainConfig → Option ChainError
unfolding see_chains
validate_chains users [] = some no_chain_config
validate_chains users (c ∷ cs) = see_chains users (c ∷ cs) [] 0
