-- ===== src/Registry/Chains.antt =====
-- registry/chain_registry/{registered_chain_config,chain_registry}.go: the enabled chains, the order
-- of their health-checks, and the endpoints that answered last. The map owns the registered
-- configs: the changes that the code makes through a shared pointer are made in the map, to the
-- config that stands under the chain's name. Each operation but the choice of the next chain holds its
-- lock from start to end, and each reads the clock once, as `now`. `sort.Slice` is `sorter`.
pub mod Order
pub mod Picks
pub mod Races
pub mod Reload
pub mod Examples
use validator_health_check.Prelude.{
  ℕ, Bool, true, false, not, ◌||◌, ◌&&◌, List, [], ◌∷◌, ◌++◌, Option, none, some, Text, Map, get,
  put, is_some, is_empty, ltb, eqb, leb_ℤ, Time, zero_time, Duration, since, map, SortSlice, ◌==◌,
  text_eq, if◌then◌else◌,
}
use validator_health_check.Config.Users.{UsersConfig}
use validator_health_check.Config.Chains.{
  ChainConfig, ChainValidatorConfig, ChainError, validate_chains,
}
use validator_health_check.Registry.Pauser.{Pauser, is_chain_paused}
use validator_health_check.Utils.Http.{replace_any_scheme_with_http, normalize_rpc_endpoint}
use validator_health_check.Utils.Slices.{distinct}

pub record ValidatorOfRegisteredChainConfig : Type 0 where
  pub validator_operator_address : Text
  pub watchers_identity : List Text
  pub optional_health_check_rpc : Text

pub record RegisteredChainConfig : Type 0 where
  pub chain_name : Text
  pub chain_id : Text
  pub priority : Bool
  pub rpc : List Text
  pub validators : List ValidatorOfRegisteredChainConfig
  pub health_check_rpc : List Text
  pub last_health_check_utc : Time

abbrev pub normalize_rpc : Text → Text
normalize_rpc rpc =
    if is_empty rpc then rpc else normalize_rpc_endpoint (replace_any_scheme_with_http rpc)

abbrev register_validator : ChainValidatorConfig → ValidatorOfRegisteredChainConfig
register_validator v = record {
  validator_operator_address = v.validator_operator_address;
  watchers_identity = v.watchers;
  optional_health_check_rpc = normalize_rpc v.optional_health_check_rpc;
}

unfoldable pub new_registered_chain_config : ChainConfig → RegisteredChainConfig
new_registered_chain_config c = record {
  chain_name = c.chain_name;
  chain_id = c.chain_id;
  priority = c.priority;
  rpc = map normalize_rpc (distinct (c.rpcs ++ c.health_check_rpc));
  validators = map (λ entry. register_validator entry.1) c.validators;
  health_check_rpc = map normalize_rpc c.health_check_rpc;
  last_health_check_utc = zero_time;
}

abbrev pub without : Text → List Text → List Text
without rpc [] = []
without rpc (r ∷ rs) = if r == rpc then without rpc rs else r ∷ without rpc rs

-- `InformPriorityLatestHealthyRpcWL`
unfoldable pub inform_priority_latest_healthy_rpc : Text → List Text → List Text
inform_priority_latest_healthy_rpc rpc [] = []
inform_priority_latest_healthy_rpc rpc (r ∷ rs) = rpc ∷ without rpc (r ∷ rs)

-- `<` on strings
unfoldable pub text_ltb : Text → Text → Bool
text_ltb _ [] = false
text_ltb [] (b ∷ t) = true
text_ltb (a ∷ s) (b ∷ t) = ltb a b || (eqb a b && text_ltb s t)

abbrev bool_beq : Bool → Bool → Bool
bool_beq a b = if a then b else not b

-- The `less` of `Sort`.
unfoldable pub more_urgent : RegisteredChainConfig → RegisteredChainConfig → Bool
unfolding text_ltb
more_urgent left right =
    if bool_beq left.priority right.priority
    then text_ltb left.chain_name right.chain_name
    else left.priority

pub record ChainRegistry : Type 0 where
  pub chain_name_to_chain_config : Map Text RegisteredChainConfig
  pub watcher_identity_to_chain_name_to_valoper : Map Text (Map Text (List Text))

abbrev pub no_chains : ChainRegistry
no_chains = record {
  chain_name_to_chain_config = [];
  watcher_identity_to_chain_name_to_valoper = [];
}

abbrev pub list_of {ℓ} : {A : Type ℓ} → Option (List A) → List A
list_of none = []
list_of (some xs) = xs

-- `m[watcher][chainName] = append(m[watcher][chainName], valoper)`, for each watcher.
unfoldable pub put_watchers :
    Text → Text → List Text → Map Text (Map Text (List Text)) → Map Text (Map Text (List Text))
put_watchers chain_name valoper [] m = m
put_watchers chain_name valoper (watcher ∷ watchers) m =
    let of_watcher = list_of (get watcher m) in
    let valopers = list_of (get chain_name of_watcher) in
    put_watchers chain_name valoper watchers
      (put watcher (put chain_name (valopers ++ valoper ∷ []) of_watcher) m)

unfoldable pub put_validators :
    Text
    → Map Text ChainValidatorConfig
    → Map Text (Map Text (List Text))
    → Map Text (Map Text (List Text))
unfolding put_watchers
put_validators chain_name [] m = m
put_validators chain_name ((key, v) ∷ vs) m =
    put_validators chain_name vs (put_watchers chain_name v.validator_operator_address v.watchers m)

-- One round of the loop that puts the new data.
unfoldable pub put_chain : ChainConfig → ChainRegistry → ChainRegistry
unfolding put_validators
put_chain c s = record {
  chain_name_to_chain_config =
      put c.chain_name (new_registered_chain_config c) s.chain_name_to_chain_config;
  watcher_identity_to_chain_name_to_valoper =
      put_validators c.chain_name c.validators s.watcher_identity_to_chain_name_to_valoper;
}

unfoldable pub put_chains : List ChainConfig → ChainRegistry → ChainRegistry
unfolding put_chain
put_chains [] s = s
put_chains (c ∷ cs) s = put_chains cs (if c.disable then s else put_chain c s)

-- `UpdateChainsConfigWL`, with the result of `chainConfigs.Validate(usersConfig)`.
unfoldable pub update_validated :
    Option ChainError → List ChainConfig → ChainRegistry → Option ChainError × ChainRegistry
unfolding put_chains
update_validated (some e) cs s = (some e, s)
update_validated none [] s = (none, s)
update_validated none (c ∷ cs) s = (none, put_chains (c ∷ cs) no_chains)

unfoldable pub update_chains_config :
    UsersConfig → List ChainConfig → ChainRegistry → Option ChainError × ChainRegistry
unfolding update_validated
update_chains_config users cs s = update_validated (validate_chains users cs) cs s

unfoldable pub get_copy_all_chain_configs : ChainRegistry → List RegisteredChainConfig
get_copy_all_chain_configs s = map (λ entry. entry.1) s.chain_name_to_chain_config

unfoldable pub has_chain : Text → ChainRegistry → Bool
has_chain chain_name s = is_some (get chain_name s.chain_name_to_chain_config)

-- The loop over the sorted chains: the first that is not paused and whose last check is long enough
-- ago.
unfoldable pub find_due :
    Time → Duration → Pauser → List RegisteredChainConfig → Option RegisteredChainConfig
find_due now min_duration p [] = none
find_due now min_duration p (c ∷ cs) =
    let rest = find_due now min_duration p cs in
    if (is_chain_paused now c.chain_name p).0
    then rest
    else if leb_ℤ min_duration (since now c.last_health_check_utc)
    then some c
    else rest

-- `SetLastHealthCheckUtcWL`, on the config that the map holds for the chain.
unfoldable pub set_last_health_check_utc :
    Time → Text → Map Text RegisteredChainConfig → Map Text RegisteredChainConfig
set_last_health_check_utc now chain_name [] = []
set_last_health_check_utc now chain_name ((k, c) ∷ m) =
    (k, if k == chain_name then record c { last_health_check_utc = now } else c)
    ∷ set_last_health_check_utc now chain_name m

unfoldable pub take_chain :
    Time
    → Option RegisteredChainConfig
    → ChainRegistry
    → Option RegisteredChainConfig × ChainRegistry
unfolding set_last_health_check_utc
take_chain now none s = (none, s)
take_chain now (some c) s = (
  some (record c { last_health_check_utc = now }),
  record s {
    chain_name_to_chain_config =
        set_last_health_check_utc now c.chain_name s.chain_name_to_chain_config;
  },
)

-- The call holds the read lock only, which other workers can hold as well: `others` is what their
-- calls do to the configs between the test and the mark.
unfoldable pub get_first_chain_config_for_health_check :
    SortSlice RegisteredChainConfig
    → Time
    → Duration
    → Pauser
    → (ChainRegistry → ChainRegistry)
    → ChainRegistry
    → Option RegisteredChainConfig × ChainRegistry
unfolding find_due take_chain get_copy_all_chain_configs
get_first_chain_config_for_health_check sorter now min_duration p others s =
    let all_chains_config = sorter.sort_slice more_urgent (get_copy_all_chain_configs s) in
    take_chain now (find_due now min_duration p all_chains_config) (others s)
