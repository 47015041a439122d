-- ===== src/Registry/Chains/Examples.antt =====
-- A configuration with one chain, and a registry with two.
use validator_health_check.Prelude.{
  ◌+◌, ◌≤◌, true, false, not, List, [], ◌∷◌, Option, none, some, Text, text, pos, Time, zero_time,
  seconds, get, put, all, any, text_beq, ◌≡◌, refl, arith, has_prefix, All, by_insertion,
  insertion_sort, text_eq, since,
}
use validator_health_check.Config.Users.{UsersConfig, UserRecord, UserTelegramConfig}
use validator_health_check.Config.Chains.{
  ChainConfig, ChainValidatorConfig, validate_chains, see_chains, validate_chain, validate_enabled,
  validate_validator, check_watchers, first_error,
}
use validator_health_check.Utils.Address.{is_valoper_address_format}
use validator_health_check.Registry.Pauser.{nothing_paused, is_chain_paused}
use validator_health_check.Registry.Chains.{
  ChainRegistry, RegisteredChainConfig, no_chains, update_chains_config, update_validated,
  get_copy_all_chain_configs, get_first_chain_config_for_health_check, find_due, take_chain,
  set_last_health_check_utc,
}
use validator_health_check.Registry.Chains.Picks.{
  MostUrgentDue, Picked, is_due, first-MostUrgentDue,
}
use validator_health_check.Registry.Chains.Races.{Mark, Call, call, marks, picks_spaced}
use validator_health_check.Registry.Chains.Reload.{update-due}

abbrev erin_telegram : UserTelegramConfig
erin_telegram = record { username = text "erin_tg"; user_id = pos 46; token = text "127:abc" }

abbrev erin : UserRecord
erin = record { identity = text "erin"; root = true; telegram_config = some erin_telegram }

abbrev users : UsersConfig
users = record { users = (text "erin", erin) ∷ [] }

abbrev valoper : Text
valoper = text "cosmosvaloper18ruzecmqj9pv8ac0gvkgryuc7u004te9rh7w5s"

abbrev validator : ChainValidatorConfig
validator = record {
  validator_operator_address = valoper;
  watchers = text "erin" ∷ [];
  optional_health_check_rpc = [];
}

abbrev hub : ChainConfig
hub = record {
  chain_name = text "hub";
  chain_id = text "cosmoshub-4";
  disable = false;
  priority = true;
  rpcs = text "http://localhost:26657" ∷ [];
  validators = (valoper, validator) ∷ [];
  health_check_rpc = [];
}

hub-accepted : (update_chains_config users (hub ∷ []) no_chains).0 ≡ none
unfolding update_chains_config update_validated validate_chains validate_chain validate_enabled
    validate_validator check_watchers first_error see_chains is_valoper_address_format get put all
    any text_beq has_prefix
hub-accepted = refl

update-due_example :
    All
      (λ c.
        is_due (seconds 90) (pos (seconds 30)) nothing_paused c
        ≡ not (is_chain_paused (seconds 90) c.chain_name nothing_paused).0)
      (get_copy_all_chain_configs (update_chains_config users (hub ∷ []) no_chains).1)
update-due_example =
    update-due users (hub ∷ []) no_chains (seconds 90) (seconds 30) nothing_paused hub-accepted
      (omega arith) (omega arith)

abbrev registered : Text → RegisteredChainConfig
registered name = record {
  chain_name = name;
  chain_id = text "id-1";
  priority = false;
  rpc = [];
  validators = [];
  health_check_rpc = [];
  last_health_check_utc = zero_time;
}

abbrev two_chains : ChainRegistry
two_chains = record {
  chain_name_to_chain_config =
      (text "b", registered (text "b")) ∷ (text "a", registered (text "a")) ∷ [];
  watcher_identity_to_chain_name_to_valoper = [];
}

abbrev no_others : ChainRegistry → ChainRegistry
no_others s = s

first-MostUrgentDue_example :
    (found : Option RegisteredChainConfig) × MostUrgentDue
      (seconds 90)
      (pos (seconds 30))
      nothing_paused
      (get_copy_all_chain_configs two_chains)
      found
    × Picked (seconds 90) (no_others two_chains) found (
        get_first_chain_config_for_health_check by_insertion
          (seconds 90)
          (pos (seconds 30))
          nothing_paused
          no_others
          two_chains)
first-MostUrgentDue_example =
    first-MostUrgentDue by_insertion (seconds 90) (pos (seconds 30)) nothing_paused no_others
      two_chains

abbrev one_chain : ChainRegistry
one_chain = record {
  chain_name_to_chain_config = (text "a", registered (text "a")) ∷ [];
  watcher_identity_to_chain_name_to_valoper = [];
}

abbrev call_at : Time → Call
call_at now = record {
  now = now;
  min_duration = pos (seconds 30);
  pauser = nothing_paused;
  others = no_others;
}

abbrev other_mark : Mark
other_mark = record { now = seconds 100; chain_name = text "b" }

abbrev checked_at : Time → RegisteredChainConfig
checked_at now = record (registered (text "a")) { last_health_check_utc = now }

picked-first :
    (call by_insertion (call_at (seconds 90)) one_chain).0 ≡ some (checked_at (seconds 90))
unfolding get_first_chain_config_for_health_check get_copy_all_chain_configs find_due take_chain
    is_chain_paused get since text_beq insertion_sort
picked-first = refl

picked-again :
    (call by_insertion
      (call_at (seconds 130))
      (marks (other_mark ∷ []) (call by_insertion (call_at (seconds 90)) one_chain).1)).0
    ≡ some (checked_at (seconds 130))
unfolding marks get_first_chain_config_for_health_check get_copy_all_chain_configs find_due
    take_chain set_last_health_check_utc is_chain_paused get since text_beq insertion_sort
picked-again = refl

picks_spaced_example : seconds 90 + seconds 30 ≤ seconds 130
picks_spaced_example =
    picks_spaced by_insertion (call_at (seconds 90)) (call_at (seconds 130)) (other_mark ∷ [])
      (seconds 30) one_chain (checked_at (seconds 90)) (checked_at (seconds 130)) (refl, tt)
      picked-first (omega arith, tt) refl picked-again refl

abbrev endpoints : List Text
endpoints = text "http://a:80" ∷ text "http://b:80" ∷ []
