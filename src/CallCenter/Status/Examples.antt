-- ===== src/CallCenter/Status/Examples.antt =====
-- A watcher asks for the status while a validator of the chain is paused.
use validator_health_check.Prelude.{
  text_eq, ◌&&◌, some, none, get, text, pos, seconds, hours, ◌≡◌, if◌then◌else◌,
}
use validator_health_check.Registry.Pauser.{
  Pauser, nothing_paused, pause_validator, is_validator_paused,
}
use validator_health_check.Registry.Chains.{get_copy_all_chain_configs}
use validator_health_check.CallCenter.Pause.Examples.{chains}
use validator_health_check.CallCenter.Pause.Watched.{watches}
use validator_health_check.CallCenter.Status.{nothing_listed, list_chains}
use validator_health_check.CallCenter.Status.Shown.{list_chains-lists}

abbrev paused_juno : Pauser
paused_juno = (pause_validator (seconds 10) (text "junovaloper1a") (pos (hours 1)) nothing_paused).1

list_chains-lists_example :
    get
      (text "junovaloper1a")
      (list_chains
        (seconds 20)
        paused_juno
        (text "alice")
        (get_copy_all_chain_configs chains)
        nothing_listed).validators_subscribed
    ≡ (if (is_validator_paused (seconds 20) (text "junovaloper1a") paused_juno).0
          && watches (text "alice") (text "junovaloper1a") (get_copy_all_chain_configs chains)
        then some (is_validator_paused (seconds 20) (text "junovaloper1a") paused_juno).1
        else none)
list_chains-lists_example =
    list_chains-lists (seconds 20) paused_juno (text "alice") (text "junovaloper1a")
      (get_copy_all_chain_configs chains)
