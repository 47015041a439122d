-- ===== src/CallCenter/Status.antt =====
-- services/telegram_call_center_svc/command_status.go: `/status`, what is paused. The handler gives the text
-- that it hands to `sendResponse`. The pauses are read at one instant, `now`.
pub mod Shown
pub mod Examples
use validator_health_check.Prelude.{
  Bool, not, ◌&&◌, List, [], ◌∷◌, ◌++◌, Text, text, Map, put, Time, any, if◌then◌else◌, text_eq,
}
use validator_health_check.Registry.Pauser.{Pauser, is_chain_paused, is_validator_paused}
use validator_health_check.Registry.Chains.{
  ChainRegistry, RegisteredChainConfig, ValidatorOfRegisteredChainConfig,
  get_copy_all_chain_configs,
}
use validator_health_check.CallCenter.Context.{TelegramUpdateCtx, TimeFormat, concat, is_listed}
use validator_health_check.CallCenter.Listing.{is_watching}

-- The four maps.
pub record PausedLists : Type 0 where
  pub chains_subscribed : Map Text Time
  pub chains_not_subscribed : Map Text Time
  pub validators_subscribed : Map Text Time
  pub validators_not_subscribed : Map Text Time

abbrev pub nothing_listed : PausedLists
nothing_listed = record {
  chains_subscribed = [];
  chains_not_subscribed = [];
  validators_subscribed = [];
  validators_not_subscribed = [];
}

abbrev put_if : Bool → Text → Time → Map Text Time → Map Text Time
put_if b k t m = if b then put k t m else m

-- One round of the loop over the validators.
unfoldable pub list_validator :
    Time → Pauser → Text → ValidatorOfRegisteredChainConfig → PausedLists → PausedLists
list_validator now p identity v l =
    let valoper = v.validator_operator_address in
    let (paused, expiry) = is_validator_paused now valoper p in
    let subscribed = is_listed identity v.watchers_identity in
    record l {
      validators_subscribed = put_if (paused && subscribed) valoper expiry l.validators_subscribed;
      validators_not_subscribed =
          put_if (paused && not subscribed) valoper expiry l.validators_not_subscribed;
    }

unfoldable pub list_validators :
    Time → Pauser → Text → List ValidatorOfRegisteredChainConfig → PausedLists → PausedLists
unfolding list_validator
list_validators now p identity [] l = l
list_validators now p identity (v ∷ vs) l =
    list_validators now p identity vs (list_validator now p identity v l)

abbrev pub list_chain_name :
    Time → Pauser → Text → RegisteredChainConfig → PausedLists → PausedLists
list_chain_name now p identity c l =
    let (paused, expiry) = is_chain_paused now c.chain_name p in
    let subscribed = is_watching identity c in
    record l {
      chains_subscribed = put_if (paused && subscribed) c.chain_name expiry l.chains_subscribed;
      chains_not_subscribed =
          put_if (paused && not subscribed) c.chain_name expiry l.chains_not_subscribed;
    }

-- The loop over the chains.
unfoldable pub list_chains :
    Time → Pauser → Text → List RegisteredChainConfig → PausedLists → PausedLists
unfolding list_validators any
list_chains now p identity [] l = l
list_chains now p identity (c ∷ cs) l =
    list_chains now p identity cs
      (list_chain_name now p identity c (list_validators now p identity c.validators l))

abbrev expiry_lines : TimeFormat → Map Text Time → Text
expiry_lines tf [] = []
expiry_lines tf ((k, expiry) ∷ m) =
    (text "\n- " ++ (k ++ (text " until " ++ tf.date_time expiry))) ++ expiry_lines tf m

abbrev section : TimeFormat → Map Text Time → Text
section tf [] = text " None"
section tf (entry ∷ m) = expiry_lines tf (entry ∷ m)

abbrev root_sections : TimeFormat → Bool → PausedLists → Text
root_sections tf is_root_user l =
    if is_root_user
    then concat (
        text "\n\n(Root) Paused chains you not subscribed:"
        ∷ section tf l.chains_not_subscribed
        ∷ text "\n\n(Root) Paused validators you not subscribed:"
        ∷ section tf l.validators_not_subscribed
        ∷ [])
    else []

unfoldable pub process_command_status :
    TimeFormat → Time → Pauser → ChainRegistry → TelegramUpdateCtx → Text
unfolding list_chains
process_command_status tf now p chains ctx =
    let l = list_chains now p ctx.identity (get_copy_all_chain_configs chains) nothing_listed in
    concat (
      text "Paused chains you subscribed:"
      ∷ section tf l.chains_subscribed
      ∷ text "\n\nPaused validators you subscribed:"
      ∷ section tf l.validators_subscribed
      ∷ root_sections tf ctx.is_root_user l
      ∷ [])
