-- ===== src/CallCenter/Listing.antt =====
-- services/telegram_call_center_svc/{command_chains,command_validators}.go: what a user watches. A
-- handler gives the text that it hands to `sendResponse`. The pauses are read at one instant, `now`.
use validator_health_check.Prelude.{
  Bool, not, List, [], ◌∷◌, ◌++◌, Text, text, Time, any, filter, map, SortSlice, if◌then◌else◌,
  text_eq,
}
use validator_health_check.Registry.Pauser.{Pauser, is_chain_paused, is_validator_paused}
use validator_health_check.Registry.Chains.{
  ChainRegistry, RegisteredChainConfig, ValidatorOfRegisteredChainConfig, more_urgent,
  get_copy_all_chain_configs,
}
use validator_health_check.Utils.Slices.{distinct}
use validator_health_check.CallCenter.Context.{TelegramUpdateCtx, concat, is_listed}

-- The loop over the validators of a chain that looks for the user.
abbrev pub is_watching : Text → RegisteredChainConfig → Bool
is_watching identity c =
    any (λ (v : ValidatorOfRegisteredChainConfig). is_listed identity v.watchers_identity)
      c.validators

abbrev pub names : List RegisteredChainConfig → List Text
names = map (λ c. c.chain_name)

unfoldable pub watched_chains : Text → List RegisteredChainConfig → List Text
unfolding filter any
watched_chains identity cs = names (filter (is_watching identity) cs)

unfoldable pub not_watched_chains : Text → List RegisteredChainConfig → List Text
unfolding filter any
not_watched_chains identity cs = names (filter (λ c. not (is_watching identity c)) cs)

abbrev paused_mark : Bool → Text
paused_mark paused = if paused then text "(PAUSED) " else []

abbrev chain_lines : Time → Pauser → List Text → Text
chain_lines now p [] = []
chain_lines now p (c ∷ cs) =
    (text "\n- " ++ (paused_mark (is_chain_paused now c p).0 ++ c)) ++ chain_lines now p cs

abbrev lines_or_none : Text → List Text → Text
lines_or_none listing [] = text " None"
lines_or_none listing (x ∷ xs) = listing

-- The addition for a root user.
abbrev root_lines : Time → Pauser → Bool → List Text → Text
root_lines now p is_root_user [] = []
root_lines now p is_root_user (c ∷ cs) =
    if is_root_user
    then text "\n\n(Root) Chains you not subscribed:" ++ chain_lines now p (c ∷ cs)
    else []

abbrev sorted_chains : SortSlice RegisteredChainConfig → ChainRegistry → List RegisteredChainConfig
sorted_chains sorter chains = sorter.sort_slice more_urgent (get_copy_all_chain_configs chains)

unfoldable pub process_command_chains :
    SortSlice RegisteredChainConfig → Time → Pauser → ChainRegistry → TelegramUpdateCtx → Text
unfolding watched_chains not_watched_chains
process_command_chains sorter now p chains ctx =
    let watched = watched_chains ctx.identity (sorted_chains sorter chains) in
    concat (
      text "Chains you subscribed:"
      ∷ lines_or_none (chain_lines now p watched) watched
      ∷ root_lines now p ctx.is_root_user
          (not_watched_chains ctx.identity (sorted_chains sorter chains))
      ∷ [])

-- `watchValidatorOnChains[chainName]`: the validators of the chain that the user watches
unfoldable pub watched_validators : Text → RegisteredChainConfig → List Text
unfolding filter distinct any
watched_validators identity c = distinct (
    map (λ (v : ValidatorOfRegisteredChainConfig). v.validator_operator_address)
      (filter (λ v. is_listed identity v.watchers_identity) c.validators))

abbrev chain_mark : Time → Pauser → Text → Text
chain_mark now p chain_name =
    if (is_chain_paused now chain_name p).0
    then text " (" ++ (chain_name ++ text " - PAUSED)")
    else text " (" ++ (chain_name ++ text ")")

abbrev validator_lines : Time → Pauser → Text → List Text → Text
validator_lines now p chain_name [] = []
validator_lines now p chain_name (v ∷ vs) =
    (text "\n\n- "
      ++ (paused_mark (is_validator_paused now v p).0 ++ (v ++ chain_mark now p chain_name)))
    ++ validator_lines now p chain_name vs

abbrev all_validator_lines : Time → Pauser → Text → List RegisteredChainConfig → Text
all_validator_lines now p identity [] = []
all_validator_lines now p identity (c ∷ cs) =
    validator_lines now p c.chain_name (watched_validators identity c)
    ++ all_validator_lines now p identity cs

unfoldable pub process_command_validators :
    SortSlice RegisteredChainConfig → Time → Pauser → ChainRegistry → TelegramUpdateCtx → Text
unfolding watched_chains not_watched_chains watched_validators
process_command_validators sorter now p chains ctx =
    let cs = sorted_chains sorter chains in
    concat (
      text "Validators you subscribed:"
      ∷ lines_or_none (all_validator_lines now p ctx.identity cs) (watched_chains ctx.identity cs)
      ∷ root_lines now p ctx.is_root_user (not_watched_chains ctx.identity cs)
      ∷ [])
