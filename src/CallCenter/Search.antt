-- ===== src/CallCenter/Search.antt =====
-- services/telegram_call_center_svc/command_search.go: `/search`. The handler changes nothing and gives
-- the text that it hands to `sendResponse`. Lower case is that of ASCII.
pub mod Found
pub mod Examples
use validator_health_check.Prelude.{
  ℕ, ◌+◌, Bool, true, false, not, List, [], ◌∷◌, ◌++◌, Text, text, Map, get, put, is_some, is_upper,
  is_empty, ltb, length, map, contains, trim_space, text_eq, if◌then◌else◌,
}
use validator_health_check.Registry.Chains.{
  ChainRegistry, RegisteredChainConfig, ValidatorOfRegisteredChainConfig,
  get_copy_all_chain_configs,
}
use validator_health_check.CallCenter.Context.{TelegramUpdateCtx, is_listed}

-- `strings.ToLower`
abbrev pub to_lower : Text → Text
to_lower = map (λ c. if is_upper c then c + 32 else c)

-- A validator that matches, for a user who watches it.
abbrev note_watched : Bool → Text → Map Text Bool → Map Text Bool
note_watched watched valoper m = if watched then put valoper true m else m

-- The addition for a root user.
abbrev note_for_root : Bool → Text → Map Text Bool → Map Text Bool
note_for_root is_root_user valoper m =
    if is_root_user then (if is_some (get valoper m) then m else put valoper false m) else m

-- One round of the loop over the validators of a chain.
unfoldable pub search_validator :
    TelegramUpdateCtx → Text → ValidatorOfRegisteredChainConfig → Map Text Bool → Map Text Bool
search_validator ctx query v m =
    let valoper = v.validator_operator_address in
    let watched = is_listed ctx.identity v.watchers_identity in
    if contains valoper query
    then note_for_root ctx.is_root_user valoper (note_watched watched valoper m)
    else m

unfoldable pub search_validators :
    TelegramUpdateCtx → Text → List ValidatorOfRegisteredChainConfig → Map Text Bool → Map Text Bool
unfolding search_validator
search_validators ctx query [] m = m
search_validators ctx query (v ∷ vs) m =
    search_validators ctx query vs (search_validator ctx query v m)

-- The loop over the chains.
unfoldable pub search_chains :
    TelegramUpdateCtx → Text → List RegisteredChainConfig → Map Text Bool → Map Text Bool
unfolding search_validators
search_chains ctx query [] m = m
search_chains ctx query (c ∷ cs) m =
    search_chains ctx query cs (search_validators ctx query c.validators m)

abbrev list_entry : Text × Bool → Text
list_entry (valoper, watch) = if watch then valoper else valoper ++ text " (not subscribed)"

abbrev list_found : Map Text Bool → Text
list_found [] = text "Not match any, try longer query!"
list_found (entry ∷ []) = list_entry entry
list_found (entry ∷ other ∷ m) = list_entry entry ++ (text "\n\n" ++ list_found (other ∷ m))

abbrev search_query : TelegramUpdateCtx → Text
search_query ctx = trim_space (to_lower ctx.command_args)

-- `processCommandSearch`
unfoldable pub process_command_search : ChainRegistry → TelegramUpdateCtx → Text
unfolding search_chains
process_command_search chains ctx =
    let args = search_query ctx in
    if is_empty args
    then text
        "Please provide a part of the validator operator address you want to search for!\n? Use /validators to list all validators"
    else if ltb (length args) 3
    then text "Search query must be at least 3 characters long!"
    else list_found (search_chains ctx args (get_copy_all_chain_configs chains) [])
