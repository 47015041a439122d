-- ===== src/CallCenter/Pause.antt =====
-- services/telegram_call_center_svc/command_pause.go: `/pause`. A handler gives the text that it hands
-- to `sendResponse` as its last step, whose error it returns, and what it leaves behind; `none` stands
-- for `found == false`. The clock is read once, as `now`.
pub mod Watched
pub mod Arguments
pub mod Examples
use Arguments.{PauseArgs, refused, asked, read_pause_args}
use validator_health_check.Prelude.{
  ℕ, ℤ, Bool, true, false, not, ◌||◌, ◌&&◌, List, [], ◌∷◌, ◌++◌, Option, none, some, Text, text,
  Time, Duration, pos, negsuc, hours, ltb_ℤ, contains, is_empty, Run, done, panic, ◌>>=◌, ◌==◌,
  text_eq, if◌then◌else◌,
}
use validator_health_check.Registry.Users.{UserRegistry}
use validator_health_check.Registry.Pauser.{
  Pauser, pause_chain, unpause_chain, pause_validator, unpause_validator,
}
use validator_health_check.Registry.Chains.{
  ChainRegistry, RegisteredChainConfig, ValidatorOfRegisteredChainConfig, has_chain,
  get_copy_all_chain_configs,
}
use validator_health_check.CallCenter.Context.{
  TelegramUpdateCtx, TimeFormat, Center, concat, split_spaces, is_listed, enqueue_to_all_root_users,
}

abbrev by_user : TelegramUpdateCtx → Text
by_user ctx = concat (ctx.identity ∷ text " (" ∷ ctx.username ∷ text ")" ∷ [])

-- `without release date`, or how long and until when
abbrev pause_extent : TimeFormat → Duration → Time → Bool → Text
pause_extent tf dur expiry ultimate =
    if ultimate
    then text "without release date"
    else concat (text "for " ∷ tf.duration_string dur ∷ text ", until " ∷ tf.date_time expiry ∷ [])

-- The message to the root users and the response follow the change of the pauser.
unfoldable pub announce :
    Time → UserRegistry → Text → Bool → Text → Center → Run (Option (Text × Center))
announce now users message fatal response w = do
  w' ← enqueue_to_all_root_users now users message fatal w
  done (some (response, w'))

abbrev apply_to_chain :
    Time
    → TimeFormat
    → UserRegistry
    → TelegramUpdateCtx
    → Text
    → Option Duration
    → Bool
    → Center
    → Run (Option (Text × Center))
apply_to_chain now tf users ctx chain none ultimate w =
    announce now users (concat (by_user ctx ∷ text " has unpaused chain [" ∷ chain ∷ text "]" ∷ []))
      false (concat (text "Chain [" ∷ chain ∷ text "] has unpaused" ∷ []))
      (record w { pauser = unpause_chain chain w.pauser })
apply_to_chain now tf users ctx chain (some dur) ultimate w =
    let (expiry, pauser) = pause_chain now chain dur w.pauser in
    let extent = pause_extent tf dur expiry ultimate in
    announce now users
      (concat (by_user ctx ∷ text " has PAUSED chain [" ∷ chain ∷ text "] " ∷ extent ∷ [])) true
      (concat (text "Chain [" ∷ chain ∷ text "] has been PAUSED " ∷ extent ∷ []))
      (record w { pauser = pauser })

-- `processCommandPauseTryChainForRoot`
unfoldable pub try_chain_for_root :
    Time
    → TimeFormat
    → UserRegistry
    → ChainRegistry
    → TelegramUpdateCtx
    → Text
    → Option Duration
    → Bool
    → Center
    → Run (Option (Text × Center))
unfolding announce
try_chain_for_root now tf users chains ctx chain duration ultimate w =
    if not ctx.is_root_user
    then panic
    else if not (has_chain chain chains)
    then done none
    else apply_to_chain now tf users ctx chain duration ultimate w

-- The loop over the validators of a chain: `foundVal` and `granted`.
unfoldable pub see_validators :
    Text → Text → List ValidatorOfRegisteredChainConfig → Bool → Bool → Bool × Bool
see_validators identity valoper [] found granted = (found, granted)
see_validators identity valoper (v ∷ vs) found granted =
    if v.validator_operator_address == valoper
    then (if granted
        then (true, granted)
        else see_validators identity valoper vs true (is_listed identity v.watchers_identity))
    else see_validators identity valoper vs found granted

abbrev found_on : Text → Bool × Bool → Text × Bool → Text × Bool
found_on chain_name (found, granted) rest = if found then (chain_name, granted) else rest

-- The loop over the chains: `chainName`, empty if there is none, and `granted`.
unfoldable pub see_chains : Text → Text → List RegisteredChainConfig → Bool → Text × Bool
unfolding see_validators
see_chains identity valoper [] granted = ([], granted)
see_chains identity valoper (c ∷ cs) granted =
    let here = see_validators identity valoper c.validators false granted in
    found_on c.chain_name here (see_chains identity valoper cs here.1)

abbrev apply_to_validator :
    Time
    → TimeFormat
    → UserRegistry
    → TelegramUpdateCtx
    → Text
    → Text
    → Option Duration
    → Bool
    → Center
    → Run (Option (Text × Center))
apply_to_validator now tf users ctx valoper chain_name none ultimate w =
    announce now users
      (concat (
        by_user ctx
        ∷ text " has unpaused validator ["
        ∷ valoper
        ∷ text "] on ["
        ∷ chain_name
        ∷ text "]"
        ∷ []))
      false
      (concat
        (text "Validator [" ∷ valoper ∷ text "] on [" ∷ chain_name ∷ text "] has unpaused" ∷ []))
      (record w { pauser = unpause_validator valoper w.pauser })
apply_to_validator now tf users ctx valoper chain_name (some dur) ultimate w =
    let (expiry, pauser) = pause_validator now valoper dur w.pauser in
    let extent = pause_extent tf dur expiry ultimate in
    announce now users
      (concat (
        by_user ctx
        ∷ text " has PAUSED validator ["
        ∷ valoper
        ∷ text "] on "
        ∷ chain_name
        ∷ text " "
        ∷ extent
        ∷ []))
      true
      (concat (
        text "Validator ["
        ∷ valoper
        ∷ text "] on "
        ∷ chain_name
        ∷ text " has been PAUSED "
        ∷ extent
        ∷ []))
      (record w { pauser = pauser })

-- `processCommandPauseTryValidator`
unfoldable pub try_validator :
    Time
    → TimeFormat
    → UserRegistry
    → ChainRegistry
    → TelegramUpdateCtx
    → Text
    → Option Duration
    → Bool
    → Center
    → Run (Option (Text × Center))
unfolding announce see_chains
try_validator now tf users chains ctx valoper duration ultimate w =
    let (chain_name, granted) =
      see_chains ctx.identity valoper (get_copy_all_chain_configs chains) ctx.is_root_user in
    if is_empty chain_name || not granted
    then done none
    else apply_to_validator now tf users ctx valoper chain_name duration ultimate w

abbrev pub not_found : Bool → Text
not_found is_root_user =
    if is_root_user
    then text
        "No chain or validator found with the provided identifier!\nSee the list at /chains or /validators or use /search"
    else text
        "No validator found with the provided identifier!\nSee the list at /validators or use /search"

abbrev respond_not_found : TelegramUpdateCtx → Center → Option (Text × Center) → Text × Center
respond_not_found ctx w none = (not_found ctx.is_root_user, w)
respond_not_found ctx w (some handled) = handled

-- What follows the attempt to find a chain.
abbrev then_validator :
    Time
    → TimeFormat
    → UserRegistry
    → ChainRegistry
    → TelegramUpdateCtx
    → Text
    → Option Duration
    → Bool
    → Center
    → Option (Text × Center)
    → Run (Text × Center)
then_validator now tf users chains ctx target duration ultimate w (some handled) = done handled
then_validator now tf users chains ctx target duration ultimate w none = do
  found ← try_validator now tf users chains ctx target duration ultimate w
  done (respond_not_found ctx w found)

unfoldable pub apply_pause :
    Time
    → TimeFormat
    → UserRegistry
    → ChainRegistry
    → TelegramUpdateCtx
    → PauseArgs
    → Center
    → Run (Text × Center)
unfolding try_chain_for_root try_validator
apply_pause now tf users chains ctx (refused response) w = done (response, w)
apply_pause now tf users chains ctx (asked target duration ultimate) w =
    if ctx.is_root_user && not (contains target (text "valoper"))
    then (try_chain_for_root now tf users chains ctx target duration ultimate w
        >>= then_validator now tf users chains ctx target duration ultimate w)
    else then_validator now tf users chains ctx target duration ultimate w none

-- `processCommandPause`
unfoldable pub process_command_pause :
    Time
    → TimeFormat
    → UserRegistry
    → ChainRegistry
    → TelegramUpdateCtx
    → Center
    → Run (Text × Center)
unfolding read_pause_args apply_pause
process_command_pause now tf users chains ctx w =
    apply_pause now tf users chains ctx (read_pause_args tf ctx) w
