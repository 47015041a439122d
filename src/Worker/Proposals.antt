-- ===== src/Worker/Proposals.antt =====
-- work/health_check_worker/worker.go: whether the validators of a chain have voted on its latest
-- proposal.
pub mod Orderly
pub mod Kept
pub mod Examples
use validator_health_check.Prelude.{
  ℕ, pos, Bool, false, List, [], ◌∷◌, ◌++◌, Option, none, some, Text, text, hours, since, ltb,
  ltb_ℤ, Time, not, if◌then◌else◌, text_eq,
}
use validator_health_check.Utils.Retry.{Result, ok, err}
use validator_health_check.Utils.Address.{get_addr_hrp_from_valoper_hrp}
use validator_health_check.Push.Spam.{not_voted_governance}
use validator_health_check.Registry.Chains.{ValidatorOfRegisteredChainConfig}
use validator_health_check.Registry.Addresses.{
  get_address_by_valoper, register_pair_val_address_to_address,
}
use validator_health_check.CallCenter.Context.{concat}
use validator_health_check.Worker.Gov.{
  put_cache_last_check_gov_by_chain, get_last_check_gov_by_chain, put_cache_voted_gov,
  is_voted_gov_less_than,
}
use validator_health_check.Worker.Outside.{World}
use validator_health_check.Worker.State.{
  M, pure, fail, ◌>>=◌, ◌>>◌, reads, changes, read_clock, is_paused_now, Channel, same_for_all,
  tell, tell_unless_recent,
}
use validator_health_check.Worker.Pages.{
  get_latest_gov_v1_proposal_on_voting_period, get_latest_voted_gov_v1_proposal_on_voting_period,
}
use validator_health_check.Worker.Validator.{unless_paused}

-- The account address of an operator: it is registered once it is known, and a failure is a panic.
abbrev pub encoded_address : Text → Result Text Text → M Text
encoded_address valoper (err e) = fail
encoded_address valoper (ok addr) =
    changes
      (λ s. record s { addresses = register_pair_val_address_to_address valoper addr s.addresses })
    >> pure addr

abbrev pub decoded_address : World → Text → Text → Result (Text × Text) Text → M Text
decoded_address w valoper addr_hrp (err e) = fail
decoded_address w valoper addr_hrp (ok (hrp, bytes)) =
    encoded_address valoper (w.encoding.convert_and_encode addr_hrp bytes)

abbrev pub converted_address : World → Text → Option Text → M Text
converted_address w valoper none = fail
converted_address w valoper (some addr_hrp) =
    decoded_address w valoper addr_hrp (w.encoding.decode_and_convert valoper)

abbrev pub known_address : World → Text → Option Text → M Text
known_address w valoper (some addr) = pure addr
known_address w valoper none = converted_address w valoper (get_addr_hrp_from_valoper_hrp valoper)

unfoldable pub account_address : World → Text → M Text
account_address w valoper = do
  addresses ← reads (λ s. s.addresses)
  known_address w valoper (get_address_by_valoper valoper addresses)

-- `govSuggestionMessageToBeSent`, empty if the validator has voted.
abbrev pub suggestion : World → Text → ℕ → Option ℕ → Text
suggestion w valoper proposal_id none = concat (
    text "Proposal "
    ∷ w.printing.print_int (pos proposal_id)
    ∷ text " is on Voting period, validator "
    ∷ valoper
    ∷ text " need to participate"
    ∷ [])
suggestion w valoper proposal_id (some voted) =
    if ltb voted proposal_id
    then concat (
        text "Proposal "
        ∷ w.printing.print_int (pos proposal_id)
        ∷ text " is on Voting period, validator "
        ∷ valoper
        ∷ text " needs to participate. Latest voted "
        ∷ w.printing.print_int (pos voted)
        ∷ [])
    else []

abbrev pub note_vote : Text → Option ℕ → M (Unit {0})
note_vote valoper none = pure tt
note_vote valoper (some voted) =
    changes (λ s. record s { gov = put_cache_voted_gov valoper voted s.gov })

abbrev pub suggest : World → Channel → ValidatorOfRegisteredChainConfig → Text → M (Unit {0})
suggest w c v [] = pure tt
suggest w c v (b ∷ message) =
    tell_unless_recent w c not_voted_governance v.watchers_identity (pos (hours 12))
      v.validator_operator_address (b ∷ message) false

abbrev pub on_latest_voted :
    World → Channel → ℕ → ValidatorOfRegisteredChainConfig → Result (Option ℕ) Text → M (Unit {0})
on_latest_voted w c proposal_id v (err e) =
    tell w c v.validator_operator_address
      (same_for_all (text "failed to get latest voted proposal on voting period, error: " ++ e))
      false v.watchers_identity
on_latest_voted w c proposal_id v (ok voted) =
    note_vote v.validator_operator_address voted
    >> suggest w c v (suggestion w v.validator_operator_address proposal_id voted)

-- `!isVotedGovLessThan` goes on with the next validator.
abbrev pub check_vote :
    World → Channel → Text → ℕ → ValidatorOfRegisteredChainConfig → Bool → M (Unit {0})
check_vote w c client proposal_id v less_than =
    if not less_than
    then pure tt
    else (account_address w v.validator_operator_address
        >>= get_latest_voted_gov_v1_proposal_on_voting_period w client
        >>= on_latest_voted w c proposal_id v)

abbrev pub check_open_vote :
    World → Channel → Text → ℕ → ValidatorOfRegisteredChainConfig → M (Unit {0})
check_open_vote w c client proposal_id v =
    reads (λ s. is_voted_gov_less_than v.validator_operator_address proposal_id s.gov)
    >>= check_vote w c client proposal_id v

-- One round of the loop.
unfoldable pub check_proposal_of :
    World → Channel → Text → ℕ → ValidatorOfRegisteredChainConfig → M (Unit {0})
unfolding account_address
check_proposal_of w c client proposal_id v =
    is_paused_now w v.validator_operator_address
    >>= unless_paused (check_open_vote w c client proposal_id v)

unfoldable pub check_proposal :
    World → Channel → Text → ℕ → List ValidatorOfRegisteredChainConfig → M (Unit {0})
unfolding check_proposal_of
check_proposal w c client proposal_id [] = pure tt
check_proposal w c client proposal_id (v ∷ vs) =
    check_proposal_of w c client proposal_id v >> check_proposal w c client proposal_id vs

-- `putCacheLastCheckGovByChainWL`
abbrev pub note_check : World → Channel → M (Unit {0})
note_check w c = do
  now ← read_clock w
  changes (λ s. record s { gov = put_cache_last_check_gov_by_chain now c.chain_name s.gov })

-- A proposal with the id 0 is none.
abbrev pub on_latest_proposal :
    World
    → Channel
    → Text
    → List Text
    → List ValidatorOfRegisteredChainConfig
    → Result (Option ℕ) Text
    → M (Unit {0})
on_latest_proposal w c client all_watchers vs (err e) =
    tell w c [] (same_for_all (text "failed to get latest proposal on voting period, error: " ++ e))
      false all_watchers
on_latest_proposal w c client all_watchers vs (ok none) = pure tt
on_latest_proposal w c client all_watchers vs (ok (some proposal_id)) =
    if ltb 0 proposal_id
    then note_check w c >> check_proposal w c client proposal_id vs
    else pure tt

-- `time.Since(lastCheck) > 2*time.Hour`
abbrev pub is_gov_due : Time → Time → Bool
is_gov_due now last_check = ltb_ℤ (pos (hours 2)) (since now last_check)

abbrev pub check_gov_if :
    World → Channel → Text → List Text → List ValidatorOfRegisteredChainConfig → Bool → M (Unit {0})
check_gov_if w c client all_watchers vs due =
    if due
    then (get_latest_gov_v1_proposal_on_voting_period w client
        >>= on_latest_proposal w c client all_watchers vs)
    else pure tt

unfoldable pub check_gov :
    World → Channel → Text → List Text → List ValidatorOfRegisteredChainConfig → M (Unit {0})
unfolding check_proposal
check_gov w c client all_watchers vs = do
  last_check ← reads (λ s. get_last_check_gov_by_chain c.chain_name s.gov)
  now ← read_clock w
  check_gov_if w c client all_watchers vs (is_gov_due now last_check)
