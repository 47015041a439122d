-- ===== src/Worker/Proposals/Kept.antt =====
-- What the check of the proposals leaves behind.
use mathlib.Core.List.{append-nil}
use validator_health_check.Prelude.{
  ℕ, Bool, true, false, List, [], ◌∷◌, ◌++◌, Option, none, some, Text, text, hours, pos, ltb, All,
  text_eq, int_eq, refl, sym, arith,
}
use validator_health_check.Utils.Retry.{Result, ok, err}
use validator_health_check.Utils.Address.{get_addr_hrp_from_valoper_hrp}
use validator_health_check.Registry.Chains.{ValidatorOfRegisteredChainConfig}
use validator_health_check.Registry.Addresses.{
  get_address_by_valoper, register_pair_val_address_to_address,
}
use validator_health_check.Push.Pusher.Enqueue.{IsKeyed, waiting}
use validator_health_check.Push.Spam.{not_voted_governance}
use validator_health_check.Worker.Gov.{
  put_cache_last_check_gov_by_chain, get_last_check_gov_by_chain, put_cache_voted_gov,
  is_voted_gov_less_than,
}
use validator_health_check.Worker.Gov.Voted.{vote-less_than}
use validator_health_check.Worker.Messages.Fatal.{HaveTelegram}
use validator_health_check.Worker.Outside.{World, ProposalsRequest}
use validator_health_check.Worker.State.{
  Services, M, pure, ◌>>=◌, ◌>>◌, reads, changes, read_clock, is_paused_now, Channel, same_for_all,
  tell, next_tick,
}
use validator_health_check.Worker.Steps.{
  read_clock-IsAdditive, is_paused_now-IsAdditive, tell-IsAdditive, tell_unless_recent-IsAdditive,
}
use validator_health_check.Worker.Pages.{
  ask, first_proposal, get_gov_v1_proposal, latest_of, get_latest_gov_v1_proposal_on_voting_period,
  get_latest_voted_gov_v1_proposal_on_voting_period,
}
use validator_health_check.Worker.Validator.{unless_paused}
use validator_health_check.Worker.Proposals.{
  encoded_address, decoded_address, converted_address, known_address, account_address, suggestion,
  note_vote, suggest, on_latest_voted, check_vote, check_open_vote, check_proposal_of,
  check_proposal, note_check, on_latest_proposal, is_gov_due, check_gov_if, check_gov,
}
use validator_health_check.Worker.Proposals.Orderly.{
  Follows-refl, Leaves, IsOrderly, IsAdditive-IsOrderly, >>=-IsOrderly, if-IsOrderly,
  skip-IsOrderly, changes-IsOrderly,
}

note_vote-IsOrderly : (valoper : Text) (voted : Option ℕ) → IsOrderly (note_vote valoper voted)
note_vote-IsOrderly valoper none = skip-IsOrderly
note_vote-IsOrderly valoper (some voted) =
    changes-IsOrderly tt (λ s. record s { gov = put_cache_voted_gov valoper voted s.gov })
      (λ s. refl) (λ s. refl)
      λ s other proposal_id h. ground (arith, vote-less_than other valoper proposal_id voted s.gov)

-- An address that can be derived from the operator address.
abbrev Encodes : Result Text Text → Type 0
Encodes (err e) = ⊥
Encodes (ok addr) = Unit

abbrev Decodes : World → Text → Result (Text × Text) Text → Type 0
Decodes w addr_hrp (err e) = ⊥
Decodes w addr_hrp (ok (hrp, bytes)) = Encodes (w.encoding.convert_and_encode addr_hrp bytes)

abbrev Converts : World → Text → Option Text → Type 0
Converts w valoper none = ⊥
Converts w valoper (some addr_hrp) = Decodes w addr_hrp (w.encoding.decode_and_convert valoper)

-- The account address of the validator can be computed.
abbrev pub HasAddress : World → ValidatorOfRegisteredChainConfig → Type 0
HasAddress w v =
    Converts w v.validator_operator_address
      (get_addr_hrp_from_valoper_hrp v.validator_operator_address)

-- A request for proposals can be put into bytes.
abbrev pub Marshals : Option Text → Type 0
Marshals none = ⊥
Marshals (some request) = Unit

module _ (w : World) (c : Channel) (client : Text) (have : HaveTelegram c.records)
    (marshals : (r : ProposalsRequest) → Marshals (w.encoding.marshal_proposals_request r)) where
  encoded-IsOrderly :
      (valoper : Text) (r : Result Text Text) → Encodes r → IsOrderly (encoded_address valoper r)
  encoded-IsOrderly valoper (err e) h = absurd h
  encoded-IsOrderly valoper (ok addr) h =
      changes-IsOrderly addr
        (λ s. record s {
          addresses = register_pair_val_address_to_address valoper addr s.addresses;
        })
        (λ s. refl) (λ s. refl) λ s other proposal_id e. e

  decoded-IsOrderly :
      (valoper addr_hrp : Text) (r : Result (Text × Text) Text)
      → Decodes w addr_hrp r
      → IsOrderly (decoded_address w valoper addr_hrp r)
  decoded-IsOrderly valoper addr_hrp (err e) h = absurd h
  decoded-IsOrderly valoper addr_hrp (ok (hrp, bytes)) h =
      encoded-IsOrderly valoper (w.encoding.convert_and_encode addr_hrp bytes) h

  converted-IsOrderly :
      (valoper : Text) (o : Option Text)
      → Converts w valoper o
      → IsOrderly (converted_address w valoper o)
  converted-IsOrderly valoper none h = absurd h
  converted-IsOrderly valoper (some addr_hrp) h =
      decoded-IsOrderly valoper addr_hrp (w.encoding.decode_and_convert valoper) h

  known-IsOrderly :
      (v : ValidatorOfRegisteredChainConfig) (o : Option Text)
      → HasAddress w v
      → IsOrderly (known_address w v.validator_operator_address o)
  known-IsOrderly v (some addr) h = record { leaves = λ s k. Follows-refl s k }
  known-IsOrderly v none h =
      converted-IsOrderly v.validator_operator_address
        (get_addr_hrp_from_valoper_hrp v.validator_operator_address) h

  account_address-IsOrderly :
      (v : ValidatorOfRegisteredChainConfig)
      → HasAddress w v
      → IsOrderly (account_address w v.validator_operator_address)
  unfolding account_address
  account_address-IsOrderly v h = record {
    leaves = λ s k.
        (known-IsOrderly v (get_address_by_valoper v.validator_operator_address s.addresses)
            h).leaves
          s k;
  }

  reads-IsOrderly : {A : Type 0} (f : Services → A) → IsOrderly (reads f)
  reads-IsOrderly f = record { leaves = λ s k. Follows-refl s k }

  ask-IsOrderly :
      (path message : Text) (unmarshal : Text → Result (List ℕ) Text) (request : Option Text)
      → Marshals request
      → IsOrderly (ask w client path unmarshal message request)
  unfolding ask next_tick
  ask-IsOrderly path message unmarshal none h = absurd h
  ask-IsOrderly path message unmarshal (some request) h = record {
    leaves = λ s k. record {
      keyed = k;
      same_pauser = refl;
      votes_count = λ valoper proposal_id e. e;
      grown = λ id. ([], sym (append-nil (waiting id s.pusher)));
    };
  }

  proposals-IsOrderly : (r : ProposalsRequest) → IsOrderly (get_gov_v1_proposal w client r)
  unfolding get_gov_v1_proposal
  proposals-IsOrderly r =
      ask-IsOrderly (text "/cosmos.gov.v1.Query/Proposals")
        (text "failed to query gov v1 proposals") w.encoding.unmarshal_proposals_response
        (w.encoding.marshal_proposals_request r) (marshals r)

  latest_voted-IsOrderly :
      (voter : Text) → IsOrderly (get_latest_voted_gov_v1_proposal_on_voting_period w client voter)
  unfolding get_latest_voted_gov_v1_proposal_on_voting_period
  latest_voted-IsOrderly voter =
      >>=-IsOrderly (get_gov_v1_proposal w client (latest_of voter))
        (λ proposals. pure (first_proposal proposals)) (proposals-IsOrderly (latest_of voter))
        λ proposals. reads-IsOrderly (λ s. first_proposal proposals)

  latest-IsOrderly : IsOrderly (get_latest_gov_v1_proposal_on_voting_period w client)
  unfolding get_latest_gov_v1_proposal_on_voting_period
  latest-IsOrderly =
      >>=-IsOrderly (get_gov_v1_proposal w client (latest_of []))
        (λ proposals. pure (first_proposal proposals)) (proposals-IsOrderly (latest_of []))
        λ proposals. reads-IsOrderly (λ s. first_proposal proposals)

  tell-IsOrderly :
      (validator message : Text) (identities : List Text)
      → IsOrderly (tell w c validator (same_for_all message) false identities)
  tell-IsOrderly validator message identities =
      IsAdditive-IsOrderly (tell w c validator (same_for_all message) false identities)
        (tell-IsAdditive w c have validator (same_for_all message) false identities)

  suggest-IsOrderly :
      (v : ValidatorOfRegisteredChainConfig) (message : Text) → IsOrderly (suggest w c v message)
  suggest-IsOrderly v [] = skip-IsOrderly
  suggest-IsOrderly v (b ∷ message) = IsAdditive-IsOrderly (suggest w c v (b ∷ message)) (
      tell_unless_recent-IsAdditive w c have not_voted_governance v.watchers_identity
        (pos (hours 12)) v.validator_operator_address (b ∷ message) false)

  on_latest_voted-IsOrderly :
      (proposal_id : ℕ) (v : ValidatorOfRegisteredChainConfig) (r : Result (Option ℕ) Text)
      → IsOrderly (on_latest_voted w c proposal_id v r)
  on_latest_voted-IsOrderly proposal_id v (err e) =
      tell-IsOrderly v.validator_operator_address
        (text "failed to get latest voted proposal on voting period, error: " ++ e)
        v.watchers_identity
  on_latest_voted-IsOrderly proposal_id v (ok voted) =
      >>=-IsOrderly (note_vote v.validator_operator_address voted)
        (λ _. suggest w c v (suggestion w v.validator_operator_address proposal_id voted))
        (note_vote-IsOrderly v.validator_operator_address voted)
        λ _. suggest-IsOrderly v (suggestion w v.validator_operator_address proposal_id voted)

  vote-IsOrderly :
      (proposal_id : ℕ) (v : ValidatorOfRegisteredChainConfig) (less_than : Bool)
      → HasAddress w v
      → IsOrderly (check_vote w c client proposal_id v less_than)
  vote-IsOrderly proposal_id v false h = skip-IsOrderly
  vote-IsOrderly proposal_id v true h =
      >>=-IsOrderly
        (account_address w v.validator_operator_address
          >>= get_latest_voted_gov_v1_proposal_on_voting_period w client)
        (on_latest_voted w c proposal_id v)
        (>>=-IsOrderly (account_address w v.validator_operator_address)
          (get_latest_voted_gov_v1_proposal_on_voting_period w client)
          (account_address-IsOrderly v h) latest_voted-IsOrderly)
        (on_latest_voted-IsOrderly proposal_id v)

  open_vote-IsOrderly :
      (proposal_id : ℕ) (v : ValidatorOfRegisteredChainConfig)
      → HasAddress w v
      → IsOrderly (check_open_vote w c client proposal_id v)
  open_vote-IsOrderly proposal_id v h =
      >>=-IsOrderly
        (reads (λ s. is_voted_gov_less_than v.validator_operator_address proposal_id s.gov))
        (check_vote w c client proposal_id v)
        (reads-IsOrderly
          (λ s. is_voted_gov_less_than v.validator_operator_address proposal_id s.gov))
        λ less_than. vote-IsOrderly proposal_id v less_than h

  unless_paused-IsOrderly :
      (m : M (Unit {0})) (paused : Bool) → IsOrderly m → IsOrderly (unless_paused m paused)
  unless_paused-IsOrderly m true h = skip-IsOrderly
  unless_paused-IsOrderly m false h = h

  proposal_of-IsOrderly :
      (proposal_id : ℕ) (v : ValidatorOfRegisteredChainConfig)
      → HasAddress w v
      → IsOrderly (check_proposal_of w c client proposal_id v)
  unfolding check_proposal_of
  proposal_of-IsOrderly proposal_id v h =
      >>=-IsOrderly (is_paused_now w v.validator_operator_address)
        (unless_paused (check_open_vote w c client proposal_id v))
        (IsAdditive-IsOrderly (is_paused_now w v.validator_operator_address)
          (is_paused_now-IsAdditive w v.validator_operator_address))
        λ paused.
          unless_paused-IsOrderly (check_open_vote w c client proposal_id v) paused
            (open_vote-IsOrderly proposal_id v h)

  proposal-IsOrderly :
      (proposal_id : ℕ) (vs : List ValidatorOfRegisteredChainConfig)
      → All (HasAddress w) vs
      → IsOrderly (check_proposal w c client proposal_id vs)
  unfolding check_proposal
  proposal-IsOrderly proposal_id [] h = skip-IsOrderly
  proposal-IsOrderly proposal_id (v ∷ vs) (h, hs) =
      >>=-IsOrderly (check_proposal_of w c client proposal_id v)
        (λ _. check_proposal w c client proposal_id vs) (proposal_of-IsOrderly proposal_id v h)
        λ _. proposal-IsOrderly proposal_id vs hs

  note_check-IsOrderly : IsOrderly (note_check w c)
  unfolding put_cache_last_check_gov_by_chain is_voted_gov_less_than
  note_check-IsOrderly =
      >>=-IsOrderly (read_clock w)
        (λ now.
          changes
            (λ s. record s { gov = put_cache_last_check_gov_by_chain now c.chain_name s.gov }))
        (IsAdditive-IsOrderly (read_clock w) (read_clock-IsAdditive w))
        λ now.
          changes-IsOrderly tt
            (λ s. record s { gov = put_cache_last_check_gov_by_chain now c.chain_name s.gov })
            (λ s. refl) (λ s. refl) λ s valoper proposal_id e. e

  on_latest-IsOrderly :
      (all_watchers : List Text) (vs : List ValidatorOfRegisteredChainConfig)
      (r : Result (Option ℕ) Text)
      → All (HasAddress w) vs
      → IsOrderly (on_latest_proposal w c client all_watchers vs r)
  on_latest-IsOrderly all_watchers vs (err e) h =
      tell-IsOrderly [] (text "failed to get latest proposal on voting period, error: " ++ e)
        all_watchers
  on_latest-IsOrderly all_watchers vs (ok none) h = skip-IsOrderly
  on_latest-IsOrderly all_watchers vs (ok (some proposal_id)) h =
      if-IsOrderly (ltb 0 proposal_id) (note_check w c >> check_proposal w c client proposal_id vs)
        (pure tt)
        (>>=-IsOrderly (note_check w c) (λ _. check_proposal w c client proposal_id vs)
          note_check-IsOrderly λ _. proposal-IsOrderly proposal_id vs h)
        skip-IsOrderly

  gov_if-IsOrderly :
      (all_watchers : List Text) (vs : List ValidatorOfRegisteredChainConfig) (due : Bool)
      → All (HasAddress w) vs
      → IsOrderly (check_gov_if w c client all_watchers vs due)
  gov_if-IsOrderly all_watchers vs false h = skip-IsOrderly
  gov_if-IsOrderly all_watchers vs true h =
      >>=-IsOrderly (get_latest_gov_v1_proposal_on_voting_period w client)
        (on_latest_proposal w c client all_watchers vs) latest-IsOrderly
        λ r. on_latest-IsOrderly all_watchers vs r h

  gov-IsOrderly :
      (all_watchers : List Text) (vs : List ValidatorOfRegisteredChainConfig)
      → All (HasAddress w) vs
      → IsOrderly (check_gov w c client all_watchers vs)
  unfolding check_gov
  gov-IsOrderly all_watchers vs h =
      >>=-IsOrderly (reads (λ s. get_last_check_gov_by_chain c.chain_name s.gov))
        (λ last_check. read_clock w >>= λ now.
          check_gov_if w c client all_watchers vs (is_gov_due now last_check))
        (reads-IsOrderly (λ s. get_last_check_gov_by_chain c.chain_name s.gov))
        λ last_check.
          >>=-IsOrderly (read_clock w)
            (λ now. check_gov_if w c client all_watchers vs (is_gov_due now last_check))
            (IsAdditive-IsOrderly (read_clock w) (read_clock-IsAdditive w))
            λ now. gov_if-IsOrderly all_watchers vs (is_gov_due now last_check) h

  -- The check of the proposals of a chain does not panic, where every user has a telegram
  -- configuration, requests can be put into bytes, the account address of every validator can be
  -- computed, and the queues stand under their receivers. Whatever the nodes answer, it puts messages
  -- at the ends of the queues only, the pauses stay, and a vote that was noted still counts.
  pub check_gov-Leaves :
      (all_watchers : List Text) (vs : List ValidatorOfRegisteredChainConfig) (s : Services)
      → All (HasAddress w) vs
      → IsKeyed s.pusher
      → Leaves s (check_gov w c client all_watchers vs s)
  check_gov-Leaves all_watchers vs s h k = (gov-IsOrderly all_watchers vs h).leaves s k
