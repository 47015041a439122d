-- ===== src/Worker/Pages.antt =====
-- work/health_check_worker/worker.go: the queries of the worker, `getAllValidators`,
-- `getAllSigningInfos`, `getSlashingParams` and those of the proposals. The loop over the pages runs
-- on fuel; where it runs out nothing follows, as after a panic.
pub mod Attempts
pub mod Complete
pub mod Examples
use validator_health_check.Prelude.{
  ℕ, zero, suc, Bool, true, false, List, [], ◌∷◌, ◌++◌, Option, none, some, Text, text, is_empty,
  Run, done, panic, if◌then◌else◌,
}
use validator_health_check.Utils.Retry.{Result, ok, err}
use validator_health_check.Worker.Outside.{
  World, Page, StakingValidator, SigningInfo, SlashingParams, ProposalsRequest, retried, wrap,
}
use validator_health_check.Worker.State.{Services, M, pure, fail, then_run, ◌>>=◌, next_tick}

module _ {A : Type 0} where
  abbrev pub decoded : Result A Text → Result A Text
  decoded (err e) = err (wrap e (text "failed to unmarshal response, weird!"))
  decoded (ok a) = ok a

  -- The response to a query.
  abbrev pub read_response : (Text → Result A Text) → Result Text Text → Result A Text
  read_response unmarshal (err e) = err e
  read_response unmarshal (ok []) = err (text "empty response value, weird")
  read_response unmarshal (ok (c ∷ value)) = decoded (unmarshal (c ∷ value))

  -- One attempt of the function that is retried.
  abbrev pub attempt : World → Text → Text → (Text → Result A Text) → Text → ℕ → ℕ → Result A Text
  attempt w client path unmarshal request tick n =
      read_response unmarshal (w.abci_query tick client path request n)

  abbrev pub wrapped : Text → Result A Text → Result A Text
  wrapped message (err e) = err (wrap e message)
  wrapped message (ok a) = ok a

  -- The request, and what is asked with it; a request that is not encoded is a panic.
  unfoldable pub ask :
      World → Text → Text → (Text → Result A Text) → Text → Option Text → M (Result A Text)
  unfolding next_tick
  ask w client path unmarshal message none = fail
  ask w client path unmarshal message (some request) = do
    t ← next_tick
    pure (wrapped message (retried w t (attempt w client path unmarshal request t)))

-- What one of the two loops over pages asks for.
pub record Listing (A : Type 0) : Type 0 where
  pub path : Text
  pub marshal : ℕ → Text → Option Text
  pub unmarshal : Text → Result (Page A) Text
  pub message : Text

abbrev pub page_limit : ℕ
page_limit = 200

module _ {A : Type 0} where
  -- After a page: `none` is a response without pagination, which the code reads all the same.
  abbrev pub on_next_key :
      List A → (Text → M (Result (List A) Text)) → Option Text → M (Result (List A) Text)
  on_next_key gathered next none = fail
  on_next_key gathered next (some []) = pure (ok gathered)
  on_next_key gathered next (some (c ∷ key)) = next (c ∷ key)

  abbrev pub on_page :
      List A
      → (Text → List A → M (Result (List A) Text))
      → Result (Page A) Text
      → M (Result (List A) Text)
  on_page gathered next (err e) = pure (err e)
  on_page gathered next (ok page) =
      on_next_key (gathered ++ page.items) (λ key. next key (gathered ++ page.items)) page.next_key

  unfoldable pub get_pages : World → Text → Listing A → ℕ → Text → List A → M (Result (List A) Text)
  unfolding ask
  get_pages w client l zero next_key gathered = fail
  get_pages w client l (suc fuel) next_key gathered = do
    page ← ask w client l.path l.unmarshal l.message (l.marshal page_limit next_key)
    on_page gathered (get_pages w client l fuel) page

abbrev pub validators_listing : World → Listing StakingValidator
validators_listing w = record {
  path = text "/cosmos.staking.v1beta1.Query/Validators";
  marshal = w.encoding.marshal_validators_request;
  unmarshal = w.encoding.unmarshal_validators_response;
  message = text "failed to query validators";
}

abbrev pub signing_infos_listing : World → Listing SigningInfo
signing_infos_listing w = record {
  path = text "/cosmos.slashing.v1beta1.Query/SigningInfos";
  marshal = w.encoding.marshal_signing_infos_request;
  unmarshal = w.encoding.unmarshal_signing_infos_response;
  message = text "failed to query validators signing infos";
}

unfoldable pub get_all_validators : World → ℕ → Text → M (Result (List StakingValidator) Text)
unfolding get_pages
get_all_validators w fuel client = get_pages w client (validators_listing w) fuel [] []

unfoldable pub get_all_signing_infos : World → ℕ → Text → M (Result (List SigningInfo) Text)
unfolding get_pages
get_all_signing_infos w fuel client = get_pages w client (signing_infos_listing w) fuel [] []

unfoldable pub get_slashing_params : World → Text → M (Result SlashingParams Text)
unfolding ask
get_slashing_params w client =
    ask w client (text "/cosmos.slashing.v1beta1.Query/Params") w.encoding.unmarshal_params_response
      (text "failed to query slashing params") w.encoding.marshal_params_request

-- A proposal is its id.
unfoldable pub get_gov_v1_proposal : World → Text → ProposalsRequest → M (Result (List ℕ) Text)
unfolding ask
get_gov_v1_proposal w client request =
    ask w client (text "/cosmos.gov.v1.Query/Proposals") w.encoding.unmarshal_proposals_response
      (text "failed to query gov v1 proposals") (w.encoding.marshal_proposals_request request)

-- `proposals[0].Id`, if there is one
abbrev pub first_proposal : Result (List ℕ) Text → Result (Option ℕ) Text
first_proposal (err e) = err e
first_proposal (ok []) = ok none
first_proposal (ok (id ∷ ids)) = ok (some id)

-- On voting period, the latest first, one of them.
abbrev pub latest_of : Text → ProposalsRequest
latest_of voter = record { voter = voter; limit = 1; reverse = true }

unfoldable pub get_latest_gov_v1_proposal_on_voting_period :
    World → Text → M (Result (Option ℕ) Text)
unfolding get_gov_v1_proposal
get_latest_gov_v1_proposal_on_voting_period w client = do
  proposals ← get_gov_v1_proposal w client (latest_of [])
  pure (first_proposal proposals)

unfoldable pub get_latest_voted_gov_v1_proposal_on_voting_period :
    World → Text → Text → M (Result (Option ℕ) Text)
unfolding get_gov_v1_proposal
get_latest_voted_gov_v1_proposal_on_voting_period w client voter = do
  proposals ← get_gov_v1_proposal w client (latest_of voter)
  pure (first_proposal proposals)
