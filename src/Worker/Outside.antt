-- ===== src/Worker/Outside.antt =====
-- What the worker takes from elsewhere: the clock, the nodes of a chain, the messages of the
-- cosmos-sdk with their encoding, floating point numbers and decimals, and printing. A `World` holds
-- them. Each use is numbered, so that the clock and a node may answer each one differently: `tick` is
-- that number. A float64 is its bit pattern, and a decimal of the sdk its number of units.
use mathlib.Core.List.{Permᴰ}
use validator_health_check.Prelude.{
  ℕ, ◌≤◌, ℤ, Bool, false, List, Option, none, some, Text, text, ◌++◌, Time, Duration, pos, seconds,
  ltb_ℤ, Run, SortSlice, ◌≡◌, true, suc, ◌<◌, arith,
}
use validator_health_check.Registry.Chains.{RegisteredChainConfig}
use validator_health_check.Utils.Retry.{Result, retry, default_retry_option}
use validator_health_check.Utils.Retry.Ends.{Ended, retry-Ended, gives_up}

-- What the code reads of `coretypes.ResultStatus`.
pub record ResultStatus : Type 0 where
  pub network : Text
  pub catching_up : Bool
  pub latest_block_height : ℤ
  pub latest_block_time : Time

pub data BondStatus : Type 0 where
  bonded unbonding unbonded : BondStatus
  other_status : ℤ → BondStatus

-- What the code reads of `stakingtypes.Validator`.
pub record StakingValidator : Type 0 where
  pub operator_address : Text
  pub moniker : Text
  pub consensus_pubkey : Text
  pub status : BondStatus
  pub tokens : ℤ

-- What the code reads of `slashingtypes.ValidatorSigningInfo`.
pub record SigningInfo : Type 0 where
  pub address : Text
  pub tombstoned : Bool
  pub jailed_until : Time
  pub missed_blocks_counter : ℤ

abbrev pub Decimal : Type 0
Decimal = ℤ

-- What the code reads of `slashingtypes.Params`.
pub record SlashingParams : Type 0 where
  pub min_signed_per_window : Decimal
  pub signed_blocks_window : ℤ

-- A response in pages; its pagination is `none` where the pointer is nil.
pub record Page (A : Type 0) : Type 0 where
  pub items : List A
  pub next_key : Option Text

pub record ProposalsRequest : Type 0 where
  pub voter : Text
  pub limit : ℕ
  pub reverse : Bool

-- One endpoint with what it answered, `scoredRPC` of `getMostHealthyRpc`.
pub record ScoredRpc : Type 0 where
  pub latest_block : ℤ
  pub latest_block_time : Time
  pub endpoint : Text
  pub error : Option Text

abbrev pub Float64 : Type 0
Float64 = ℕ

-- Floating point numbers and the decimals of the sdk.
pub record Numbers : Type 0 where
  pub of_int64 : ℤ → Float64
  pub times : Float64 → Float64 → Float64
  pub over : Float64 → Float64 → Float64
  pub minus : Float64 → Float64 → Float64
  pub is_above : Float64 → Float64 → Bool
  pub at_most : Float64 → Float64 → Bool
  -- These panic on a nil decimal and where a result is out of range.
  pub is_positive : Decimal → Run Bool
  pub is_one : Decimal → Run Bool
  pub new_dec : ℤ → Decimal
  pub mul : Decimal → Decimal → Run Decimal
  pub ceil : Decimal → Run Decimal
  pub round_int64 : Decimal → Run ℤ

-- `fmt` for integers, instants, durations and floats.
pub record Printing : Type 0 where
  pub print_int : ℤ → Text
  pub print_time : Time → Text
  pub print_duration : Duration → Text
  pub print_float : Float64 → Text
  -- `BondStatus.String()`
  pub print_status : BondStatus → Text
  -- `d.Minutes()`
  pub print_minutes : Duration → Text

-- The messages of the cosmos-sdk and its addresses.
pub record Encoding : Type 0 where
  pub marshal_validators_request : ℕ → Text → Option Text
  pub unmarshal_validators_response : Text → Result (Page StakingValidator) Text
  pub marshal_signing_infos_request : ℕ → Text → Option Text
  pub unmarshal_signing_infos_response : Text → Result (Page SigningInfo) Text
  pub marshal_params_request : Option Text
  pub unmarshal_params_response : Text → Result SlashingParams Text
  pub marshal_proposals_request : ProposalsRequest → Option Text
  pub unmarshal_proposals_response : Text → Result (List ℕ) Text
  pub consensus_address : Text → Option Text
  pub convert_and_encode : Text → Text → Result Text Text
  pub decode_and_convert : Text → Result (Text × Text) Text

pub record World : Type 0 where
  pub numbers : Numbers
  pub printing : Printing
  pub encoding : Encoding
  pub clock : ℕ → Time
  -- `time.Since(startTime)` after an attempt of `Retry`. Time passes, so there is an attempt after
  -- which `Retry` may give up.
  pub elapsed : ℕ → ℕ → Duration
  pub last_attempt : ℕ → ℕ
  pub last_attempt_count : (tick : ℕ) → 3 ≤ last_attempt tick
  pub last_attempt_late :
      (tick : ℕ) → ltb_ℤ (elapsed tick (last_attempt tick)) (pos (seconds 5)) ≡ false
  -- A client is named by a text.
  pub connect : ℕ → Text → Result Text Text
  pub has_websocket : Text → Bool
  pub status : ℕ → Text → ℕ → Result ResultStatus Text
  pub abci_query : ℕ → Text → Text → Text → ℕ → Result Text Text
  -- The order in which the goroutines put their results into the channel.
  pub arrive : ℕ → List ScoredRpc → List ScoredRpc
  pub arrive-perm : (tick : ℕ) (xs : List ScoredRpc) → Permᴰ (arrive tick xs) xs
  pub sort_scored : SortSlice ScoredRpc
  pub sort_validators : SortSlice StakingValidator
  pub sort_chains : SortSlice RegisteredChainConfig
  -- The fuel of the loops over pages.
  pub page_fuel : ℕ

-- `errors.Wrap(err, message)`
abbrev pub wrap : Text → Text → Text
wrap e message = message ++ (text ": " ++ e)

-- A call of `Retry` gives a result: with fuel up to the last attempt it ends.
abbrev pub from_ended {ℓ} :
    {A : Type ℓ} (attempt : ℕ → Result A Text) (elapsed : ℕ → Duration) (r : Option (Result A Text))
    → Ended attempt elapsed default_retry_option r
    → Result A Text
from_ended attempt elapsed (some r) h = r
from_ended attempt elapsed none h = elim h [ ]

pub gives_up-last :
    {A : Type 0} (w : World) (tick : ℕ) (attempt : ℕ → Result A Text)
    → gives_up attempt (w.elapsed tick) default_retry_option (w.last_attempt tick) ≡ true
gives_up-last w tick attempt = ground (arith, w.last_attempt_count tick, w.last_attempt_late tick)

pub lt_suc : (n : ℕ) → n < suc n
lt_suc n = omega arith

-- `utils.Retry(attempt)`
unfoldable pub retried : {A : Type 0} → World → ℕ → (ℕ → Result A Text) → Result A Text
retried w tick attempt =
    from_ended attempt (w.elapsed tick)
      (retry attempt (w.elapsed tick) default_retry_option (suc (w.last_attempt tick)))
      (retry-Ended attempt (w.elapsed tick) default_retry_option (w.last_attempt tick)
        (suc (w.last_attempt tick)) (gives_up-last w tick attempt) (lt_suc (w.last_attempt tick)))
