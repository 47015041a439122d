-- ===== src/Worker/Gov.antt =====
-- work/health_check_worker/cache_gov.go: when the proposals of a chain were last checked, and up to
-- which proposal a validator has voted. Each operation holds the lock from start to end and reads the
-- clock once, as `now`.
pub mod Voted
use validator_health_check.Prelude.{
  ℕ, Bool, true, false, List, [], ◌∷◌, Option, none, some, Text, Map, get, put, Time, zero_time,
  leb, ltb, text_eq, if◌then◌else◌,
}

pub record GovCache : Type 0 where
  pub last_check_gov_by_chain : Map Text Time
  pub cache_voted_gov : Map Text ℕ

unfoldable pub put_cache_last_check_gov_by_chain : Time → Text → GovCache → GovCache
put_cache_last_check_gov_by_chain now chain_name c = record c {
  last_check_gov_by_chain = put chain_name now c.last_check_gov_by_chain;
}

abbrev time_or_zero : Option Time → Time
time_or_zero none = zero_time
time_or_zero (some t) = t

unfoldable pub get_last_check_gov_by_chain : Text → GovCache → Time
get_last_check_gov_by_chain chain_name c = time_or_zero (get chain_name c.last_check_gov_by_chain)

-- `found && cachedValue >= proposalId`
abbrev pub is_cached : ℕ → Option ℕ → Bool
is_cached proposal_id none = false
is_cached proposal_id (some cached_value) = leb proposal_id cached_value

unfoldable pub put_cache_voted_gov : Text → ℕ → GovCache → GovCache
put_cache_voted_gov valoper proposal_id c =
    if is_cached proposal_id (get valoper c.cache_voted_gov)
    then c
    else record c { cache_voted_gov = put valoper proposal_id c.cache_voted_gov }

abbrev pub is_less_than : ℕ → Option ℕ → Bool
is_less_than proposal_id none = true
is_less_than proposal_id (some cached_value) = ltb cached_value proposal_id

unfoldable pub is_voted_gov_less_than : Text → ℕ → GovCache → Bool
is_voted_gov_less_than valoper proposal_id c =
    is_less_than proposal_id (get valoper c.cache_voted_gov)
