-- ===== src/Worker/Ranking.antt =====
-- work/health_check_worker/worker.go: the validators of a chain by address, and their ranks. The
-- tokens, which the sdk keeps as integers of any size, are integers here.
pub mod Ranked
pub mod Examples
use validator_health_check.Prelude.{
  ℕ, suc, ℤ, Bool, true, false, not, List, [], ◌∷◌, Option, none, some, Text, Map, put, ltb_ℤ, pos,
  text_eq, if◌then◌else◌,
}
use validator_health_check.Worker.Outside.{
  World, StakingValidator, BondStatus, bonded, unbonding, unbonded, other_status,
}

abbrev pub is_bonded : BondStatus → Bool
is_bonded bonded = true
is_bonded unbonding = false
is_bonded unbonded = false
is_bonded (other_status n) = false

-- The loop that fills `stakingValidatorByValoper`.
unfoldable pub by_valoper :
    List StakingValidator → Map Text StakingValidator → Map Text StakingValidator
by_valoper [] m = m
by_valoper (v ∷ vs) m = by_valoper vs (put v.operator_address v m)

-- `left.IsBonded() == right.IsBonded()`
abbrev same_bool : Bool → Bool → Bool
same_bool a b = if a then b else not b

-- The `less` of the sort.
unfoldable pub outranks : StakingValidator → StakingValidator → Bool
outranks left right =
    if same_bool (is_bonded left.status) (is_bonded right.status)
    then ltb_ℤ right.tokens left.tokens
    else is_bonded left.status

-- The loop that fills `valoperToRank`, from the index `i` on.
unfoldable pub number_ranks : ℕ → List StakingValidator → Map Text ℕ → Map Text ℕ
number_ranks i [] m = m
number_ranks i (v ∷ vs) m = number_ranks (suc i) vs (put v.operator_address (suc i) m)

unfoldable pub valoper_to_rank : World → List StakingValidator → Map Text ℕ
unfolding number_ranks
valoper_to_rank w vs = number_ranks 0 (w.sort_validators.sort_slice outranks vs) []
