-- ===== src/Worker/Ranking/Examples.antt =====
-- An unbonded validator with many tokens, behind a bonded one with few.
use validator_health_check.Prelude.{
  [], ◌∷◌, text, pos, get, text_beq, has_key, text_eq, inl, inr, arith, refl,
}
use validator_health_check.Utils.Retry.{err}
use validator_health_check.Worker.Outside.{World, StakingValidator, bonded, unbonded}
use validator_health_check.Worker.Sample.{world}
use validator_health_check.Worker.Ranking.{valoper_to_rank}
use validator_health_check.Worker.Ranking.Ranked.{IsBefore, valoper_to_rank-IsBefore}

abbrev small : StakingValidator
small = record {
  operator_address = text "junovaloper1a";
  moniker = text "small";
  consensus_pubkey = text "a";
  status = bonded;
  tokens = pos 5;
}

abbrev large : StakingValidator
large = record {
  operator_address = text "junovaloper1b";
  moniker = text "large";
  consensus_pubkey = text "b";
  status = unbonded;
  tokens = pos 900;
}

abbrev silent_world : World
silent_world = world λ client. err (text "no status")

valoper_to_rank-IsBefore_example :
    IsBefore 0 2
      (get (text "junovaloper1a") (valoper_to_rank silent_world (large ∷ small ∷ [])))
      (get (text "junovaloper1b") (valoper_to_rank silent_world (large ∷ small ∷ [])))
unfolding has_key text_beq
valoper_to_rank-IsBefore_example =
    valoper_to_rank-IsBefore silent_world (large ∷ small ∷ []) small large (ground arith)
      (inr (inl refl)) (inl refl) (inl (refl, refl))
