-- ===== src/Worker/Proposals/Examples.antt =====
-- A validator that has not voted on the latest proposal, number 7.
use validator_health_check.Prelude.{ℕ, [], ◌∷◌, Text, text, text_eq}
use validator_health_check.Utils.Retry.{Result, ok, err}
use validator_health_check.Utils.Address.{get_addr_hrp_from_valoper_hrp, before_last_one}
use validator_health_check.Worker.Outside.{World}
use validator_health_check.Worker.Sample.{world, idle}
use validator_health_check.Worker.Validator.Examples.{
  channel, channel-HaveTelegram, idle-IsKeyed, watched,
}
use validator_health_check.Worker.Proposals.{check_gov}
use validator_health_check.Worker.Proposals.Orderly.{Leaves}
use validator_health_check.Worker.Proposals.Kept.{HasAddress, check_gov-Leaves}

abbrev seven : ℕ → Text → Text → Text → ℕ → Result Text Text
seven tick client path request n = ok (7 ∷ [])

abbrev voting_world : World
voting_world = record (world λ client. err (text "no status")) { abci_query = seven }

watched-HasAddress : HasAddress voting_world watched
unfolding get_addr_hrp_from_valoper_hrp before_last_one
watched-HasAddress = tt

check_gov-Leaves_example :
    Leaves idle
      (check_gov voting_world channel (text "http://a:80") (text "carol" ∷ []) (watched ∷ []) idle)
check_gov-Leaves_example =
    check_gov-Leaves voting_world channel (text "http://a:80") channel-HaveTelegram (λ r. tt)
      (text "carol" ∷ []) (watched ∷ []) idle (watched-HasAddress, tt) idle-IsKeyed
