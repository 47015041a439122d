-- ===== src/Worker/Endpoints/Healthiest.antt =====
-- The endpoint that the worker uses is the one with the latest block.
use mathlib.Core.List.{Permᴰ}
use validator_health_check.Prelude.{
  ℕ, ◌≤ℤ◌, true, List, none, Text, text, All, Some, is_some, Run, done, panic, map, text_eq, ◌≡◌,
  ◌⊎◌,
}
use validator_health_check.Utils.Retry.{Result, ok, err}
use validator_health_check.Worker.Outside.{World, ScoredRpc, wrap}
use validator_health_check.Worker.State.{Services}
use validator_health_check.Worker.Endpoints.{HealthyRpc}
use validator_health_check.Worker.Endpoints.Scored.{key, IsMadeFor, HasAnswered, IsHonest}

module _ (w : World) (chain_id : Text) where
  -- The one that is used has answered, at a block that no other one that has answered exceeds.
  abbrev pub IsBest : HealthyRpc → List ScoredRpc → ScoredRpc → Type 0
  IsBest h xs x =
      (x.endpoint ≡ h.endpoint)
      × (x.latest_block_time ≡ h.latest_block_time)
      × HasAnswered w chain_id x
      × IsMadeFor w chain_id (key w chain_id h.endpoint) h.client
      × All (λ y. y.error ≡ none → y.latest_block ≤ℤ x.latest_block) xs

  abbrev pub client_error : Text → Text
  client_error e = wrap e (text "failed to get RPC client of the most healthy RPC")

  -- It has answered, but its client could not be made again.
  abbrev pub WasRefused : Text → ScoredRpc → Type 0
  WasRefused e x =
      HasAnswered w chain_id x × ((tick : ℕ) × (w.connect tick (key w chain_id x.endpoint) ≡ err e))

  abbrev pub Answers : List ScoredRpc → Run (Result HealthyRpc Text × Services) → Type 0
  Answers xs panic = ⊥
  Answers xs (done (ok h, s)) = Some (IsBest h xs) xs
  Answers xs (done (err e, s)) =
      All (λ y. is_some y.error ≡ true) xs
      ⊎ ((e' : Text) × (e ≡ client_error e') × Some (WasRefused e') xs)

  -- The endpoints of the chain are scored, and the answer is as their scores say.
  abbrev pub Healthiest : List Text → Run (Result HealthyRpc Text × Services) → Type 0
  Healthiest rpc answer =
      (xs : List ScoredRpc) × (map (λ x. x.endpoint) xs ≡ rpc)
      × All (IsHonest w chain_id) xs
      × Answers xs answer
