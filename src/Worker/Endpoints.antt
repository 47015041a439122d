-- ===== src/Worker/Endpoints.antt =====
-- work/health_check_worker/worker.go: `getMostHealthyRpc`, the endpoint of a chain with the latest
-- block. The goroutines are run one after the other, and what they give arrives in any order.
pub mod Scored
pub mod Healthiest
pub mod Examples
use validator_health_check.Prelude.{
  ℤ, Bool, true, false, ◌&&◌, List, [], ◌∷◌, ◌++◌, Option, none, some, Text, text, Time, zero_time,
  pos, ltb_ℤ, is_some, Run, done, panic, ◌==◌, text_eq, if◌then◌else◌,
}
use validator_health_check.Utils.Retry.{Result, ok, err}
use validator_health_check.Worker.Outside.{World, ResultStatus, ScoredRpc, retried, wrap}
use validator_health_check.Worker.State.{
  Services, M, pure, fail, then_run, ◌>>=◌, next_tick, get_client,
}

abbrev pub failed : Text → Text → ScoredRpc
failed endpoint e = record {
  latest_block = pos 0;
  latest_block_time = zero_time;
  endpoint = endpoint;
  error = some e;
}

-- `utils.Retry` of the client's `Status`
unfoldable pub ask_status : World → Text → M (Result ResultStatus Text)
unfolding next_tick
ask_status w client = do t ← next_tick; pure (retried w t (w.status t client))

abbrev pub of_status : Text → Text → Result ResultStatus Text → ScoredRpc
of_status chain_id endpoint (err e) = failed endpoint (wrap e (text "failed to get status"))
of_status chain_id endpoint (ok r) =
    if r.network == chain_id
    then record {
      latest_block = r.latest_block_height;
      latest_block_time = r.latest_block_time;
      endpoint = endpoint;
      error = none;
    }
    else failed endpoint
        (text "network mismatch, expected " ++ (chain_id ++ (text ", got " ++ r.network)))

abbrev pub score_client : World → Text → Text → Result Text Text → M ScoredRpc
score_client w chain_id endpoint (err e) =
    pure (failed endpoint (wrap e (text "failed to get RPC client")))
score_client w chain_id endpoint (ok client) =
    if w.has_websocket client
    then (ask_status w client >>= λ r. pure (of_status chain_id endpoint r))
    else pure (failed endpoint (text "websocket client is nil"))

-- The deferred `recover`: the one panic on the way is that of an empty endpoint.
abbrev pub recovered : Text → Services → Run (ScoredRpc × Services) → Run (ScoredRpc × Services)
recovered endpoint s panic = done (failed endpoint (text "panic: empty rpc endpoint"), s)
recovered endpoint s (done answer) = done answer

-- One goroutine.
unfoldable pub score : World → Text → Text → M ScoredRpc
unfolding ask_status
score w chain_id endpoint s =
    recovered endpoint s (then_run (get_client w endpoint s) (score_client w chain_id endpoint))

unfoldable pub score_all : World → Text → List Text → M (List ScoredRpc)
unfolding score
score_all w chain_id [] = pure []
score_all w chain_id (r ∷ rs) = do
  scored ← score w chain_id r
  rest ← score_all w chain_id rs
  pure (scored ∷ rest)

-- The `less` of the sort.
unfoldable pub healthier : ScoredRpc → ScoredRpc → Bool
healthier left right =
    if is_some left.error && is_some right.error
    then ltb_ℤ right.latest_block left.latest_block
    else if is_some left.error
    then false
    else if is_some right.error
    then true
    else ltb_ℤ right.latest_block left.latest_block

pub record HealthyRpc : Type 0 where
  pub client : Text
  pub endpoint : Text
  pub latest_block_time : Time

abbrev pub healthy_rpc : ScoredRpc → Result Text Text → Result HealthyRpc Text
healthy_rpc x (err e) = err (wrap e (text "failed to get RPC client of the most healthy RPC"))
healthy_rpc x (ok client) =
    ok (record { client = client; endpoint = x.endpoint; latest_block_time = x.latest_block_time })

abbrev pub use_scored : World → ScoredRpc → Option Text → M (Result HealthyRpc Text)
use_scored w x (some e) = pure (err e)
use_scored w x none = do answer ← get_client w x.endpoint; pure (healthy_rpc x answer)

-- `scoredRPCs[0]`
abbrev pub use_first : World → List ScoredRpc → M (Result HealthyRpc Text)
use_first w [] = fail
use_first w (x ∷ xs) = use_scored w x x.error

unfoldable pub get_most_healthy_rpc : World → Text → List Text → M (Result HealthyRpc Text)
unfolding score_all next_tick
get_most_healthy_rpc w chain_id [] = fail
get_most_healthy_rpc w chain_id (r ∷ rs) = do
  scored ← score_all w chain_id (r ∷ rs)
  t ← next_tick
  use_first w (w.sort_scored.sort_slice healthier (w.arrive t scored))
