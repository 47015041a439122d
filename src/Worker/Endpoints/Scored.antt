-- ===== src/Worker/Endpoints/Scored.antt =====
-- What the scores of the endpoints say of what their nodes have answered.
use validator_health_check.Prelude.{
  ℕ, true, false, List, [], ◌∷◌, none, some, Text, All, is_some, is_empty, Map, suc, Run, done,
  panic, map, ◌==◌, ==_iff, text_eq, ◌≡◌, ◌⊎◌, refl, sym, subst, get, Bool-cases, inl, inr,
}
use validator_health_check.Utils.Retry.{Result, ok, err}
use validator_health_check.Registry.Clients.{get_rpc_client_by_endpoint, normalized}
use validator_health_check.Registry.Clients.Kept.{Serves, Originates, get_rpc_client-Serves}
use validator_health_check.Worker.Outside.{World, ResultStatus, ScoredRpc, retried}
use validator_health_check.Worker.State.{Services, then_run, on_clients, get_client, next_tick}
use validator_health_check.Worker.Endpoints.{
  ask_status, of_status, score_client, recovered, score, score_all,
}

module _ (w : World) (chain_id : Text) where
  -- The key of an endpoint in the pool of clients.
  abbrev pub key : Text → Text
  key endpoint = normalized (w.connect 0) endpoint

  -- The client was made for the key, and every client of the pool was.
  abbrev pub IsMadeFor : Text → Text → Type 0
  IsMadeFor k client = (tick : ℕ) × (w.connect tick k ≡ ok client)

  abbrev pub IsPool : Map Text Text → Type 0
  IsPool clients = (k client : Text) → get k clients ≡ some client → IsMadeFor k client

  -- What a client of the endpoint says under `Retry`, one attempt after another.
  abbrev pub Says : Text → Text → ℕ → Result ResultStatus Text → Type 0
  Says endpoint client tick answer =
      IsMadeFor (key endpoint) client
      × (w.has_websocket client ≡ true)
      × (retried w tick (w.status tick client) ≡ answer)

  -- A client of the endpoint has answered that it is on the chain and has this block.
  abbrev pub HasAnswered : ScoredRpc → Type 0
  HasAnswered x =
      (is_empty x.endpoint ≡ false)
      × ((client : Text) × (tick : ℕ) × (r : ResultStatus) × Says x.endpoint client tick (ok r)
          × (r.network ≡ chain_id)
          × (r.latest_block_height ≡ x.latest_block)
          × (r.latest_block_time ≡ x.latest_block_time))

  -- The endpoint is empty, its client could not be made, or has no websocket, or gave an error or the
  -- status of another chain.
  abbrev pub HasFailed : ScoredRpc → Type 0
  HasFailed x =
      (is_empty x.endpoint ≡ true)
      ⊎ ((tick : ℕ) × (e : Text) × (w.connect tick (key x.endpoint) ≡ err e))
      ⊎ ((client : Text) × IsMadeFor (key x.endpoint) client × (w.has_websocket client ≡ false))
      ⊎ ((client : Text) × (tick : ℕ) × (e : Text) × Says x.endpoint client tick (err e))
      ⊎ ((client : Text) × (tick : ℕ) × (r : ResultStatus) × Says x.endpoint client tick (ok r)
          × ((r.network == chain_id) ≡ false))

  abbrev pub IsHonest : ScoredRpc → Type 0
  IsHonest x = (x.error ≡ none → HasAnswered x) × (is_some x.error ≡ true → HasFailed x)

  abbrev Scored : Text → Run (ScoredRpc × Services) → Type 0
  Scored endpoint panic = ⊥
  Scored endpoint (done (x, s)) = (x.endpoint ≡ endpoint) × IsHonest x × IsPool s.clients

  of_status-IsHonest :
      (endpoint client : Text) (tick : ℕ) (answer : Result ResultStatus Text)
      → is_empty endpoint ≡ false
      → Says endpoint client tick answer
      → ((of_status chain_id endpoint answer).endpoint ≡ endpoint)
        × IsHonest (of_status chain_id endpoint answer)
  of_status-IsHonest endpoint client tick (err e) h says =
      (refl, ((λ none_of. cc), λ _. inr (inr (inr (inl (client, tick, e, says))))))
  of_status-IsHonest endpoint client tick (ok r) h says =
      elim (Bool-cases (r.network == chain_id)) [
        | inl same ↦ rw same (
          refl,
          (
            (λ _. (h, (client, tick, r, says, (==_iff r.network chain_id).0 same, refl, refl))),
            λ some_of. cc,
          ),
        )
        | inr other ↦
            rw other
              (refl, ((λ none_of. cc), λ _. inr (inr (inr (inr (client, tick, r, says, other))))))
      ]

  score_client-Scored :
      (endpoint client : Text) (s : Services)
      → is_empty endpoint ≡ false
      → IsMadeFor (key endpoint) client
      → IsPool s.clients
      → Scored endpoint (score_client w chain_id endpoint (ok client) s)
  unfolding ask_status next_tick
  score_client-Scored endpoint client s h made pool = elim (Bool-cases (w.has_websocket client)) [
    | inl has ↦ rw has (
        let (at, honest) =
          of_status-IsHonest endpoint client s.tick (retried w s.tick (w.status s.tick client)) h
            (made, has, refl) in
        (at, honest, pool))
    | inr no_websocket ↦
        rw no_websocket
          (refl, ((λ none_of. cc), λ _. inr (inr (inl (client, made, no_websocket)))), pool)
  ]

  -- The pool after a call that found or made a client.
  pub served-IsPool :
      (endpoint : Text) (s : Services) (clients : Map Text Text)
      → IsPool s.clients
      → Originates (w.connect s.tick) (key endpoint) s.clients clients
      → IsPool clients
  served-IsPool endpoint s clients pool from k client h = elim (from k client h) [
    | inl there ↦ pool k client there
    | inr (same, made) ↦ (s.tick, subst (λ x. w.connect s.tick x ≡ ok client) (sym same) made)
  ]

  score-Scored :
      (endpoint : Text) (s : Services)
      → IsPool s.clients
      → Scored endpoint (score w chain_id endpoint s)
  unfolding score get_client next_tick get_rpc_client_by_endpoint
  score-Scored [] s pool = (refl, ((λ none_of. cc), λ _. inl refl), pool)
  score-Scored (c ∷ endpoint) s pool =
      go (get_rpc_client_by_endpoint (w.connect s.tick) (c ∷ endpoint) (λ others. others) s.clients)
        (get_rpc_client-Serves (w.connect s.tick) (c ∷ endpoint) (λ others. others) s.clients refl
          λ _ _ h. h)
    where
      back :
          (s' : Services) (r : Run (ScoredRpc × Services))
          → Scored (c ∷ endpoint) r
          → Scored (c ∷ endpoint) (recovered (c ∷ endpoint) s' r)
      back s' panic k = absurd k
      back s' (done answer) k = k

      go :
          (r : Run (Result Text Text × Map Text Text))
          → Serves (w.connect s.tick) (key (c ∷ endpoint)) s.clients s.clients r
          → Scored (c ∷ endpoint) (
              recovered (c ∷ endpoint) s (
                then_run
                  (on_clients r (record s { tick = suc s.tick }))
                  (score_client w chain_id (c ∷ endpoint))))
      go panic k = absurd k
      go (done (ok client, clients)) (keeps, given, from) =
          let pool' : IsPool clients = served-IsPool (c ∷ endpoint) s clients pool from in
          back s
            (score_client w chain_id (c ∷ endpoint) (ok client)
              (record s { tick = suc s.tick; clients = clients }))
            (score_client-Scored (c ∷ endpoint) client
              (record s { tick = suc s.tick; clients = clients }) refl
              (pool' (key (c ∷ endpoint)) client given) pool')
      go (done (err e, clients)) (keeps, given, from) = (
        refl,
        ((λ none_of. cc), λ _. inr (inl (s.tick, e, given.1))),
        served-IsPool (c ∷ endpoint) s clients pool from,
      )

  abbrev pub AllScored : List Text → Run (List ScoredRpc × Services) → Type 0
  AllScored rpc panic = ⊥
  AllScored rpc (done (xs, s)) =
      (map (λ x. x.endpoint) xs ≡ rpc) × All IsHonest xs × IsPool s.clients

  pub score_all-AllScored :
      (rpc : List Text) (s : Services)
      → IsPool s.clients
      → AllScored rpc (score_all w chain_id rpc s)
  unfolding score_all
  score_all-AllScored [] s pool = (refl, tt, pool)
  score_all-AllScored (r ∷ rs) s pool =
      one (score w chain_id r s) (score-Scored r s pool) λ s' pool'. score_all-AllScored rs s' pool'
    where
      more :
          (x : ScoredRpc) (rest : Run (List ScoredRpc × Services))
          → (x.endpoint ≡ r) × IsHonest x
          → AllScored rs rest
          → AllScored (r ∷ rs) (then_run rest λ xs s''. done (x ∷ xs, s''))
      more x panic k h = absurd h
      more x (done (xs, s'')) k h = (cc, (k.1, h.1), h.2)

      one :
          (first : Run (ScoredRpc × Services))
          → Scored r first
          → ((s' : Services) → IsPool s'.clients → AllScored rs (score_all w chain_id rs s'))
          → AllScored (r ∷ rs) (
              then_run first
                λ x s'. then_run (score_all w chain_id rs s') λ xs s''. done (x ∷ xs, s''))
      one panic k later = absurd k
      one (done (x, s')) (at, honest, pool') later =
          more x (score_all w chain_id rs s') (at, honest) (later s' pool')
