-- ===== src/Registry/Clients.antt =====
-- registry/rpc_client_registry: one client for each endpoint. Making a client is `connect`, which
-- gives the client or the text of an error. The lock is taken twice, and other callers may act
-- between the two looks into the map: the second look is at the map that they leave.
pub mod Kept
pub mod Examples
use validator_health_check.Prelude.{
  Option, none, some, Text, Map, get, put, is_empty, Run, done, panic, text_eq, if◌then◌else◌,
}
use validator_health_check.Utils.Http.{replace_any_scheme_with_http, normalize_rpc_endpoint}
use validator_health_check.Utils.Retry.{Result, ok, err}

module _ {ℓ} {Client : Type ℓ} (connect : Text → Result Client Text) where
  abbrev Clients : Type ℓ
  Clients = Map Text Client

  -- A new client is put into the map; an error leaves it.
  abbrev pub keep_client : Text → Result Client Text → Clients → Result Client Text × Clients
  keep_client endpoint (ok client) clients = (ok client, put endpoint client clients)
  keep_client endpoint (err e) clients = (err e, clients)

  -- Under the lock: the second look, and a new client if there is still none.
  abbrev pub look_again : Text → Option Client → Clients → Result Client Text × Clients
  look_again endpoint (some client) clients = (ok client, clients)
  look_again endpoint none clients = keep_client endpoint (connect endpoint) clients

  abbrev pub look_first :
      Text → (Clients → Clients) → Option Client → Clients → Result Client Text × Clients
  look_first endpoint others (some client) clients = (ok client, clients)
  look_first endpoint others none clients =
      look_again endpoint (get endpoint (others clients)) (others clients)

  abbrev pub normalized : Text → Text
  normalized endpoint = normalize_rpc_endpoint (replace_any_scheme_with_http endpoint)

  -- `GetRpcClientByEndpointWL`; `others` is what other callers do to the map meanwhile.
  unfoldable pub get_rpc_client_by_endpoint :
      Text → (Clients → Clients) → Clients → Run (Result Client Text × Clients)
  get_rpc_client_by_endpoint endpoint others clients =
      if is_empty endpoint
      then panic
      else done
          (look_first (normalized endpoint) others (get (normalized endpoint) clients) clients)
