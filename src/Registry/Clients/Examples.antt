-- ===== src/Registry/Clients/Examples.antt =====
-- Another caller makes the client between the two looks.
use validator_health_check.Prelude.{ℕ, [], ◌∷◌, Text, text, Map, get, text_eq, refl}
use validator_health_check.Utils.Retry.{Result, err}
use validator_health_check.Registry.Clients.{normalized, get_rpc_client_by_endpoint}
use validator_health_check.Registry.Clients.Kept.{Serves, get_rpc_client-Serves}

abbrev refuses : Text → Result ℕ Text
refuses endpoint = err (text "connection refused")

abbrev other_caller : Map Text ℕ → Map Text ℕ
other_caller clients = (text "http://b.example:80", 9) ∷ clients

get_rpc_client-Serves_example :
    Serves refuses
      (normalized refuses (text "tcp://b.example"))
      []
      (other_caller [])
      (get_rpc_client_by_endpoint refuses (text "tcp://b.example") other_caller [])
unfolding get
get_rpc_client-Serves_example =
    get_rpc_client-Serves refuses (text "tcp://b.example") other_caller [] refl λ e c h. cc
