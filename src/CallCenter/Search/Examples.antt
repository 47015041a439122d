-- ===== src/CallCenter/Search/Examples.antt =====
-- A user searches for a validator of another user.
use validator_health_check.Prelude.{
  true, false, [], ◌∷◌, none, some, text, zero_time, pos, get, contains, ◌&&◌, ◌≡◌, text_eq,
  if◌then◌else◌,
}
use validator_health_check.Registry.Chains.{RegisteredChainConfig}
use validator_health_check.CallCenter.Context.{TelegramUpdateCtx}
use validator_health_check.CallCenter.Search.{search_chains}
use validator_health_check.CallCenter.Search.Found.{is_registered, is_watched, search-finds}

abbrev ctx : TelegramUpdateCtx
ctx = record {
  chat_id = pos 43;
  command_args = text "junovaloper";
  identity = text "bob";
  username = text "bob_tg";
  is_root_user = false;
}

abbrev juno : RegisteredChainConfig
juno = record {
  chain_name = text "juno";
  chain_id = text "juno-1";
  priority = false;
  rpc = [];
  validators =
      record {
        validator_operator_address = text "junovaloper1a";
        watchers_identity = text "alice" ∷ [];
        optional_health_check_rpc = [];
      }
      ∷ [];
  health_check_rpc = [];
  last_health_check_utc = zero_time;
}

search-finds_example :
    get (text "junovaloper1a") (search_chains ctx (text "junovaloper") (juno ∷ []) []) ≡ (
      if contains (text "junovaloper1a") (text "junovaloper")
        && is_watched (text "bob") (text "junovaloper1a") (juno ∷ [])
      then some true
      else if false
          && (contains (text "junovaloper1a") (text "junovaloper")
              && is_registered (text "junovaloper1a") (juno ∷ []))
      then some false
      else none)
search-finds_example = search-finds ctx (text "junovaloper") (text "junovaloper1a") (juno ∷ [])
