-- ===== src/Registry/Users.antt =====
-- registry/user_registry/user_config_registry.go. Each operation holds the lock from start to end.
pub mod Lookup
pub mod Examples
use validator_health_check.Prelude.{
  ℤ, Bool, true, false, List, [], ◌∷◌, Option, none, some, Text, Map, get, put, int_eq, text_eq,
  if◌then◌else◌,
}
use validator_health_check.Config.Users.{UserRecord, UserTelegramConfig, UserError, validate_users}

pub record UserRegistry : Type 0 where
  pub identity_to_users_config : Map Text UserRecord
  pub telegram_id_to_identity : Map ℤ Text

abbrev pub no_users : UserRegistry
no_users = record { identity_to_users_config = []; telegram_id_to_identity = [] }

abbrev put_telegram : Text → Option UserTelegramConfig → Map ℤ Text → Map ℤ Text
put_telegram identity none m = m
put_telegram identity (some c) m = put c.user_id identity m

-- The loop that puts the new data.
unfoldable pub put_records : List UserRecord → UserRegistry → UserRegistry
put_records [] u = u
put_records (r ∷ rs) u = put_records rs (record {
  identity_to_users_config = put r.identity r u.identity_to_users_config;
  telegram_id_to_identity = put_telegram r.identity r.telegram_config u.telegram_id_to_identity;
})

-- `UpdateUsersConfigWL`, with the result of `userRecords.Validate()`.
unfoldable pub update_validated :
    Option UserError → List UserRecord → UserRegistry → Option UserError × UserRegistry
unfolding put_records
update_validated (some e) rs u = (some e, u)
update_validated none [] u = (none, u)
update_validated none (r ∷ rs) u = (none, put_records (r ∷ rs) no_users)

unfoldable pub update_users_config :
    List UserRecord → UserRegistry → Option UserError × UserRegistry
unfolding update_validated
update_users_config rs u = update_validated (validate_users rs) rs u

unfoldable pub get_user_record_by_identity : Text → UserRegistry → Option UserRecord
get_user_record_by_identity identity u = get identity u.identity_to_users_config

abbrev record_of : Option Text → UserRegistry → Option UserRecord
record_of none u = none
record_of (some identity) u = get identity u.identity_to_users_config

unfoldable pub get_user_record_by_telegram_user_id : ℤ → UserRegistry → Option UserRecord
get_user_record_by_telegram_user_id telegram_user_id u =
    record_of (get telegram_user_id u.telegram_id_to_identity) u

abbrev root_identities : Map Text UserRecord → List Text
root_identities [] = []
root_identities ((identity, r) ∷ m) =
    if r.root then identity ∷ root_identities m else root_identities m

unfoldable pub get_root_users_identity : UserRegistry → List Text
get_root_users_identity u = root_identities u.identity_to_users_config
