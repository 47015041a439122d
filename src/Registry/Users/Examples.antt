-- ===== src/Registry/Users/Examples.antt =====
-- The users are replaced by one root user.
use validator_health_check.Prelude.{
  true, [], ◌∷◌, ◌++◌, none, some, text, pos, ◌≡◌, refl, get, put, all, int_eq, text_eq,
}
use validator_health_check.Config.Users.{
  UserRecord, UserTelegramConfig, validate_users, validate_user, validate_telegram, see_users,
  see_user, see_telegram, is_empty_or_incomplete_config,
}
use validator_health_check.Registry.Users.{
  no_users, update_users_config, update_validated, get_user_record_by_identity,
  get_user_record_by_telegram_user_id,
}
use validator_health_check.Registry.Users.Lookup.{update-lookup}

abbrev bob_telegram : UserTelegramConfig
bob_telegram = record { username = text "bob_tg"; user_id = pos 43; token = text "124:abc" }

abbrev bob : UserRecord
bob = record { identity = text "bob"; root = true; telegram_config = some bob_telegram }

bob-accepted : (update_users_config (bob ∷ []) no_users).0 ≡ none
unfolding update_users_config update_validated validate_users see_users see_user see_telegram
    validate_user validate_telegram is_empty_or_incomplete_config get put all
bob-accepted = refl

update-lookup_example :
    (get_user_record_by_identity (text "bob") (update_users_config ([] ++ bob ∷ []) no_users).1
      ≡ some bob)
    × (get_user_record_by_telegram_user_id
          (pos 43)
          (update_users_config ([] ++ bob ∷ []) no_users).1
        ≡ some bob)
update-lookup_example = update-lookup [] bob [] bob_telegram no_users bob-accepted refl
