-- ===== src/Config/Users/Examples.antt =====
-- A root user with a telegram section.
use validator_health_check.Prelude.{
  true, [], ◌∷◌, none, some, text, pos, ◌≡◌, refl, get, put, all, int_eq, text_eq,
}
use validator_health_check.Config.Users.{
  UserRecord, UserTelegramConfig, validate_users, validate_user, validate_telegram, see_users,
  see_user, see_telegram, is_empty_or_incomplete_config,
}
use validator_health_check.Config.Users.Valid.{IsValid, validate_users-IsValid}

abbrev alice_telegram : UserTelegramConfig
alice_telegram = record { username = text "alice_tg"; user_id = pos 42; token = text "123:abc" }

abbrev alice : UserRecord
alice = record { identity = text "alice"; root = true; telegram_config = some alice_telegram }

alice-valid : validate_users (alice ∷ []) ≡ none
unfolding validate_users see_users see_user see_telegram validate_user validate_telegram
    is_empty_or_incomplete_config get put all
alice-valid = refl

validate_users-IsValid_example : IsValid (alice ∷ [])
validate_users-IsValid_example = validate_users-IsValid (alice ∷ []) alice-valid
