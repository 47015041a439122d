-- ===== src/Config/Users.antt =====
-- config/users_config.go: user records and their validation.
pub mod Valid
pub mod Examples
use validator_health_check.Prelude.{
  ℤ, Bool, true, false, not, ◌||◌, List, [], ◌∷◌, Option, none, some, Text, Map, get, put, is_some,
  is_empty, is_word, one_or_more, map, ◌==◌, int_eq, text_eq, pos, if◌then◌else◌,
}

pub record UserTelegramConfig : Type 0 where
  pub username : Text
  pub user_id : ℤ
  pub token : Text

pub record UserRecord : Type 0 where
  pub identity : Text
  pub root : Bool
  pub telegram_config : Option UserTelegramConfig

pub record UsersConfig : Type 0 where
  pub users : Map Text UserRecord

pub data UserError : Type 0 where
  identity_must_be_set identity_format telegram_must_be_set username_must_be_set : UserError
  username_format user_id_must_be_set token_must_be_set telegram_incomplete : UserError
  no_user_record no_root_user : UserError
  invalid_user_record : Text → UserError → UserError
  duplicate_identity duplicate_username : Text → UserError
  duplicate_user_id : ℤ → UserError

unfoldable pub is_empty_or_incomplete_config : Option UserTelegramConfig → Bool
is_empty_or_incomplete_config none = true
is_empty_or_incomplete_config (some c) =
    is_empty c.username || (c.user_id == pos 0) || is_empty c.token

-- `userRecord.Identity = identity`, for each entry of the map.
unfoldable pub to_user_records : UsersConfig → List UserRecord
to_user_records c = map (λ entry. record entry.1 { identity = entry.0 }) c.users

-- The checks on the telegram section.
unfoldable pub validate_telegram : Option UserTelegramConfig → Option UserError
unfolding is_empty_or_incomplete_config
validate_telegram none = some telegram_must_be_set
validate_telegram (some c) =
    if is_empty c.username
    then some username_must_be_set
    else if not (one_or_more is_word c.username)
    then some username_format
    else if c.user_id == pos 0
    then some user_id_must_be_set
    else if is_empty c.token
    then some token_must_be_set
    else if is_empty_or_incomplete_config (some c)
    then some telegram_incomplete
    else none

-- `UserRecord.Validate`
unfoldable pub validate_user : UserRecord → Option UserError
unfolding validate_telegram
validate_user r =
    if is_empty r.identity
    then some identity_must_be_set
    else if not (one_or_more is_word r.identity)
    then some identity_format
    else validate_telegram r.telegram_config

-- The sets that the loop of `UserRecords.Validate` fills.
pub record Seen : Type 0 where
  pub unique_identities : Map Text Bool
  pub unique_telegram_username : Map Text Bool
  pub unique_telegram_user_id : Map ℤ Bool
  pub any_root : Bool

abbrev pub nothing_seen : Seen
nothing_seen = record {
  unique_identities = [];
  unique_telegram_username = [];
  unique_telegram_user_id = [];
  any_root = false;
}

pub data Checked : Type 0 where
  passed : Seen → Checked
  failed : UserError → Checked

-- The checks on the telegram section of one round of the loop.
unfoldable pub see_telegram : Option UserTelegramConfig → Seen → Checked
see_telegram none seen = passed seen
see_telegram (some c) seen =
    if is_some (get c.username seen.unique_telegram_username)
    then failed (duplicate_username c.username)
    else if is_some (get c.user_id seen.unique_telegram_user_id)
    then failed (duplicate_user_id c.user_id)
    else passed (record seen {
      unique_telegram_username = put c.username true seen.unique_telegram_username;
      unique_telegram_user_id = put c.user_id true seen.unique_telegram_user_id;
    })

abbrev pub see_root : Bool → Checked → Checked
see_root root (failed e) = failed e
see_root root (passed seen) = passed (record seen { any_root = root || seen.any_root })

-- One round, after `userRecord.Validate()`, whose result it takes.
unfoldable pub see_user : UserRecord → Option UserError → Seen → Checked
unfolding see_telegram
see_user r (some e) seen = failed (invalid_user_record r.identity e)
see_user r none seen =
    if is_some (get r.identity seen.unique_identities)
    then failed (duplicate_identity r.identity)
    else see_root r.root (
        see_telegram r.telegram_config
          (record seen { unique_identities = put r.identity true seen.unique_identities }))

unfoldable pub see_users : List UserRecord → Checked → Checked
see_users rs (failed e) = failed e
see_users [] (passed seen) = passed seen
see_users (r ∷ rs) (passed seen) = see_users rs (see_user r (validate_user r) seen)

abbrev pub need_root : Checked → Option UserError
need_root (failed e) = some e
need_root (passed seen) = if seen.any_root then none else some no_root_user

-- `UserRecords.Validate`
unfoldable pub validate_users : List UserRecord → Option UserError
unfolding see_users see_user validate_user
validate_users [] = some no_user_record
validate_users (r ∷ rs) = need_root (see_users (r ∷ rs) (passed nothing_seen))
