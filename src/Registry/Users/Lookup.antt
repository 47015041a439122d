-- ===== src/Registry/Users/Lookup.antt =====
-- After an update every user is found, by identity and by telegram user id.
use validator_health_check.Prelude.{
  ℤ, false, List, [], ◌∷◌, ◌++◌, Option, none, some, Text, Map, get, get-put, int_eq, text_eq, ◌==◌,
  ==_refl, has_key, Distinct, arith, ◌≡◌, refl, ◌∙◌, ap,
}
use validator_health_check.Config.Users.{UserRecord, UserTelegramConfig, UserError, validate_users}
use validator_health_check.Config.Users.Valid.{user_id_of, IsValid, validate_users-IsValid}
use validator_health_check.Registry.Users.{
  UserRegistry, no_users, put_records, put_telegram, update_validated, update_users_config,
  get_user_record_by_identity, get_user_record_by_telegram_user_id, record_of,
}

put_records-absent :
    (k : Text) (rs : List UserRecord) (u : UserRegistry)
    → has_key (λ r. r.identity) k rs ≡ false
    → get k (put_records rs u).identity_to_users_config ≡ get k u.identity_to_users_config
unfolding put_records has_key
put_records-absent k [] u h = refl
put_records-absent k (r ∷ rs) u h =
    put_records-absent k rs _ (ground arith)
    ∙ ground (arith, get-put r.identity k r u.identity_to_users_config)

put_telegram-ne :
    (k : ℤ) (identity : Text) (t : Option UserTelegramConfig) (m : Map ℤ Text)
    → (user_id_of t == k) ≡ false
    → get k (put_telegram identity t m) ≡ get k m
put_telegram-ne k identity none m h = refl
put_telegram-ne k identity (some c) m h = ground (arith, get-put c.user_id k identity m)

put_records-absent_id :
    (k : ℤ) (rs : List UserRecord) (u : UserRegistry)
    → has_key (λ r. user_id_of r.telegram_config) k rs ≡ false
    → get k (put_records rs u).telegram_id_to_identity ≡ get k u.telegram_id_to_identity
unfolding put_records has_key
put_records-absent_id k [] u h = refl
put_records-absent_id k (r ∷ rs) u h =
    put_records-absent_id k rs _ (ground arith)
    ∙ put_telegram-ne k r.identity r.telegram_config u.telegram_id_to_identity (ground arith)

module _ (r : UserRecord) (rest : List UserRecord) where
  put_records-identity :
      (before : List UserRecord) (u : UserRegistry)
      → Distinct (λ x. x.identity) (before ++ r ∷ rest)
      → get r.identity (put_records (before ++ r ∷ rest) u).identity_to_users_config ≡ some r
  unfolding put_records
  put_records-identity [] u d = put_records-absent r.identity rest _ d.0 ∙ rw (get-put, ==_refl)
  put_records-identity (x ∷ before) u d = put_records-identity before _ d.1

  put_records-user_id :
      (c : UserTelegramConfig) (before : List UserRecord) (u : UserRegistry)
      → r.telegram_config ≡ some c
      → Distinct (λ x. user_id_of x.telegram_config) (before ++ r ∷ rest)
      → get c.user_id (put_records (before ++ r ∷ rest) u).telegram_id_to_identity ≡ some r.identity
  unfolding put_records
  put_records-user_id c [] u e d =
      put_records-absent_id c.user_id rest _ (rw e at d.0) ∙ rw e (rw (get-put, ==_refl))
  put_records-user_id c (x ∷ before) u e d = put_records-user_id c before _ e d.1

update_validated-put :
    (rs : List UserRecord) (result : Option UserError) (u : UserRegistry)
    → validate_users rs ≡ result
    → (update_validated result rs u).0 ≡ none
    → (result ≡ none) × ((update_validated result rs u).1 ≡ put_records rs no_users)
unfolding update_validated validate_users
update_validated-put rs (some e) u v h = cc
update_validated-put [] none u v h = cc
update_validated-put (r ∷ rs) none u v h = (refl, refl)

-- An update that reports no error was given valid records, and holds them and nothing else.
pub update-IsValid :
    (rs : List UserRecord) (u : UserRegistry)
    → (update_users_config rs u).0 ≡ none
    → IsValid rs × ((update_users_config rs u).1 ≡ put_records rs no_users)
unfolding update_users_config
update-IsValid rs u h =
    let (valid, is_put) = update_validated-put rs (validate_users rs) u refl h in
    (validate_users-IsValid rs valid, is_put)

-- After an update that reports no error, every record of the list is found by its identity and by
-- the telegram user id of its section.
pub update-lookup :
    (before : List UserRecord) (r : UserRecord) (rest : List UserRecord) (c : UserTelegramConfig)
    (u : UserRegistry)
    → (update_users_config (before ++ r ∷ rest) u).0 ≡ none
    → r.telegram_config ≡ some c
    → (get_user_record_by_identity r.identity (update_users_config (before ++ r ∷ rest) u).1
        ≡ some r)
      × (get_user_record_by_telegram_user_id c.user_id
            (update_users_config (before ++ r ∷ rest) u).1
          ≡ some r)
unfolding get_user_record_by_identity get_user_record_by_telegram_user_id
update-lookup before r rest c u h e =
    let (valid, is_put) = update-IsValid (before ++ r ∷ rest) u h in
    let by_identity = put_records-identity r rest before no_users valid.identities in
    let by_user_id = put_records-user_id r rest c before no_users e valid.user_ids in
    rw is_put (
      by_identity,
      ap (λ o. record_of o (put_records (before ++ r ∷ rest) no_users)) by_user_id ∙ by_identity,
    )
