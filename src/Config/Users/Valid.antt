-- ===== src/Config/Users/Valid.antt =====
-- What a validated list of user records is.
use validator_health_check.Prelude.{
  ℤ, Bool, true, false, ◌||◌, List, [], ◌∷◌, Option, none, some, Text, get, put, get-put, is_some,
  is_empty, is_word, one_or_more, ==_iff, int_eq, text_eq, pos, arith, ◌≡◌, ◌≢◌, ◌⊎◌, inl, inr,
  refl, ap, sym, ◌∙◌, ==_refl, has_key, Distinct,
}
use validator_health_check.Config.Users.{
  UserRecord, UserTelegramConfig, UserError, Seen, Checked, passed, failed, nothing_seen,
  validate_telegram, validate_user, see_user, see_users, need_root, validate_users,
}

-- The record is complete: its names are words, and the telegram section has all that is needed to
-- send to the user.
pub record IsComplete (r : UserRecord) (c : UserTelegramConfig) : Type 0 where
  pub has_config : r.telegram_config ≡ some c
  pub identity_is_word : one_or_more is_word r.identity ≡ true
  pub username_is_word : one_or_more is_word c.username ≡ true
  pub has_user_id : c.user_id ≢ pos 0
  pub has_token : is_empty c.token ≡ false

complete_telegram :
    (t : Option UserTelegramConfig)
    → validate_telegram t ≡ none
    → (c : UserTelegramConfig) × (t ≡ some c)
      × (one_or_more is_word c.username ≡ true)
      × (c.user_id ≢ pos 0)
      × (is_empty c.token ≡ false)
unfolding validate_telegram
complete_telegram none h = cc
complete_telegram (some c) h =
    (c, refl, ground arith, (λ e. ground (arith, ==_iff c.user_id (pos 0))), ground arith)

-- A record that passes `UserRecord.Validate` is complete.
pub validate_user-IsComplete :
    (r : UserRecord) → validate_user r ≡ none → (c : UserTelegramConfig) × IsComplete r c
unfolding validate_user
validate_user-IsComplete r h =
    let (c, e, word, id, token) = complete_telegram r.telegram_config (ground arith) in
    (
      c,
      record {
        has_config = e;
        identity_is_word = ground arith;
        username_is_word = word;
        has_user_id = id;
        has_token = token;
      },
    )

-- The keys that must differ between records; a complete record has a telegram section.
abbrev pub username_of : Option UserTelegramConfig → Text
username_of none = []
username_of (some c) = c.username

abbrev pub user_id_of : Option UserTelegramConfig → ℤ
user_id_of none = pos 0
user_id_of (some c) = c.user_id

abbrev Fresh : Seen → UserRecord → Type 0
Fresh seen r =
    (get r.identity seen.unique_identities ≡ none)
    × (get (username_of r.telegram_config) seen.unique_telegram_username ≡ none)
    × (get (user_id_of r.telegram_config) seen.unique_telegram_user_id ≡ none)

abbrev after : UserRecord → Seen → Seen
after r seen = record {
  unique_identities = put r.identity true seen.unique_identities;
  unique_telegram_username = put (username_of r.telegram_config) true seen.unique_telegram_username;
  unique_telegram_user_id = put (user_id_of r.telegram_config) true seen.unique_telegram_user_id;
  any_root = r.root || seen.any_root;
}

-- What the loop has found out when it ends with no error.
abbrev Accepted : Seen → List UserRecord → Type 0
Accepted seen [] = Unit
Accepted seen (r ∷ rs) = (validate_user r ≡ none) × Fresh seen r × Accepted (after r seen) rs

see_user-Fresh :
    (r : UserRecord) (c : UserTelegramConfig) (seen seen' : Seen)
    → r.telegram_config ≡ some c
    → see_user r none seen ≡ passed seen'
    → Fresh seen r × (seen' ≡ after r seen)
unfolding see_user
see_user-Fresh r c seen seen' e h = ground arith

see_users-stop :
    (rs : List UserRecord) (e : UserError) (seen : Seen) → see_users rs (failed e) ≢ passed seen
unfolding see_users
see_users-stop rs e seen h = cc

valid_of_see_user :
    (r : UserRecord) (result : Option UserError) (seen seen' : Seen)
    → see_user r result seen ≡ passed seen'
    → result ≡ none
unfolding see_user
valid_of_see_user r none seen seen' h = refl
valid_of_see_user r (some e) seen seen' h = cc

see_user-Accepted :
    (r : UserRecord) (seen seen' : Seen)
    → see_user r (validate_user r) seen ≡ passed seen'
    → (validate_user r ≡ none) × Fresh seen r × (seen' ≡ after r seen)
see_user-Accepted r seen seen' h =
    let valid : validate_user r ≡ none = valid_of_see_user r (validate_user r) seen seen' h in
    let (c, complete) = validate_user-IsComplete r valid in
    let (fresh, e) = see_user-Fresh r c seen seen' complete.has_config (rw valid at h) in
    (valid, fresh, e)

abbrev any_root_in : List UserRecord → Bool
any_root_in [] = false
any_root_in (r ∷ rs) = r.root || any_root_in rs

Checked-cases :
    (x : Checked) → ((seen : Seen) × (x ≡ passed seen)) ⊎ ((e : UserError) × (x ≡ failed e))
Checked-cases (passed seen) = inl (seen, refl)
Checked-cases (failed e) = inr (e, refl)

see_users-cons :
    (r : UserRecord) (rs : List UserRecord) (seen : Seen) (x : Checked)
    → see_user r (validate_user r) seen ≡ x
    → see_users (r ∷ rs) (passed seen) ≡ see_users rs x
unfolding see_users
see_users-cons r rs seen x e = ap (see_users rs) e

see_users-Accepted :
    (rs : List UserRecord) (seen last : Seen)
    → see_users rs (passed seen) ≡ passed last
    → Accepted seen rs × (last.any_root ≡ (seen.any_root || any_root_in rs))
unfolding see_users
see_users-Accepted [] seen last h = (tt, ground arith)
see_users-Accepted (r ∷ rs) seen last h = elim (Checked-cases (see_user r (validate_user r) seen)) [
  | inr (e, refused) ↦
      absurd (see_users-stop rs e last (sym (see_users-cons r rs seen (failed e) refused) ∙ h))
  | inl (next, accepted) ↦
      let (valid, fresh, is_after) = see_user-Accepted r seen next accepted in
      let (rest, root) = see_users-Accepted rs (after r seen) last (
        sym (see_users-cons r rs seen (passed (after r seen)) (accepted ∙ ap passed is_after))
        ∙ h) in
      ((valid, fresh, rest), ground arith)
]

seen_identity :
    (k : Text) (seen : Seen) (rs : List UserRecord)
    → is_some (get k seen.unique_identities) ≡ true
    → Accepted seen rs
    → has_key (λ r. r.identity) k rs ≡ false
unfolding has_key
seen_identity k seen [] there a = refl
seen_identity k seen (r ∷ rs) there (valid, fresh, a) = ground (
  arith,
  ==_iff r.identity k,
  seen_identity k (after r seen) rs,
  get-put r.identity k true seen.unique_identities,
)

seen_username :
    (k : Text) (seen : Seen) (rs : List UserRecord)
    → is_some (get k seen.unique_telegram_username) ≡ true
    → Accepted seen rs
    → has_key (λ r. username_of r.telegram_config) k rs ≡ false
unfolding has_key
seen_username k seen [] there a = refl
seen_username k seen (r ∷ rs) there (valid, fresh, a) = ground (
  arith,
  ==_iff (username_of r.telegram_config) k,
  seen_username k (after r seen) rs,
  get-put (username_of r.telegram_config) k true seen.unique_telegram_username,
)

seen_user_id :
    (k : ℤ) (seen : Seen) (rs : List UserRecord)
    → is_some (get k seen.unique_telegram_user_id) ≡ true
    → Accepted seen rs
    → has_key (λ r. user_id_of r.telegram_config) k rs ≡ false
unfolding has_key
seen_user_id k seen [] there a = refl
seen_user_id k seen (r ∷ rs) there (valid, fresh, a) = ground (
  arith,
  ==_iff (user_id_of r.telegram_config) k,
  seen_user_id k (after r seen) rs,
  get-put (user_id_of r.telegram_config) k true seen.unique_telegram_user_id,
)

-- Each record is complete.
abbrev pub AllComplete : List UserRecord → Type 0
AllComplete [] = Unit
AllComplete (r ∷ rs) = ((c : UserTelegramConfig) × IsComplete r c) × AllComplete rs

-- A list of users that can be told apart and reached, with a root user among them.
pub record IsValid (rs : List UserRecord) : Type 0 where
  pub complete : AllComplete rs
  pub identities : Distinct (λ r. r.identity) rs
  pub usernames : Distinct (λ r. username_of r.telegram_config) rs
  pub user_ids : Distinct (λ r. user_id_of r.telegram_config) rs
  pub root : any_root_in rs ≡ true

complete_of_Accepted : (seen : Seen) (rs : List UserRecord) → Accepted seen rs → AllComplete rs
complete_of_Accepted seen [] a = tt
complete_of_Accepted seen (r ∷ rs) (valid, fresh, a) =
    (validate_user-IsComplete r valid, complete_of_Accepted (after r seen) rs a)

identities_of_Accepted :
    (seen : Seen) (rs : List UserRecord) → Accepted seen rs → Distinct (λ r. r.identity) rs
identities_of_Accepted seen [] a = tt
identities_of_Accepted seen (r ∷ rs) (valid, fresh, a) = (
  seen_identity r.identity (after r seen) rs (rw (get-put, ==_refl)) a,
  identities_of_Accepted (after r seen) rs a,
)

usernames_of_Accepted :
    (seen : Seen) (rs : List UserRecord)
    → Accepted seen rs
    → Distinct (λ r. username_of r.telegram_config) rs
usernames_of_Accepted seen [] a = tt
usernames_of_Accepted seen (r ∷ rs) (valid, fresh, a) = (
  seen_username (username_of r.telegram_config) (after r seen) rs (rw (get-put, ==_refl)) a,
  usernames_of_Accepted (after r seen) rs a,
)

user_ids_of_Accepted :
    (seen : Seen) (rs : List UserRecord)
    → Accepted seen rs
    → Distinct (λ r. user_id_of r.telegram_config) rs
user_ids_of_Accepted seen [] a = tt
user_ids_of_Accepted seen (r ∷ rs) (valid, fresh, a) = (
  seen_user_id (user_id_of r.telegram_config) (after r seen) rs (rw (get-put, ==_refl)) a,
  user_ids_of_Accepted (after r seen) rs a,
)

Accepted-IsValid :
    (rs : List UserRecord) (last : Seen)
    → see_users rs (passed nothing_seen) ≡ passed last
    → last.any_root ≡ true
    → IsValid rs
Accepted-IsValid rs last h root =
    let (a, e) = see_users-Accepted rs nothing_seen last h in
    record {
      complete = complete_of_Accepted nothing_seen rs a;
      identities = identities_of_Accepted nothing_seen rs a;
      usernames = usernames_of_Accepted nothing_seen rs a;
      user_ids = user_ids_of_Accepted nothing_seen rs a;
      root = sym e ∙ root;
    }

need_root_cases :
    (x : Checked) → need_root x ≡ none → (last : Seen) × (x ≡ passed last) × (last.any_root ≡ true)
need_root_cases (failed e) h = cc
need_root_cases (passed last) h = (last, refl, ground arith)

-- Records that pass `UserRecords.Validate` are all complete, have distinct identities, telegram
-- user names and telegram user ids, and a root user is among them.
pub validate_users-IsValid : (rs : List UserRecord) → validate_users rs ≡ none → IsValid rs
unfolding validate_users
validate_users-IsValid [] h = cc
validate_users-IsValid (r ∷ rs) h =
    let (last, e, root) = need_root_cases (see_users (r ∷ rs) (passed nothing_seen)) h in
    Accepted-IsValid (r ∷ rs) last e root
