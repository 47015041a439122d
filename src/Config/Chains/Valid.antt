-- ===== src/Config/Chains/Valid.antt =====
-- What a validated list of chains is.
use validator_health_check.Prelude.{
  ℕ, Bool, true, false, not, List, [], ◌∷◌, Option, none, some, Text, Map, get, put, get-put,
  is_some, ==_iff, ==_refl, int_eq, text_eq, has_key, Distinct, any, All, arith, ◌≡◌, refl,
}
use validator_health_check.Config.Users.{UsersConfig, UserRecord}
use validator_health_check.Config.Chains.{
  ChainConfig, ChainError, or_else, fail_if, first_error, validate_chain, wrap, lacks_telegram,
  check_watcher, check_watchers, see_chains, validate_chains,
}

or_else-none : (a b : Option ChainError) → or_else a b ≡ none → (a ≡ none) × (b ≡ none)
or_else-none none b h = (refl, h)
or_else-none (some e) b h = cc

wrap-none : (name : Text) (a : Option ChainError) → wrap name a ≡ none → a ≡ none
wrap-none name none h = refl
wrap-none name (some e) h = cc

fail_if-none : (b : Bool) (e : ChainError) → fail_if b e ≡ none → b ≡ false
fail_if-none false e h = refl
fail_if-none true e h = cc

first_error-All {ℓ κ} :
    {A : Type ℓ} (check : A → Option ChainError) (P : A → Type κ) (xs : List A)
    → ((x : A) → check x ≡ none → P x)
    → first_error check xs ≡ none
    → All P xs
unfolding first_error
first_error-All check P [] sound h = tt
first_error-All check P (x ∷ xs) sound h =
    let (here, rest) = or_else-none (check x) (first_error check xs) h in
    (sound x here, first_error-All check P xs sound rest)

-- The user is known and can be reached through telegram.
abbrev pub IsReachable : UsersConfig → Text → Type 0
IsReachable users watcher =
    (r : UserRecord) × (get watcher users.users ≡ some r)
    × (lacks_telegram r.telegram_config ≡ false)

-- Every watcher of every validator of the chain can be reached.
abbrev pub AllWatched : UsersConfig → ChainConfig → Type 0
AllWatched users c = All (λ entry. All (IsReachable users) entry.1.watchers) c.validators

IsReachable-check :
    (users : UsersConfig) (chain valoper watcher : Text) (found : Option UserRecord)
    → get watcher users.users ≡ found
    → check_watcher chain valoper watcher found ≡ none
    → IsReachable users watcher
IsReachable-check users chain valoper watcher none e h = cc
IsReachable-check users chain valoper watcher (some r) e h = (r, e, fail_if-none _ _ h)

check_watchers-AllWatched :
    (users : UsersConfig) (c : ChainConfig) → check_watchers users c ≡ none → AllWatched users c
unfolding check_watchers
check_watchers-AllWatched users c = first_error-All _ _ c.validators λ entry.
    first_error-All _ (IsReachable users) entry.1.watchers λ watcher.
      IsReachable-check users c.chain_name entry.1.validator_operator_address watcher _ refl

-- Chains that can be told apart, of which one at least is enabled, each of them valid and with
-- watchers that can be reached.
pub record IsValid (users : UsersConfig) (cs : List ChainConfig) : Type 0 where
  pub valid : All (λ c. validate_chain c ≡ none) cs
  pub watched : All (AllWatched users) cs
  pub names : Distinct (λ c. c.chain_name) cs
  pub enabled : any (λ c. not c.disable) cs ≡ true

-- What the loop has found out when it ends with no error.
pub record IsAccepted (users : UsersConfig) (cs : List ChainConfig) (seen : Map Text Bool)
    (count : ℕ) : Type 0 where
  pub valid : All (λ c. validate_chain c ≡ none) cs
  pub watched : All (AllWatched users) cs
  pub names : Distinct (λ c. c.chain_name) cs
  pub fresh : (k : Text) → is_some (get k seen) ≡ true → has_key (λ c. c.chain_name) k cs ≡ false
  pub enabled : count ≡ 0 → any (λ c. not c.disable) cs ≡ true

see_chains-IsAccepted :
    (users : UsersConfig) (cs : List ChainConfig) (seen : Map Text Bool) (count : ℕ)
    → see_chains users cs seen count ≡ none
    → IsAccepted users cs seen count
unfolding see_chains any has_key
see_chains-IsAccepted users [] seen count h = record {
  valid = tt;
  watched = tt;
  names = tt;
  fresh = λ k there. refl;
  enabled = λ e. ground arith;
}
see_chains-IsAccepted users (c ∷ cs) seen count h =
    let (v, h1) = or_else-none (wrap c.chain_name (validate_chain c)) _ h in
    let (new, h2) = or_else-none (fail_if (is_some (get c.chain_name seen)) _) _ h1 in
    let (w, h3) = or_else-none (check_watchers users c) _ h2 in
    let a = see_chains-IsAccepted users cs (put c.chain_name true seen) _ h3 in
    record {
      valid = (wrap-none c.chain_name (validate_chain c) v, a.valid);
      watched = (check_watchers-AllWatched users c w, a.watched);
      names = (a.fresh c.chain_name (rw (get-put, ==_refl)), a.names);
      fresh = λ k there. ground (
        arith,
        ==_iff c.chain_name k,
        fail_if-none _ _ new,
        a.fresh k,
        get-put c.chain_name k true seen,
      );
      enabled = λ e. ground (arith, a.enabled);
    }

-- Chains that pass `ChainsConfig.Validate` have distinct names, one of them at least is enabled, each
-- is valid by itself, and every watcher of every validator, those of disabled chains included, is
-- a known user with a complete telegram section.
pub validate_chains-IsValid :
    (users : UsersConfig) (cs : List ChainConfig)
    → validate_chains users cs ≡ none
    → IsValid users cs
unfolding validate_chains
validate_chains-IsValid users [] h = cc
validate_chains-IsValid users (c ∷ cs) h =
    let a = see_chains-IsAccepted users (c ∷ cs) [] 0 h in
    record { valid = a.valid; watched = a.watched; names = a.names; enabled = a.enabled refl }
