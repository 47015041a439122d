-- ===== src/Start/Reload.antt =====
-- What a hot reload leaves behind.
use validator_health_check.Prelude.{
  Bool, true, false, List, [], ◌∷◌, Option, none, some, Text, Run, done, panic, ◌>>=◌, text_eq,
  int_eq, Some, ◌≡◌, ◌⊎◌, refl, sym, ap, subst, ◌∙◌, inl, inr,
}
use validator_health_check.Utils.Retry.{Result, ok, err}
use validator_health_check.Config.Users.{
  UsersConfig, UserRecord, UserError, to_user_records, validate_users,
}
use validator_health_check.Config.Users.Valid.{IsValid}
use validator_health_check.Config.Load.{UsersFile, Visited, load_users_config, load_chains_config}
use validator_health_check.Config.Load.Panics.{
  HasWrongMode, Spoils, load_users-HasWrongMode, load_chains-Spoils,
}
use validator_health_check.Config.Chains.{ChainConfig, ChainError, validate_chains}
use validator_health_check.Registry.Users.{
  UserRegistry, no_users, put_records, update_users_config, update_validated,
}
use validator_health_check.Registry.Users.Lookup.{update-IsValid}
use validator_health_check.Registry.Chains.{update_chains_config}
use validator_health_check.Registry.Bots.{BotRegistry}
use validator_health_check.Registry.Bots.Kept.{KeepsBots, KeepsBots-refl}
use validator_health_check.Start.{
  Registries, init_bots, on_update, on_users_valid, reload_users, with_bots, on_chains_valid,
  reload_chains, with_chains, then_chains, with_users, hot_reload,
}
use validator_health_check.Start.BotsKept.{KeepsAll, init_bots-KeepsAll}

module _ (make : Text → Result Text Text) where
  -- The chains are as before, or were loaded and passed validation against the users, and are the
  -- ones of the files.
  abbrev pub ChainsFrom : UsersConfig → List Visited → Registries → Registries → Type 0
  ChainsFrom c visited s s' =
      (s'.chains ≡ s.chains)
      ⊎ ((cs : List ChainConfig) × (load_chains_config visited ≡ done (ok cs))
          × (validate_chains c cs ≡ none)
          × (s'.chains ≡ (update_chains_config c cs s.chains).1))

  -- Nothing of the users and chains has changed, or the users were loaded and passed validation and
  -- are the ones of the file; only then the chains may be replaced too.
  abbrev pub IsReloaded : UsersFile → List Visited → Registries → Registries → Type 0
  IsReloaded users_file visited s s' =
      ((s'.users ≡ s.users) × (s'.chains ≡ s.chains))
      ⊎ ((c : UsersConfig) × (load_users_config users_file ≡ done (ok c))
          × IsValid (to_user_records c)
          × (s'.users ≡ put_records (to_user_records c) no_users)
          × ChainsFrom c visited s s')

  -- The round ends, keeps every bot, and reloads as a whole or not at all; or a file makes it panic.
  abbrev pub Reloaded : UsersFile → List Visited → Registries → Run Registries → Type 0
  Reloaded users_file visited s panic = HasWrongMode users_file.stat ⊎ Some Spoils visited
  Reloaded users_file visited s (done s') =
      KeepsBots s.bots s'.bots × IsReloaded users_file visited s s'

  -- The first part of the round.
  abbrev UsersReloaded : Result UsersConfig Text → Registries → Run (Bool × Registries) → Type 0
  UsersReloaded load_users s panic = ⊥
  UsersReloaded load_users s (done (reloaded, s')) =
      KeepsBots s.bots s'.bots
      × (s'.chains ≡ s.chains)
      × (((reloaded ≡ false) × (s'.users ≡ s.users))
          ⊎ ((reloaded ≡ true)
              × ((c : UsersConfig) × (load_users ≡ ok c)
                  × IsValid (to_user_records c)
                  × (s'.users ≡ put_records (to_user_records c) no_users))))

  update_accepts :
      (rs : List UserRecord) (u : UserRegistry)
      → validate_users rs ≡ none
      → (update_users_config rs u).0 ≡ none
  unfolding update_users_config update_validated
  update_accepts [] u h = rw h refl
  update_accepts (r ∷ rs) u h = rw h refl

  with_bots-UsersReloaded :
      (c : UsersConfig) (s : Registries) (users : UserRegistry) (bots : Run BotRegistry)
      → IsValid (to_user_records c)
      → users ≡ put_records (to_user_records c) no_users
      → KeepsAll s.bots bots
      → UsersReloaded (ok c) s (with_bots make s users bots)
  with_bots-UsersReloaded c s users panic valid e keeps = keeps
  with_bots-UsersReloaded c s users (done bots) valid e keeps =
      (keeps, refl, inr (refl, (c, refl, valid, e)))

  on_update-UsersReloaded :
      (c : UsersConfig) (s : Registries) (answer : Option UserError × UserRegistry)
      → answer.0 ≡ none
      → IsValid (to_user_records c)
      → answer.1 ≡ put_records (to_user_records c) no_users
      → UsersReloaded (ok c) s (on_update make (to_user_records c) s answer)
  on_update-UsersReloaded c s (some e, users) accepted valid put_all = cc
  on_update-UsersReloaded c s (none, users) accepted valid put_all =
      with_bots-UsersReloaded c s users (init_bots make (to_user_records c) s.bots) valid put_all
        (init_bots-KeepsAll make (to_user_records c) s.bots valid.complete)

  on_valid-UsersReloaded :
      (c : UsersConfig) (s : Registries) (answer : Option UserError)
      → validate_users (to_user_records c) ≡ answer
      → UsersReloaded (ok c) s (on_users_valid make (to_user_records c) s answer)
  on_valid-UsersReloaded c s (some e) h = (KeepsBots-refl s.bots, refl, inl (refl, refl))
  on_valid-UsersReloaded c s none h =
      let accepted = update_accepts (to_user_records c) s.users h in
      let (valid, put_all) = update-IsValid (to_user_records c) s.users accepted in
      on_update-UsersReloaded c s (update_users_config (to_user_records c) s.users) accepted valid
        put_all

  reload_users-UsersReloaded :
      (load_users : Result UsersConfig Text) (s : Registries)
      → UsersReloaded load_users s (reload_users make load_users s)
  unfolding reload_users
  reload_users-UsersReloaded (err e) s = (KeepsBots-refl s.bots, refl, inl (refl, refl))
  reload_users-UsersReloaded (ok c) s =
      on_valid-UsersReloaded c s (validate_users (to_user_records c)) refl

  -- The second part.
  abbrev ChainsReloaded :
      UsersConfig → Result (List ChainConfig) Text → Registries → Registries → Type 0
  ChainsReloaded c load_chains s s' =
      (s'.users ≡ s.users)
      × (s'.bots ≡ s.bots)
      × ((s'.chains ≡ s.chains)
          ⊎ ((cs : List ChainConfig) × (load_chains ≡ ok cs)
              × (validate_chains c cs ≡ none)
              × (s'.chains ≡ (update_chains_config c cs s.chains).1)))

  on_chains-ChainsReloaded :
      (c : UsersConfig) (cs : List ChainConfig) (s : Registries) (answer : Option ChainError)
      → validate_chains c cs ≡ answer
      → ChainsReloaded c (ok cs) s (on_chains_valid c cs s answer)
  on_chains-ChainsReloaded c cs s (some e) h = (refl, refl, inl refl)
  on_chains-ChainsReloaded c cs s none h = (refl, refl, inr (cs, refl, h, refl))

  reload_chains-ChainsReloaded :
      (c : UsersConfig) (load_chains : Result (List ChainConfig) Text) (s : Registries)
      → ChainsReloaded c load_chains s (reload_chains c load_chains s)
  unfolding reload_chains
  reload_chains-ChainsReloaded c (err e) s = (refl, refl, inl refl)
  reload_chains-ChainsReloaded c (ok cs) s =
      on_chains-ChainsReloaded c cs s (validate_chains c cs) refl

  -- The chains, seen from before the first part.
  chains-from :
      (c : UsersConfig) (visited : List Visited) (load_chains : Result (List ChainConfig) Text)
      (s s' s'' : Registries)
      → load_chains_config visited ≡ done load_chains
      → s'.chains ≡ s.chains
      → ChainsReloaded c load_chains s' s''
      → ChainsFrom c visited s s''
  chains-from c visited load_chains s s' s'' load same (users, bots, inl chains) =
      inl (chains ∙ same)
  chains-from c visited load_chains s s' s'' load same
        (users, bots, inr (cs, loaded, valid, chains)) =
      inr
        (cs, load ∙ ap done loaded, valid, chains ∙ ap (λ r. (update_chains_config c cs r).1) same)

  both-parts :
      (users_file : UsersFile) (visited : List Visited) (c c' : UsersConfig) (s s' : Registries)
      → load_users_config users_file ≡ done (ok c)
      → c' ≡ c
      → KeepsBots s.bots s'.bots
      → s'.chains ≡ s.chains
      → IsValid (to_user_records c')
      → s'.users ≡ put_records (to_user_records c') no_users
      → (load : Run (Result (List ChainConfig) Text)) → load_chains_config visited ≡ load
      → Reloaded users_file visited s (with_chains c s' load)
  both-parts users_file visited c c' s s' load_users e keeps same valid put_all panic load =
      inr (load_chains-Spoils visited load)
  both-parts users_file visited c c' s s' load_users e keeps same valid put_all (done load_chains)
        load =
      let second = reload_chains-ChainsReloaded c load_chains s' in
      (
        subst (KeepsBots s.bots) (sym second.1) keeps,
        inr (
          c,
          load_users,
          subst (λ x. IsValid (to_user_records x)) e valid,
          second.0 ∙ put_all ∙ ap (λ x. put_records (to_user_records x) no_users) e,
          chains-from c visited load_chains s s' (reload_chains c load_chains s') load same second,
        ),
      )

  then_chains-Reloaded :
      (users_file : UsersFile) (visited : List Visited) (load_users : Result UsersConfig Text)
      (s : Registries) (first : Run (Bool × Registries))
      → load_users_config users_file ≡ done load_users
      → UsersReloaded load_users s first
      → Reloaded users_file visited s (first >>= then_chains load_users visited)
  then_chains-Reloaded users_file visited load_users s panic load h = absurd h
  then_chains-Reloaded users_file visited (err e) s (done (b, s')) load
        (keeps, same, inl (stay, users)) =
      (keeps, inl (users, same))
  then_chains-Reloaded users_file visited (err e) s (done (b, s')) load
        (keeps, same, inr (go, read)) =
      cc (read.1)
  then_chains-Reloaded users_file visited (ok c) s (done (true, s')) load
        (keeps, same, inl (stay, users)) =
      cc
  then_chains-Reloaded users_file visited (ok c) s (done (false, s')) load
        (keeps, same, inl (stay, users)) =
      (keeps, inl (users, same))
  then_chains-Reloaded users_file visited (ok c) s (done (false, s')) load
        (keeps, same, inr (go, read)) =
      cc
  then_chains-Reloaded users_file visited (ok c) s (done (true, s')) load
        (keeps, same, inr (go, (c', read, valid, put_all))) =
      both-parts users_file visited c c' s s' load (cc) keeps same valid put_all
        (load_chains_config visited) refl

  -- A round of the hot reload panics only if the file of the users has a wrong permission, or a file of
  -- a chain has one or has a null validator. Else it keeps every bot, with its chats and its
  -- priority. The registries of users and chains stay as they were, or the users are replaced by
  -- those of the file, which were loaded and passed validation; only then, the chains may be replaced
  -- too, by those of the files, if they were loaded and passed validation against these users.
  pub hot_reload-Reloaded :
      (users_file : UsersFile) (visited : List Visited) (s : Registries)
      → Reloaded users_file visited s (hot_reload make users_file visited s)
  unfolding hot_reload
  hot_reload-Reloaded users_file visited s = go (load_users_config users_file) refl
    where
      go :
          (load : Run (Result UsersConfig Text))
          → load_users_config users_file ≡ load
          → Reloaded users_file visited s (load >>= with_users make visited s)
      go panic e = inl (load_users-HasWrongMode users_file e)
      go (done load_users) e =
          then_chains-Reloaded users_file visited load_users s (reload_users make load_users s) e
            (reload_users-UsersReloaded load_users s)
