-- ===== src/Config/Load/Panics.antt =====
-- When loading a file panics.
use validator_health_check.Prelude.{
  ℕ, Bool, true, false, List, [], ◌∷◌, Option, none, some, Text, Map, Run, done, panic, ◌>>=◌, Some,
  if◌then◌else◌, text_eq, arith, ◌≡◌, ◌≢◌, ◌⊎◌, refl, inl, inr,
}
use validator_health_check.Utils.Retry.{Result, ok, err}
use validator_health_check.Config.Chains.{ChainConfig, ChainValidatorConfig}
use validator_health_check.Config.Load.{
  Stat, not_exist, stat_error, mode, is_permitted, UsersFile, decode_users, load_users_stat,
  load_users_config, ChainFile, Visited, walk_error, directory, file, fill_addresses, filled_config,
  decode_chain, load_chain_stat, is_chain_file, load_visited, then_rest, walk, after_walk,
  load_chains_config,
}

-- The permission is neither `600` nor `700`, in octal: 6 * 64 and 7 * 64.
abbrev pub HasWrongMode : Stat → Type 0
HasWrongMode (mode perm) = (perm ≢ 384) × (perm ≢ 448)
HasWrongMode _ = ⊥

-- A validator of the file is null.
abbrev pub HasNull : Result ChainFile Text → Type 0
HasNull (err e) = ⊥
HasNull (ok f) = Some (λ entry. entry.1 ≡ none) f.entries

-- A file of a chain that ends the program.
abbrev pub Spoils : Visited → Type 0
Spoils (file name path stat read decoded) =
    (is_chain_file name ≡ true) × (HasWrongMode stat ⊎ HasNull decoded)
Spoils _ = ⊥

wrong : (perm : ℕ) → is_permitted perm ≡ false → HasWrongMode (mode perm)
wrong perm h = ((λ e. ground arith), λ e. ground arith)

stat-HasWrongMode :
    (f : UsersFile) (s : Stat) → load_users_stat (record f { stat = s }) s ≡ panic → HasWrongMode s
stat-HasWrongMode f (not_exist e) h = cc
stat-HasWrongMode f (stat_error e) h = cc
stat-HasWrongMode f (mode perm) h = go (is_permitted perm) refl h
  where
    go :
        (b : Bool)
        → is_permitted perm ≡ b
        → (if b then done (decode_users f.read_in_config f.unmarshal) else panic) ≡ panic
        → HasWrongMode (mode perm)
    go true e k = cc
    go false e k = wrong perm e

pub load_users-HasWrongMode : (f : UsersFile) → load_users_config f ≡ panic → HasWrongMode f.stat
unfolding load_users_config
load_users-HasWrongMode f h = stat-HasWrongMode f f.stat h

fill-null :
    (entries : Map Text (Option ChainValidatorConfig))
    → fill_addresses entries ≡ panic
    → Some (λ entry. entry.1 ≡ none) entries
unfolding fill_addresses
fill-null [] h = cc
fill-null ((valoper, none) ∷ entries) h = inl refl
fill-null ((valoper, some v) ∷ entries) h =
    inr (fill-null entries (from (fill_addresses entries) h))
  where
    from :
        (r : Run (Map Text ChainValidatorConfig))
        → (r >>= λ filled.
            done ((valoper, record v { validator_operator_address = valoper }) ∷ filled))
          ≡ panic
        → r ≡ panic
    from panic k = refl
    from (done filled) k = cc

decode-HasNull :
    (read : Option Text) (decoded : Result ChainFile Text)
    → decode_chain read decoded ≡ panic
    → HasNull decoded
decode-HasNull (some e) decoded h = cc
decode-HasNull none (err e) h = cc
decode-HasNull none (ok f) h = fill-null f.entries (from (fill_addresses f.entries) h)
  where
    from : (r : Run (Map Text ChainValidatorConfig)) → filled_config f.config r ≡ panic → r ≡ panic
    from panic k = refl
    from (done filled) k = cc

stat-Spoils :
    (path : Text) (s : Stat) (read : Option Text) (decoded : Result ChainFile Text)
    → load_chain_stat path s read decoded ≡ panic
    → HasWrongMode s ⊎ HasNull decoded
stat-Spoils path (not_exist e) read decoded h = cc
stat-Spoils path (stat_error e) read decoded h = cc
stat-Spoils path (mode perm) read decoded h = go (is_permitted perm) refl h
  where
    go :
        (b : Bool)
        → is_permitted perm ≡ b
        → (if b then decode_chain read decoded else panic) ≡ panic
        → HasWrongMode (mode perm) ⊎ HasNull decoded
    go true e k = inr (decode-HasNull read decoded k)
    go false e k = inl (wrong perm e)

visited-Spoils : (v : Visited) → load_visited v ≡ panic → Spoils v
unfolding load_visited
visited-Spoils (walk_error e) h = cc
visited-Spoils directory h = cc
visited-Spoils (file name path stat read decoded) h = go (is_chain_file name) refl h
  where
    go :
        (b : Bool)
        → is_chain_file name ≡ b
        → (if b then load_chain_stat path stat read decoded else done (ok none)) ≡ panic
        → Spoils (file name path stat read decoded)
    go true e k = (e, stat-Spoils path stat read decoded k)
    go false e k = cc

walk-Spoils : (vs : List Visited) → walk vs ≡ panic → Some Spoils vs
unfolding walk
walk-Spoils [] h = cc
walk-Spoils (v ∷ vs) h = either (load_visited v) (walk vs) (visited-Spoils v) (walk-Spoils vs) h
  where
    either :
        (first : Run (Result (Option ChainConfig) Text))
        (rest : Run (Result (List ChainConfig) Text))
        → (first ≡ panic → Spoils v)
        → (rest ≡ panic → Some Spoils vs)
        → then_rest first rest ≡ panic
        → Spoils v ⊎ Some Spoils vs
    either panic rest here later k = inl (here refl)
    either (done (err e)) rest here later k = cc
    either (done (ok c)) panic here later k = inr (later refl)
    either (done (ok c)) (done (err e)) here later k = cc
    either (done (ok c)) (done (ok cs)) here later k = cc

pub load_chains-Spoils : (vs : List Visited) → load_chains_config vs ≡ panic → Some Spoils vs
unfolding load_chains_config
load_chains-Spoils vs h = walk-Spoils vs (from (walk vs) h)
  where
    from : (r : Run (Result (List ChainConfig) Text)) → after_walk r ≡ panic → r ≡ panic
    from panic k = refl
    from (done (err e)) k = cc
    from (done (ok [])) k = cc
    from (done (ok (c ∷ cs))) k = cc
