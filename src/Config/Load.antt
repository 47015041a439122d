-- ===== src/Config/Load.antt =====
-- config/users_config.go and config/chain_config.go: how the files are loaded. What the file system and
-- viper give is in the parameters: the stat of a file, whether viper reads it, and what it decodes.
-- `filepath.Walk` visits the files of the home directory one after the other.
pub mod Panics
use validator_health_check.Prelude.{
  ℕ, Bool, true, false, not, ◌||◌, ◌&&◌, List, [], ◌∷◌, ◌++◌, Option, none, some, Text, text, Map,
  Run, done, panic, ◌>>=◌, Some, has_prefix, has_suffix, is_empty, eqb, Bool-cases, if◌then◌else◌,
  arith, ◌≡◌, ◌≢◌, ◌⊎◌, refl, inl, inr,
}
use validator_health_check.Utils.Retry.{Result, ok, err}
use validator_health_check.Config.Users.{UsersConfig}
use validator_health_check.Config.Chains.{ChainConfig, ChainValidatorConfig}

-- `os.Stat`: the permission bits of the file, or an error; `os.IsNotExist` of the error or another one.
pub data Stat : Type 0 where
  not_exist : Text → Stat
  stat_error : Text → Stat
  mode : ℕ → Stat

-- `0o600`
abbrev pub file_permission : ℕ
file_permission = 384

abbrev pub is_permitted : ℕ → Bool
is_permitted perm = eqb perm file_permission || eqb perm 448

abbrev pub with_text : Text → Text → Text
with_text message e = message ++ (text ": " ++ e)

pub record UsersFile : Type 0 where
  pub path : Text
  pub stat : Stat
  pub read_in_config : Option Text
  pub unmarshal : Result UsersConfig Text

abbrev pub decode_users : Option Text → Result UsersConfig Text → Result UsersConfig Text
decode_users (some e) decoded = err (with_text (text "unable to read users conf file") e)
decode_users none (err e) = err (with_text (text "unable to deserialize users conf file") e)
decode_users none (ok c) = ok c

abbrev pub load_users_stat : UsersFile → Stat → Run (Result UsersConfig Text)
load_users_stat f (not_exist e) =
    done (err (text "users file " ++ (f.path ++ text " could not be found")))
load_users_stat f (stat_error e) = done (err e)
load_users_stat f (mode perm) =
    if is_permitted perm then done (decode_users f.read_in_config f.unmarshal) else panic

-- `LoadUsersConfig`
unfoldable pub load_users_config : UsersFile → Run (Result UsersConfig Text)
load_users_config f = load_users_stat f f.stat

-- What viper decodes of the file of a chain: an entry of the validators may be null.
pub record ChainFile : Type 0 where
  pub config : ChainConfig
  pub entries : Map Text (Option ChainValidatorConfig)

-- What the walk meets.
pub data Visited : Type 0 where
  walk_error : Text → Visited
  directory : Visited
  file : (name path : Text) → Stat → Option Text → Result ChainFile Text → Visited

-- The loop that writes the keys into the entries.
unfoldable pub fill_addresses :
    Map Text (Option ChainValidatorConfig) → Run (Map Text ChainValidatorConfig)
fill_addresses [] = done []
fill_addresses ((valoper, none) ∷ entries) = panic
fill_addresses ((valoper, some v) ∷ entries) = do
  filled ← fill_addresses entries
  done ((valoper, record v { validator_operator_address = valoper }) ∷ filled)

abbrev pub filled_config :
    ChainConfig → Run (Map Text ChainValidatorConfig) → Run (Result (Option ChainConfig) Text)
filled_config c panic = panic
filled_config c (done validators) = done (ok (some (record c { validators = validators })))

abbrev pub decode_chain :
    Option Text → Result ChainFile Text → Run (Result (Option ChainConfig) Text)
decode_chain (some e) decoded = done (err (with_text (text "unable to read chain conf file") e))
decode_chain none (err e) = done (err (with_text (text "unable to deserialize chain conf file") e))
decode_chain none (ok f) = filled_config f.config (fill_addresses f.entries)

abbrev pub unable_to_stat : Text → Text → Text
unable_to_stat path e = with_text (text "unable to stat chain conf file " ++ path) e

abbrev pub load_chain_stat :
    Text → Stat → Option Text → Result ChainFile Text → Run (Result (Option ChainConfig) Text)
load_chain_stat path (not_exist e) read decoded = done (err (unable_to_stat path e))
load_chain_stat path (stat_error e) read decoded = done (err (unable_to_stat path e))
load_chain_stat path (mode perm) read decoded =
    if is_permitted perm then decode_chain read decoded else panic

abbrev pub is_chain_file : Text → Bool
is_chain_file name = has_prefix name (text "chain.") && has_suffix name (text ".yaml")

-- The function that the walk calls: `none` for what is passed over.
unfoldable pub load_visited : Visited → Run (Result (Option ChainConfig) Text)
unfolding fill_addresses has_suffix
load_visited (walk_error e) = done (err e)
load_visited directory = done (ok none)
load_visited (file name path stat read decoded) =
    if is_chain_file name then load_chain_stat path stat read decoded else done (ok none)

abbrev pub add_loaded : Option ChainConfig → List ChainConfig → List ChainConfig
add_loaded none cs = cs
add_loaded (some c) cs = c ∷ cs

abbrev pub before_rest :
    Option ChainConfig → Run (Result (List ChainConfig) Text) → Run (Result (List ChainConfig) Text)
before_rest c panic = panic
before_rest c (done (err e)) = done (err e)
before_rest c (done (ok cs)) = done (ok (add_loaded c cs))

abbrev pub then_rest :
    Run (Result (Option ChainConfig) Text)
    → Run (Result (List ChainConfig) Text)
    → Run (Result (List ChainConfig) Text)
then_rest panic rest = panic
then_rest (done (err e)) rest = done (err e)
then_rest (done (ok c)) rest = before_rest c rest

-- The walk ends at the first error.
unfoldable pub walk : List Visited → Run (Result (List ChainConfig) Text)
unfolding load_visited
walk [] = done (ok [])
walk (v ∷ vs) = let rest = walk vs in then_rest (load_visited v) rest

abbrev pub after_walk : Run (Result (List ChainConfig) Text) → Run (Result (List ChainConfig) Text)
after_walk panic = panic
after_walk (done (err e)) = done (err (with_text (text "unable to read chains conf files") e))
after_walk (done (ok [])) = done (err (text "no chain config found"))
after_walk (done (ok (c ∷ cs))) = done (ok (c ∷ cs))

-- `LoadChainsConfig`
unfoldable pub load_chains_config : List Visited → Run (Result (List ChainConfig) Text)
unfolding walk
load_chains_config vs = after_walk (walk vs)
