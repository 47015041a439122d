-- ===== src/Start/Examples.antt =====
-- A round in which the users are read and the files of the chains are not.
use validator_health_check.Prelude.{true, none, some, [], ◌∷◌, Text, text, pos}
use validator_health_check.Utils.Retry.{Result, ok, err}
use validator_health_check.Config.Users.{UsersConfig, UserRecord}
use validator_health_check.Registry.Users.{no_users}
use validator_health_check.Registry.Chains.{no_chains}
use validator_health_check.Registry.Bots.{no_bots}
use validator_health_check.Config.Load.{UsersFile, Visited, directory, file, mode}
use validator_health_check.Start.{Registries, hot_reload}
use validator_health_check.Start.Reload.{Reloaded, hot_reload-Reloaded}

abbrev erin : UserRecord
erin = record {
  identity = text "erin";
  root = true;
  telegram_config =
      some (record { username = text "erin_tg"; user_id = pos 45; token = text "126:abc" });
}

abbrev users_file : UsersConfig
users_file = record { users = (text "erin", erin) ∷ [] }

abbrev at_start : Registries
at_start = record { users = no_users; chains = no_chains; bots = no_bots }

abbrev make : Text → Result Text Text
make token = ok token

abbrev users_on_disk : UsersFile
users_on_disk = record {
  path = text "/home/hcvald/users.yaml";
  stat = mode 384;
  read_in_config = none;
  unmarshal = ok users_file;
}

-- A file of a chain that anyone may read.
abbrev chain_on_disk : Visited
chain_on_disk =
    file (text "chain.juno.yaml") (text "/home/hcvald/chain.juno.yaml") (mode 420) none
      (err (text "not decoded"))

hot_reload-Reloaded_example :
    Reloaded make users_on_disk
      (directory ∷ chain_on_disk ∷ [])
      at_start
      (hot_reload make users_on_disk (directory ∷ chain_on_disk ∷ []) at_start)
hot_reload-Reloaded_example =
    hot_reload-Reloaded make users_on_disk (directory ∷ chain_on_disk ∷ []) at_start
