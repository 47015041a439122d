-- ===== src/Worker/Sample.antt =====
-- A world for the examples of the worker: whole numbers for floats, and nodes that answer at once.
use validator_health_check.Prelude.{
  ℕ, suc, ◌+◌, ◌-◌, ◌*◌, ◌/◌, ◌≤◌, pos, pos_part, false, [], ◌∷◌, some, Text, text, Duration, done,
  seconds, ltb, leb, ltb_ℤ, eqb_ℤ, by_insertion, List, true, arith, ◌≡◌,
}
use mathlib.Core.List.{Permᴰ}
use mathlib.Core.List.Permᴰ.{refl as perm_refl}
use validator_health_check.Utils.Retry.{Result, ok, err}
use validator_health_check.Worker.State.{Services}
use validator_health_check.Registry.Users.{no_users}
use validator_health_check.Registry.Chains.{no_chains}
use validator_health_check.Registry.Pauser.{nothing_paused}
use validator_health_check.Registry.Addresses.{no_addresses}
use validator_health_check.Push.Pusher.{no_queues}
use validator_health_check.Worker.Outside.{
  World, Numbers, Printing, Encoding, ResultStatus, ScoredRpc,
}

abbrev pub numbers : Numbers
numbers = record {
  of_int64 = pos_part;
  times = ◌*◌;
  over = ◌/◌;
  minus = ◌-◌;
  is_above = λ a b. ltb b a;
  at_most = leb;
  is_positive = λ a. done (ltb_ℤ (pos 0) a);
  is_one = λ a. done (eqb_ℤ (pos 100) a);
  new_dec = λ n. n;
  mul = λ a b. done (pos (pos_part a * pos_part b));
  ceil = λ a. done (pos ((pos_part a + 99) / 100));
  round_int64 = λ a. done a;
}

abbrev pub printing : Printing
printing = record {
  print_int = λ n. pos_part n ∷ [];
  print_time = λ t. t ∷ [];
  print_duration = λ d. pos_part d ∷ [];
  print_float = λ f. f ∷ [];
  print_status = λ b. text "BOND_STATUS_UNSPECIFIED";
  print_minutes = λ d. pos_part d ∷ [];
}

abbrev pub encoding : Encoding
encoding = record {
  marshal_validators_request = λ limit key. some (limit ∷ key);
  unmarshal_validators_response = λ bz. err (text "no validators");
  marshal_signing_infos_request = λ limit key. some (limit ∷ key);
  unmarshal_signing_infos_response = λ bz. err (text "no signing infos");
  marshal_params_request = some [];
  unmarshal_params_response = λ bz. err (text "no params");
  marshal_proposals_request = λ r. some r.voter;
  unmarshal_proposals_response = λ bz. ok bz;
  consensus_address = λ pubkey. some pubkey;
  convert_and_encode = λ hrp bytes. ok hrp;
  decode_and_convert = λ bech. ok (bech, bech);
}

pub late_enough : ℕ → ltb_ℤ (pos (seconds 8)) (pos (seconds 5)) ≡ false
late_enough tick = ground arith

pub three : ℕ → 3 ≤ 3
three tick = omega arith

pub arrives : (tick : ℕ) (xs : List ScoredRpc) → Permᴰ xs xs
arrives tick xs = perm_refl xs

abbrev pub two_seconds_each : ℕ → ℕ → Duration
two_seconds_each tick n = pos (seconds (2 * suc n))

-- The nodes give this status, and no answer to a query.
abbrev pub world : (Text → Result ResultStatus Text) → World
world status = record {
  numbers = numbers;
  printing = printing;
  encoding = encoding;
  clock = λ tick. seconds (1000 + tick);
  elapsed = two_seconds_each;
  last_attempt = λ tick. 3;
  last_attempt_count = three;
  last_attempt_late = late_enough;
  connect = λ tick endpoint. ok endpoint;
  has_websocket = λ client. true;
  status = λ tick client n. status client;
  abci_query = λ tick client path request n. err (text "unavailable");
  arrive = λ tick xs. xs;
  arrive-perm = arrives;
  sort_scored = by_insertion;
  sort_validators = by_insertion;
  sort_chains = by_insertion;
  page_fuel = 9;
}

-- The services before anything has happened.
abbrev pub idle : Services
idle = record {
  tick = 0;
  users = no_users;
  chains = no_chains;
  pauser = nothing_paused;
  addresses = no_addresses;
  clients = [];
  pusher = no_queues;
  spam = [];
  health_checks = [];
  gov = record { last_check_gov_by_chain = []; cache_voted_gov = [] };
}
