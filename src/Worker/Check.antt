-- ===== src/Worker/Check.antt =====
-- work/health_check_worker/worker.go: one round of `Start`, the health-check of the chain whose turn
-- it is. A panic ends the program.
use validator_health_check.Prelude.{
  pos, false, List, [], ◌∷◌, ◌++◌, Option, none, some, Text, text, Map, put, Duration, Time,
  minutes, seconds, since, ltb_ℤ, Run, done, panic, ◌==◌, if◌then◌else◌, text_eq,
}
use validator_health_check.Utils.Retry.{Result, ok, err}
use validator_health_check.Registry.Users.{UserRegistry}
use validator_health_check.Registry.Addresses.{AddressRegistry}
use validator_health_check.Registry.Chains.{
  RegisteredChainConfig, ValidatorOfRegisteredChainConfig, inform_priority_latest_healthy_rpc,
  get_first_chain_config_for_health_check,
}
use validator_health_check.CallCenter.Context.{concat}
use validator_health_check.Worker.Messages.{Watchers, collect_watchers}
use validator_health_check.Worker.Outside.{
  World, StakingValidator, SigningInfo, SlashingParams, wrap,
}
use validator_health_check.Worker.State.{
  M, pure, ◌>>=◌, ◌>>◌, reads, changes, read_clock, Channel, same_for_all, tell,
}
use validator_health_check.Worker.Endpoints.{HealthyRpc, get_most_healthy_rpc}
use validator_health_check.Worker.Pages.{
  get_all_validators, get_all_signing_infos, get_slashing_params,
}
use validator_health_check.Worker.Mapping.{reload_mapping_val_address_if_needed}
use validator_health_check.Worker.Ranking.{by_valoper, valoper_to_rank}
use validator_health_check.Worker.Direct.{check_managed}
use validator_health_check.Worker.Validator.{check_validators}
use validator_health_check.Worker.Proposals.{check_gov}

-- One health-check: the chain, its watchers, and where messages to them go.
pub record HealthCheck : Type 0 where
  pub chain : RegisteredChainConfig
  pub watchers : List Text
  pub channel : Channel

-- A message to all watchers of the chain.
abbrev pub tell_all : World → HealthCheck → Text → M (Unit {0})
tell_all w h message = tell w h.channel [] (same_for_all message) false h.watchers

abbrev too_old_text : World → Time → Duration → Text
too_old_text w latest_block_time outdated = concat (
    text "latest block time of the most healthy RPC is too old: "
    ∷ w.printing.print_time latest_block_time
    ∷ text ", diff "
    ∷ w.printing.print_duration outdated
    ∷ [])

-- A latest block that is older than `INFORM_TELEGRAM_IF_BLOCK_OLDER_THAN`.
abbrev pub tell_if_old : World → HealthCheck → HealthyRpc → Time → M (Unit {0})
tell_if_old w h rpc now =
    let outdated = since now rpc.latest_block_time in
    let message = too_old_text w rpc.latest_block_time outdated in
    if ltb_ℤ (pos (minutes 3)) outdated
    then tell w h.channel []
        (record {
          message = message;
          message_for_root = message ++ (text ", endpoint: " ++ rpc.endpoint);
        })
        false h.watchers
    else pure tt

-- `InformPriorityLatestHealthyRpcWL`, on the config that the map holds for the chain.
unfoldable pub inform_chain :
    Text → Text → Map Text RegisteredChainConfig → Map Text RegisteredChainConfig
inform_chain chain_name rpc [] = []
inform_chain chain_name rpc ((k, c) ∷ m) =
    (
      k,
      if k == chain_name
          then record c { rpc = inform_priority_latest_healthy_rpc rpc c.rpc }
          else c,
    )
    ∷ inform_chain chain_name rpc m

abbrev pub inform : HealthCheck → HealthyRpc → M (Unit {0})
inform h rpc = changes λ s. record s {
  chains = record s.chains {
    chain_name_to_chain_config =
        inform_chain h.chain.chain_name rpc.endpoint s.chains.chain_name_to_chain_config;
  };
}

abbrev pub on_addresses : Run AddressRegistry → M (Unit {0})
on_addresses panic s = panic
on_addresses (done addresses) s = done (tt, record s { addresses = addresses })

unfoldable pub reload_mapping : World → HealthCheck → List StakingValidator → M (Unit {0})
reload_mapping w h vs = do
  addresses ← reads (λ s. s.addresses)
  on_addresses (reload_mapping_val_address_if_needed w h.chain vs addresses)

-- The loop that fills `valconsToSigningInfo`.
unfoldable pub by_valcons : List SigningInfo → Map Text SigningInfo → Map Text SigningInfo
by_valcons [] m = m
by_valcons (info ∷ infos) m = by_valcons infos (put info.address info m)

-- An error on fetching is told, and leaves nothing.
abbrev pub signing_infos_or_tell :
    World → HealthCheck → Result (List SigningInfo) Text → M (Option (Map Text SigningInfo))
signing_infos_or_tell w h (ok infos) = pure (some (by_valcons infos []))
signing_infos_or_tell w h (err e) =
    tell_all w h (text "failed to get all validator signing infos, for uptime-check, error: " ++ e)
    >> pure none

abbrev pub params_or_tell :
    World → HealthCheck → Result SlashingParams Text → M (Option SlashingParams)
params_or_tell w h (ok p) = pure (some p)
params_or_tell w h (err e) =
    tell_all w h (text "failed to get all slashing params, for uptime-check, error: " ++ e)
    >> pure none

-- What follows once the validators are fetched.
unfoldable pub check_chain : World → HealthCheck → Text → List StakingValidator → M (Unit {0})
unfolding reload_mapping by_valcons
check_chain w h client vs = do
  reload_mapping w h vs
  infos ← get_all_signing_infos w w.page_fuel client >>= signing_infos_or_tell w h
  params ← get_slashing_params w client >>= params_or_tell w h
  check_validators w h.channel
      (record {
        staking_validators = by_valoper vs [];
        ranks = valoper_to_rank w vs;
        signing_infos = infos;
        slashing_params = params;
      })
      h.chain.validators
  check_managed w h.channel h.watchers h.chain.health_check_rpc
  check_gov w h.channel client h.watchers h.chain.validators

-- `healthCheckError` is the result.
abbrev pub on_validators :
    World → HealthCheck → Text → Result (List StakingValidator) Text → M (Option Text)
on_validators w h client (err e) = pure (some (wrap e (text "failed to get all validators")))
on_validators w h client (ok vs) = check_chain w h client vs >> pure none

abbrev pub on_healthy : World → HealthCheck → Result HealthyRpc Text → M (Option Text)
on_healthy w h (err e) = pure (some (wrap e (text "failed to get most healthy RPC")))
on_healthy w h (ok rpc) = do
  (read_clock w >>= tell_if_old w h rpc)
  inform h rpc
  get_all_validators w w.page_fuel rpc.client >>= on_validators w h rpc.client

-- The deferred message.
abbrev pub report_error : World → HealthCheck → Option Text → M (Unit {0})
report_error w h none = pure tt
report_error w h (some e) = tell_all w h (text "failed to health-check, error: " ++ e)

unfoldable pub check_with : World → HealthCheck → M (Unit {0})
unfolding check_chain inform_chain
check_with w h =
    get_most_healthy_rpc w h.chain.chain_id h.chain.rpc >>= on_healthy w h >>= report_error w h

abbrev collect_next : Run Watchers → (Watchers → Run Watchers) → Run Watchers
collect_next panic f = panic
collect_next (done ws) f = f ws

-- The loop over the validators that collects their watchers.
unfoldable pub collect_all :
    UserRegistry → List ValidatorOfRegisteredChainConfig → Watchers → Run Watchers
collect_all users [] ws = done ws
collect_all users (v ∷ vs) ws =
    collect_next (collect_watchers users v.watchers_identity ws) (collect_all users vs)

abbrev pub on_watchers : World → RegisteredChainConfig → Run Watchers → M (Unit {0})
on_watchers w chain panic = λ s. panic
on_watchers w chain (done ws) = check_with w (record {
  chain = chain;
  watchers = ws.identities;
  channel = record { chain_name = chain.chain_name; records = ws.records };
})

unfoldable pub health_check : World → RegisteredChainConfig → M (Unit {0})
unfolding check_with collect_all
health_check w chain = do
  users ← reads (λ s. s.users)
  on_watchers w chain
      (collect_all users chain.validators (record { identities = []; records = [] }))

-- At least thirty seconds.
abbrev pub health_check_interval : Duration → Duration
health_check_interval d = if ltb_ℤ d (pos (seconds 30)) then pos (seconds 30) else d

abbrev pub on_chain : World → Option RegisteredChainConfig → M (Unit {0})
on_chain w none = pure tt
on_chain w (some chain) = health_check w chain

-- `chainreg.GetFirstChainConfigForHealthCheckRL`
unfoldable pub pick_chain : World → Duration → M (Option RegisteredChainConfig)
pick_chain w interval = do
  now ← read_clock w
  s ← reads (λ s. s)
  changes (λ s. record s {
    chains =
        (get_first_chain_config_for_health_check w.sort_chains now interval s.pauser
          (λ others. others) s.chains).1;
  })
  pure
      (get_first_chain_config_for_health_check w.sort_chains now interval s.pauser
        (λ others. others) s.chains).0

-- One round of the loop of `Start`, with the configured interval.
unfoldable pub start_round : World → Duration → M (Unit {0})
unfolding health_check pick_chain
start_round w configured = pick_chain w (health_check_interval configured) >>= on_chain w
