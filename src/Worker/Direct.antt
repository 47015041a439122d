-- ===== src/Worker/Direct.antt =====
-- work/health_check_worker/worker.go: the node of a validator, and the managed nodes of a chain,
-- asked directly.
pub mod Additive
use validator_health_check.Prelude.{
  ℕ, Bool, true, false, List, [], ◌∷◌, ◌++◌, Option, none, some, Text, text, Time, Duration, pos,
  minutes, seconds, since, ltb_ℤ, leb_ℤ, is_empty, Run, done, if◌then◌else◌, text_eq,
}
use validator_health_check.Utils.Retry.{Result, ok, err}
use validator_health_check.Utils.Slices.{collisions}
use validator_health_check.Push.Spam.{direct_health_check_optional_rpc, health_check_managed_rpc}
use validator_health_check.Registry.Users.{get_root_users_identity}
use validator_health_check.Registry.Chains.{RegisteredChainConfig, ValidatorOfRegisteredChainConfig}
use validator_health_check.CallCenter.Context.{concat}
use validator_health_check.Worker.Outside.{World, ResultStatus, wrap}
use validator_health_check.Worker.State.{
  Services, M, pure, fail, then_run, ◌>>=◌, ◌>>◌, reads, read_clock, get_client, Channel,
  tell_unless_recent,
}
use validator_health_check.Worker.Endpoints.{ask_status}
use validator_health_check.Worker.Explain.{explain_duration}
use validator_health_check.Worker.Signing.{Checked}

-- `errorToReport`, `fatal` and `ignoreIfLastSentLessThan`
pub record Report : Type 0 where
  pub message : Text
  pub fatal : Bool
  pub interval : Duration

abbrev pub warning : Text → Report
warning message = record { message = message; fatal = false; interval = pos (minutes 15) }

abbrev concerning : World → Text → Text → Text → Text
concerning w what moniker endpoint =
    concat (text "failed to get " ∷ what ∷ text " validator " ∷ moniker ∷ text ": " ∷ endpoint ∷ [])

abbrev catching_up_text : World → Text → ResultStatus → Text
catching_up_text w subject r = concat (
    subject
    ∷ text " is catching up, block "
    ∷ w.printing.print_int r.latest_block_height
    ∷ text ", time "
    ∷ w.printing.print_time r.latest_block_time
    ∷ [])

abbrev out_dated_text : World → Text → ResultStatus → Time → Time → Text
out_dated_text w subject r now server_time = concat (
    subject
    ∷ text " is out dated "
    ∷ explain_duration w.printing.print_int (since now r.latest_block_time)
    ∷ text ", time "
    ∷ w.printing.print_time r.latest_block_time
    ∷ text ", server time "
    ∷ w.printing.print_time server_time
    ∷ [])

-- The two cases in which a status is reported.
abbrev pub direct_out_dated : World → Text → ResultStatus → Time → M (Option Report)
direct_out_dated w moniker r now =
    if ltb_ℤ (pos (seconds 30)) (since now r.latest_block_time)
    then (read_clock w >>= λ server_time. pure (
        some (record {
          message = out_dated_text w (text "validator " ++ moniker) r now server_time;
          fatal = true;
          interval = pos (minutes 10);
        })))
    else pure none

abbrev pub direct_status : World → Text → Text → Result ResultStatus Text → M (Option Report)
direct_status w moniker endpoint (err e) = pure (
    some
      (warning (wrap e (concerning w (text "status from direct health-check") moniker endpoint))))
direct_status w moniker endpoint (ok r) =
    if r.catching_up
    then pure (
        some
          (record (warning (catching_up_text w (text "validator " ++ moniker) r)) { fatal = true }))
    else read_clock w >>= direct_out_dated w moniker r

-- A client with no websocket client is a nil pointer, whose use panics.
abbrev pub ask_client : World → Text → M (Result ResultStatus Text)
ask_client w client = if w.has_websocket client then ask_status w client else fail

abbrev pub direct_client : World → Text → Text → Result Text Text → M (Option Report)
direct_client w moniker endpoint (err e) = pure (
    some
      (warning (wrap e (concerning w (text "RPC client to direct health-check") moniker endpoint))))
direct_client w moniker endpoint (ok client) =
    ask_client w client >>= direct_status w moniker endpoint

-- The deferred report.
abbrev pub report_direct : World → Checked → Option Report → M (Unit {0})
report_direct w k none = pure tt
report_direct w k (some r) =
    tell_unless_recent w k.channel direct_health_check_optional_rpc k.validator.watchers_identity
      r.interval k.validator.validator_operator_address r.message r.fatal

unfoldable pub check_direct : World → Checked → M (Unit {0})
unfolding ask_status explain_duration
check_direct w k =
    if is_empty k.validator.optional_health_check_rpc
    then pure tt
    else (get_client w k.validator.optional_health_check_rpc
        >>= direct_client w k.moniker k.validator.optional_health_check_rpc
        >>= report_direct w k)

abbrev pub managed_out_dated : World → Text → ResultStatus → Time → M (Option Text)
managed_out_dated w managed_rpc r now =
    if leb_ℤ (pos (seconds 180)) (since now r.latest_block_time)
    then (read_clock w >>= λ server_time. pure (
        some (
          out_dated_text w (text "managed RPC node") r now server_time
          ++ (text ", RPC " ++ managed_rpc))))
    else pure none

abbrev pub managed_status : World → Text → Result ResultStatus Text → M (Option Text)
managed_status w managed_rpc (err e) =
    pure (some (wrap e (text "failed to get status for health-check managed RPC " ++ managed_rpc)))
managed_status w managed_rpc (ok r) =
    if r.catching_up
    then pure
        (some (catching_up_text w (text "managed RPC node") r ++ (text ", RPC " ++ managed_rpc)))
    else read_clock w >>= managed_out_dated w managed_rpc r

abbrev pub managed_client : World → Text → Result Text Text → M (Option Text)
managed_client w managed_rpc (err e) =
    pure
      (some (wrap e (text "failed to get RPC client to health-check managed RPC " ++ managed_rpc)))
managed_client w managed_rpc (ok client) = ask_client w client >>= managed_status w managed_rpc

abbrev pub report_managed : World → Channel → List Text → Option Text → M (Unit {0})
report_managed w c roots none = pure tt
report_managed w c roots (some message) =
    tell_unless_recent w c health_check_managed_rpc roots (pos (minutes 30)) [] message false

-- The loop over the managed endpoints.
unfoldable pub check_each_managed : World → Channel → List Text → List Text → M (Unit {0})
unfolding ask_status explain_duration
check_each_managed w c roots [] = pure tt
check_each_managed w c roots (rpc ∷ rpcs) =
    (get_client w rpc >>= managed_client w rpc >>= report_managed w c roots)
    >> check_each_managed w c roots rpcs

-- If no root user watches the chain there is nobody to report to.
abbrev pub check_managed_for : World → Channel → List Text → List Text → M (Unit {0})
check_managed_for w c rpcs [] = pure tt
check_managed_for w c rpcs (root ∷ roots) = check_each_managed w c (root ∷ roots) rpcs

unfoldable pub check_managed : World → Channel → List Text → List Text → M (Unit {0})
unfolding check_each_managed
check_managed w c all_watchers [] = pure tt
check_managed w c all_watchers (rpc ∷ rpcs) = do
  users ← reads (λ s. s.users)
  check_managed_for w c (rpc ∷ rpcs) (collisions (get_root_users_identity users) all_watchers)
