-- ===== src/Worker/Direct/Additive.antt =====
-- The direct checks of nodes do not panic and only add to the queues.
use validator_health_check.Prelude.{
  true, false, List, [], ◌∷◌, Option, none, some, Text, Time, All, is_empty, pos, seconds, since,
  ltb_ℤ, leb_ℤ, text_eq, Bool-cases, inl, inr, ◌≡◌,
}
use validator_health_check.Utils.Retry.{Result, ok, err}
use validator_health_check.Utils.Slices.{collisions}
use validator_health_check.Registry.Users.{get_root_users_identity}
use validator_health_check.Worker.Messages.Fatal.{HaveTelegram}
use validator_health_check.Worker.Outside.{World, ResultStatus}
use validator_health_check.Worker.State.{◌>>=◌, read_clock, get_client, Channel}
use validator_health_check.Worker.Steps.{
  IsAdditive, pure-IsAdditive, skip-IsAdditive, >>=-IsAdditive, read_clock-IsAdditive,
  ask_status-IsAdditive, get_client-IsAdditive, tell_unless_recent-IsAdditive,
}
use validator_health_check.Worker.Signing.{Checked}
use validator_health_check.Worker.Direct.{
  Report, direct_out_dated, direct_status, ask_client, direct_client, report_direct, check_direct,
  managed_out_dated, managed_status, managed_client, report_managed, check_each_managed,
  check_managed_for, check_managed,
}

module _ (w : World) (websockets : (client : Text) → w.has_websocket client ≡ true) where
  direct_out_dated-IsAdditive :
      (moniker : Text) (r : ResultStatus) (now : Time)
      → IsAdditive (direct_out_dated w moniker r now)
  direct_out_dated-IsAdditive moniker r now =
      elim (Bool-cases (ltb_ℤ (pos (seconds 30)) (since now r.latest_block_time))) [
        | inl e ↦
            rw e (>>=-IsAdditive (read_clock w) _ (read_clock-IsAdditive w) λ t. pure-IsAdditive _)
        | inr e ↦ rw e (pure-IsAdditive _)
      ]

  direct_status-IsAdditive :
      (moniker endpoint : Text) (answer : Result ResultStatus Text)
      → IsAdditive (direct_status w moniker endpoint answer)
  direct_status-IsAdditive moniker endpoint (err e) = pure-IsAdditive _
  direct_status-IsAdditive moniker endpoint (ok r) = elim (Bool-cases r.catching_up) [
    | inl e ↦ rw e (pure-IsAdditive _)
    | inr e ↦ rw e (
        >>=-IsAdditive (read_clock w) _ (read_clock-IsAdditive w)
          λ now. direct_out_dated-IsAdditive moniker r now)
  ]

  ask_client-IsAdditive : (client : Text) → IsAdditive (ask_client w client)
  ask_client-IsAdditive client = rw (websockets client) (ask_status-IsAdditive w client)

  direct_client-IsAdditive :
      (moniker endpoint : Text) (answer : Result Text Text)
      → IsAdditive (direct_client w moniker endpoint answer)
  direct_client-IsAdditive moniker endpoint (err e) = pure-IsAdditive _
  direct_client-IsAdditive moniker endpoint (ok client) =
      >>=-IsAdditive (ask_client w client) _ (ask_client-IsAdditive client)
        λ answer. direct_status-IsAdditive moniker endpoint answer

  report_direct-IsAdditive :
      (k : Checked) (r : Option Report)
      → HaveTelegram k.channel.records
      → IsAdditive (report_direct w k r)
  report_direct-IsAdditive k none have = skip-IsAdditive
  report_direct-IsAdditive k (some r) have =
      tell_unless_recent-IsAdditive w k.channel have _ _ _ _ _ _

  pub check_direct-IsAdditive :
      (k : Checked) → HaveTelegram k.channel.records → IsAdditive (check_direct w k)
  unfolding check_direct
  check_direct-IsAdditive k have =
      elim (Bool-cases (is_empty k.validator.optional_health_check_rpc)) [
        | inl e ↦ rw e (skip-IsAdditive)
        | inr e ↦ rw e (
            >>=-IsAdditive
              (get_client w k.validator.optional_health_check_rpc
                >>= direct_client w k.moniker k.validator.optional_health_check_rpc)
              (report_direct w k)
              (>>=-IsAdditive (get_client w k.validator.optional_health_check_rpc) _
                (get_client-IsAdditive w k.validator.optional_health_check_rpc e)
                λ answer.
                  direct_client-IsAdditive k.moniker k.validator.optional_health_check_rpc answer)
              λ r. report_direct-IsAdditive k r have)
      ]

  managed_out_dated-IsAdditive :
      (rpc : Text) (r : ResultStatus) (now : Time) → IsAdditive (managed_out_dated w rpc r now)
  managed_out_dated-IsAdditive rpc r now =
      elim (Bool-cases (leb_ℤ (pos (seconds 180)) (since now r.latest_block_time))) [
        | inl e ↦
            rw e (>>=-IsAdditive (read_clock w) _ (read_clock-IsAdditive w) λ t. pure-IsAdditive _)
        | inr e ↦ rw e (pure-IsAdditive _)
      ]

  managed_status-IsAdditive :
      (rpc : Text) (answer : Result ResultStatus Text) → IsAdditive (managed_status w rpc answer)
  managed_status-IsAdditive rpc (err e) = pure-IsAdditive _
  managed_status-IsAdditive rpc (ok r) = elim (Bool-cases r.catching_up) [
    | inl e ↦ rw e (pure-IsAdditive _)
    | inr e ↦ rw e (
        >>=-IsAdditive (read_clock w) _ (read_clock-IsAdditive w)
          λ now. managed_out_dated-IsAdditive rpc r now)
  ]

  managed_client-IsAdditive :
      (rpc : Text) (answer : Result Text Text) → IsAdditive (managed_client w rpc answer)
  managed_client-IsAdditive rpc (err e) = pure-IsAdditive _
  managed_client-IsAdditive rpc (ok client) =
      >>=-IsAdditive (ask_client w client) _ (ask_client-IsAdditive client)
        λ answer. managed_status-IsAdditive rpc answer

  module _ (c : Channel) (have : HaveTelegram c.records) where
    report_managed-IsAdditive :
        (roots : List Text) (message : Option Text) → IsAdditive (report_managed w c roots message)
    report_managed-IsAdditive roots none = skip-IsAdditive
    report_managed-IsAdditive roots (some message) =
        tell_unless_recent-IsAdditive w c have _ _ _ _ _ _

    check_each-IsAdditive :
        (roots rpcs : List Text)
        → All (λ rpc. is_empty rpc ≡ false) rpcs
        → IsAdditive (check_each_managed w c roots rpcs)
    unfolding check_each_managed
    check_each-IsAdditive roots [] h = skip-IsAdditive
    check_each-IsAdditive roots (rpc ∷ rpcs) h =
        >>=-IsAdditive (get_client w rpc >>= managed_client w rpc >>= report_managed w c roots) _
          (>>=-IsAdditive (get_client w rpc >>= managed_client w rpc) (report_managed w c roots)
            (>>=-IsAdditive (get_client w rpc) _ (get_client-IsAdditive w rpc h.0)
              λ answer. managed_client-IsAdditive rpc answer)
            λ message. report_managed-IsAdditive roots message)
          λ _. check_each-IsAdditive roots rpcs h.1

    check_for-IsAdditive :
        (rpcs roots : List Text)
        → All (λ rpc. is_empty rpc ≡ false) rpcs
        → IsAdditive (check_managed_for w c rpcs roots)
    check_for-IsAdditive rpcs [] h = skip-IsAdditive
    check_for-IsAdditive rpcs (root ∷ roots) h = check_each-IsAdditive (root ∷ roots) rpcs h

    pub check_managed-IsAdditive :
        (all_watchers rpcs : List Text)
        → All (λ rpc. is_empty rpc ≡ false) rpcs
        → IsAdditive (check_managed w c all_watchers rpcs)
    unfolding check_managed
    check_managed-IsAdditive all_watchers [] h = skip-IsAdditive
    check_managed-IsAdditive all_watchers (rpc ∷ rpcs) h = record {
      adds = λ s keyed.
          (check_for-IsAdditive (rpc ∷ rpcs)
              (collisions (get_root_users_identity s.users) all_watchers) h).adds
            s keyed;
    }
