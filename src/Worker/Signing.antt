-- ===== src/Worker/Signing.antt =====
-- work/health_check_worker/worker.go: what the signing information of one validator gives rise to,
-- and what is kept of it for `/last`.
pub mod Additive
pub mod Suppressed
pub mod Examples
use validator_health_check.Prelude.{
  ℕ, ℤ, pos, ◌-ℤ◌, Bool, true, false, ◌&&◌, List, [], ◌∷◌, ◌++◌, Option, none, some, Text, text,
  Map, get, Duration, minutes, hours, since, ltb, ltb_ℤ, Run, done, Time, text_eq, if◌then◌else◌,
}
use validator_health_check.Push.Spam.{
  tome_stoned, jailed, low_uptime, missed_blocks_over_dangerous_threshold,
}
use validator_health_check.Registry.Chains.{ValidatorOfRegisteredChainConfig}
use validator_health_check.Registry.Addresses.{get_valcons_by_valoper}
use validator_health_check.CallCenter.Context.{concat}
use validator_health_check.Worker.Outside.{World, Numbers, SigningInfo, SlashingParams, Float64}
use validator_health_check.Worker.Slashing.{has_window, slashing_when_missed_excess}
use validator_health_check.Worker.Cache.{CacheValidatorHealthCheck}
use validator_health_check.Worker.State.{
  Services, M, pure, then_run, ◌>>=◌, ◌>>◌, from_run, reads, read_clock, Channel, same_for_all,
  tell, tell_unless_recent,
}

-- `utils.RatioOfInt64`
unfoldable pub ratio_of_int64 : Numbers → ℤ → ℤ → Float64
ratio_of_int64 n num den = n.over (n.times (n.of_int64 num) (n.of_int64 (pos 100))) (n.of_int64 den)

-- One validator while it is checked.
pub record Checked : Type 0 where
  pub channel : Channel
  pub validator : ValidatorOfRegisteredChainConfig
  pub moniker : Text

-- A message about the validator.
abbrev pub tell_watchers : World → Checked → Text → Bool → M (Unit {0})
tell_watchers w k message fatal =
    tell w k.channel k.validator.validator_operator_address (same_for_all message) fatal
      k.validator.watchers_identity

abbrev missed_part : World → SigningInfo → SlashingParams → ℤ → Text
missed_part w info p excess = concat (
    text " Missed "
    ∷ w.printing.print_int info.missed_blocks_counter
    ∷ text "/"
    ∷ w.printing.print_int excess
    ∷ text ", ratio "
    ∷ w.printing.print_float (ratio_of_int64 w.numbers info.missed_blocks_counter excess)
    ∷ text "%, window "
    ∷ w.printing.print_int p.signed_blocks_window
    ∷ text " blocks"
    ∷ [])

unfoldable pub check_missed_blocks :
    World → Checked → SigningInfo → SlashingParams → ℤ → M (Unit {0})
unfolding ratio_of_int64
check_missed_blocks w k info p excess =
    let n = w.numbers in
    let ratio = ratio_of_int64 n info.missed_blocks_counter excess in
    if n.is_above ratio (n.of_int64 (pos 50))
    then tell_unless_recent w k.channel missed_blocks_over_dangerous_threshold
        k.validator.watchers_identity (pos (minutes 15)) k.validator.validator_operator_address
        (k.moniker
          ++ (text
                " has missed more than half of the allowed blocks in the window, beware of being Jailed."
              ++ missed_part w info p excess))
        true
    else if n.is_above ratio (n.of_int64 (pos 10))
    then tell_unless_recent w k.channel missed_blocks_over_dangerous_threshold
        k.validator.watchers_identity (pos (hours 2)) k.validator.validator_operator_address
        (k.moniker ++ (text " has high missed-block-ratio." ++ missed_part w info p excess)) false
    else pure tt

abbrev pub uptime_of : Numbers → SigningInfo → SlashingParams → Float64
uptime_of n info p =
    n.minus (n.of_int64 (pos 100))
      (ratio_of_int64 n info.missed_blocks_counter p.signed_blocks_window)

abbrev pub at_most_percent : Numbers → Float64 → ℕ → Bool
at_most_percent n uptime percent = n.at_most uptime (n.of_int64 (pos percent))

-- `ignoreIfLastSentLessThan`
abbrev pub uptime_interval : Numbers → Float64 → Duration
uptime_interval n uptime =
    if at_most_percent n uptime 65
    then pos (minutes 15)
    else if at_most_percent n uptime 75
    then pos (minutes 30)
    else pos (hours 1)

unfoldable pub check_uptime : World → Checked → Float64 → M (Unit {0})
check_uptime w k uptime =
    if at_most_percent w.numbers uptime 90
    then tell_unless_recent w k.channel low_uptime k.validator.watchers_identity
        (uptime_interval w.numbers uptime) k.validator.validator_operator_address
        (k.moniker ++ (text " has low uptime " ++ (w.printing.print_float uptime ++ text "%")))
        (at_most_percent w.numbers uptime 70)
    else pure tt

abbrev pub check_window :
    World
    → Checked
    → SigningInfo
    → SlashingParams
    → ℤ
    → CacheValidatorHealthCheck
    → M CacheValidatorHealthCheck
check_window w k info p excess cache = do
  check_missed_blocks w k info p excess
  check_uptime w k (uptime_of w.numbers info p)
  pure (record cache {
    downtime_slashing_when_missed_excess = some excess;
    uptime = some (uptime_of w.numbers info p);
  })

abbrev pub check_if_window :
    World
    → Checked
    → SigningInfo
    → SlashingParams
    → CacheValidatorHealthCheck
    → Bool
    → M CacheValidatorHealthCheck
check_if_window w k info p cache has =
    if has
    then (from_run (slashing_when_missed_excess w.numbers p) >>= λ excess.
        check_window w k info p excess cache)
    else pure cache

abbrev pub check_params :
    World
    → Checked
    → SigningInfo
    → Option SlashingParams
    → CacheValidatorHealthCheck
    → M CacheValidatorHealthCheck
check_params w k info none cache = do
  tell_watchers w k
      (text "skipped uptime health-check for "
        ++ (k.moniker ++ text " because missing slashing params"))
      false
  pure cache
check_params w k info (some p) cache =
    from_run (has_window w.numbers p) >>= check_if_window w k info p cache

-- The last branch: neither tombstoned nor jailed.
unfoldable pub check_missed :
    World
    → Checked
    → SigningInfo
    → Option SlashingParams
    → CacheValidatorHealthCheck
    → M CacheValidatorHealthCheck
unfolding check_missed_blocks check_uptime has_window slashing_when_missed_excess
check_missed w k info p cache =
    if ltb_ℤ (pos 0) info.missed_blocks_counter
    then (check_params w k info p cache >>= λ c.
        pure (record c { missed_block_count = some info.missed_blocks_counter }))
    else pure cache

abbrev pub jailed_cache : SigningInfo → CacheValidatorHealthCheck → CacheValidatorHealthCheck
jailed_cache info cache = record cache { jailed = some true; jailed_until = some info.jailed_until }

abbrev jailed_message : World → Checked → SigningInfo → Time → Text
jailed_message w k info now = concat (
    k.moniker
    ∷ text " was Jailed until "
    ∷ w.printing.print_time info.jailed_until
    ∷ text ", "
    ∷ w.printing.print_minutes (since info.jailed_until now)
    ∷ text " minutes left"
    ∷ [])

-- `signingInfo.JailedUntil.After(now)`
abbrev pub check_jailed :
    World
    → Checked
    → SigningInfo
    → Option SlashingParams
    → CacheValidatorHealthCheck
    → Time
    → M CacheValidatorHealthCheck
check_jailed w k info p cache now =
    if ltb now info.jailed_until
    then (tell_unless_recent w k.channel jailed k.validator.watchers_identity (pos (minutes 30))
          k.validator.validator_operator_address (jailed_message w k info now) true
        >> pure (jailed_cache info cache))
    else check_missed w k info p cache

unfoldable pub check_signing_info :
    World
    → Checked
    → SigningInfo
    → Option SlashingParams
    → CacheValidatorHealthCheck
    → M CacheValidatorHealthCheck
unfolding check_missed
check_signing_info w k info p cache =
    if info.tombstoned
    then (tell_unless_recent w k.channel tome_stoned k.validator.watchers_identity (pos (hours 1))
          k.validator.validator_operator_address
          (k.moniker ++ text " is TOMBSTONED! Contact to unsubscribing this validator") true
        >> pure (record cache { tome_stoned = some true }))
    else read_clock w >>= check_jailed w k info p cache

abbrev pub check_info :
    World
    → Checked
    → Text
    → Option SigningInfo
    → Option SlashingParams
    → CacheValidatorHealthCheck
    → M CacheValidatorHealthCheck
check_info w k valcons none p cache = do
  tell_watchers w k
      (concat (
        text "validator "
        ∷ k.moniker
        ∷ text " signing info could not be found, valcons: "
        ∷ valcons
        ∷ []))
      false
  pure cache
check_info w k valcons (some info) p cache = check_signing_info w k info p cache

abbrev pub check_valcons :
    World
    → Checked
    → Map Text SigningInfo
    → Option SlashingParams
    → CacheValidatorHealthCheck
    → Option Text
    → M CacheValidatorHealthCheck
check_valcons w k infos p cache none = do
  tell_watchers w k
      (text "validator " ++ (k.moniker ++ text " consensus address not found in mapping")) false
  pure cache
check_valcons w k infos p cache (some valcons) =
    check_info w k valcons (get valcons infos) p (record cache { valcons = valcons })

-- Nothing is checked if the signing information could not be fetched.
unfoldable pub check_signing :
    World
    → Checked
    → Option (Map Text SigningInfo)
    → Option SlashingParams
    → CacheValidatorHealthCheck
    → M CacheValidatorHealthCheck
unfolding check_signing_info
check_signing w k none p cache = pure cache
check_signing w k (some infos) p cache = do
  addresses ← reads (λ s. s.addresses)
  check_valcons w k infos p cache
      (get_valcons_by_valoper k.channel.chain_name k.validator.validator_operator_address addresses)
