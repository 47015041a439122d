-- ===== src/Worker/Signing/Additive.antt =====
-- The check of the signing information does not panic and only adds to the queues.
use validator_health_check.Prelude.{
  ℤ, pos, Bool, true, false, Run, done, ◌≡◌, sym, subst, Option, none, some, Text, Map, get, ltb,
  ltb_ℤ, Time, text_eq, Bool-cases, inl, inr,
}
use validator_health_check.Registry.Addresses.{get_valcons_by_valoper}
use validator_health_check.Worker.Messages.Fatal.{HaveTelegram}
use validator_health_check.Worker.Outside.{World, SigningInfo, SlashingParams, Float64}
use validator_health_check.Worker.Cache.{CacheValidatorHealthCheck}
use validator_health_check.Worker.State.{M, pure, ◌>>=◌, ◌>>◌, from_run, read_clock, same_for_all}
use validator_health_check.Worker.Steps.{
  IsAdditive, pure-IsAdditive, skip-IsAdditive, >>=-IsAdditive, read_clock-IsAdditive,
  tell-IsAdditive, tell_unless_recent-IsAdditive,
}
use validator_health_check.Worker.Slashing.{has_window, slashing_when_missed_excess, AreInRange}
use validator_health_check.Worker.Signing.{
  Checked, tell_watchers, ratio_of_int64, at_most_percent, check_if_window, check_missed_blocks,
  check_uptime, uptime_of, check_window, check_params, check_missed, check_jailed,
  check_signing_info, check_info, check_valcons, check_signing,
}

module _ (w : World) (k : Checked) (have : HaveTelegram k.channel.records) where
  pub tell_watchers-IsAdditive :
      (message : Text) (fatal : Bool) → IsAdditive (tell_watchers w k message fatal)
  tell_watchers-IsAdditive message fatal =
      tell-IsAdditive w k.channel have k.validator.validator_operator_address (same_for_all message)
        fatal k.validator.watchers_identity

  -- A step that gives a value once it has added.
  then_gives : {A : Type 0} (m : M (Unit {0})) (a : A) → IsAdditive m → IsAdditive (m >> pure a)
  then_gives m a h = >>=-IsAdditive m (λ _. pure a) h λ _. pure-IsAdditive a

  check_missed_blocks-IsAdditive :
      (info : SigningInfo) (p : SlashingParams) (excess : ℤ)
      → IsAdditive (check_missed_blocks w k info p excess)
  unfolding check_missed_blocks
  check_missed_blocks-IsAdditive info p excess =
      let ratio = ratio_of_int64 w.numbers info.missed_blocks_counter excess in
      elim (Bool-cases (w.numbers.is_above ratio (w.numbers.of_int64 (pos 50)))) [
        | inl e ↦ rw e (tell_unless_recent-IsAdditive w k.channel have _ _ _ _ _ _)
        | inr e ↦ elim (Bool-cases (w.numbers.is_above ratio (w.numbers.of_int64 (pos 10)))) [
          | inl e' ↦ rw (e, e') (tell_unless_recent-IsAdditive w k.channel have _ _ _ _ _ _)
          | inr e' ↦ rw (e, e') (skip-IsAdditive)
        ]
      ]

  check_uptime-IsAdditive : (uptime : Float64) → IsAdditive (check_uptime w k uptime)
  unfolding check_uptime
  check_uptime-IsAdditive uptime = elim (Bool-cases (at_most_percent w.numbers uptime 90)) [
    | inl e ↦ rw e (tell_unless_recent-IsAdditive w k.channel have _ _ _ _ _ _)
    | inr e ↦ rw e (skip-IsAdditive)
  ]

  check_window-IsAdditive :
      (info : SigningInfo) (p : SlashingParams) (excess : ℤ) (cache : CacheValidatorHealthCheck)
      → IsAdditive (check_window w k info p excess cache)
  check_window-IsAdditive info p excess cache =
      >>=-IsAdditive (check_missed_blocks w k info p excess) _
        (check_missed_blocks-IsAdditive info p excess)
        λ _.
          then_gives (check_uptime w k (uptime_of w.numbers info p)) _ (check_uptime-IsAdditive _)

  from_run->>= :
      {A B : Type 0} (r : Run A) (a : A) (f : A → M B)
      → r ≡ done a
      → IsAdditive (f a)
      → IsAdditive (from_run r >>= f)
  from_run->>= r a f e h = subst (λ x. IsAdditive (from_run x >>= f)) (sym e) h

  check_if_window-IsAdditive :
      (info : SigningInfo) (p : SlashingParams) (cache : CacheValidatorHealthCheck) (has : Bool)
      → AreInRange w.numbers (some p)
      → has_window w.numbers p ≡ done has
      → IsAdditive (check_if_window w k info p cache has)
  check_if_window-IsAdditive info p cache false range e = pure-IsAdditive cache
  check_if_window-IsAdditive info p cache true range e =
      let (excess, e') = range.1 e in
      from_run->>= (slashing_when_missed_excess w.numbers p) excess _ e'
        (check_window-IsAdditive info p excess cache)

  check_params-IsAdditive :
      (info : SigningInfo) (p : Option SlashingParams) (cache : CacheValidatorHealthCheck)
      → AreInRange w.numbers p
      → IsAdditive (check_params w k info p cache)
  check_params-IsAdditive info none cache range =
      then_gives (tell_watchers w k _ false) cache (tell_watchers-IsAdditive _ false)
  check_params-IsAdditive info (some p) cache range =
      let (has, e) = range.0 in
      from_run->>= (has_window w.numbers p) has _ e
        (check_if_window-IsAdditive info p cache has range e)

  check_missed-IsAdditive :
      (info : SigningInfo) (p : Option SlashingParams) (cache : CacheValidatorHealthCheck)
      → AreInRange w.numbers p
      → IsAdditive (check_missed w k info p cache)
  unfolding check_missed
  check_missed-IsAdditive info p cache range =
      elim (Bool-cases (ltb_ℤ (pos 0) info.missed_blocks_counter)) [
        | inl e ↦ rw e (
            >>=-IsAdditive (check_params w k info p cache) _
              (check_params-IsAdditive info p cache range) λ c. pure-IsAdditive _)
        | inr e ↦ rw e (pure-IsAdditive cache)
      ]

  check_jailed-IsAdditive :
      (info : SigningInfo) (p : Option SlashingParams) (cache : CacheValidatorHealthCheck)
      (now : Time)
      → AreInRange w.numbers p
      → IsAdditive (check_jailed w k info p cache now)
  check_jailed-IsAdditive info p cache now range = elim (Bool-cases (ltb now info.jailed_until)) [
    | inl e ↦ rw e (then_gives _ _ (tell_unless_recent-IsAdditive w k.channel have _ _ _ _ _ _))
    | inr e ↦ rw e (check_missed-IsAdditive info p cache range)
  ]

  check_signing_info-IsAdditive :
      (info : SigningInfo) (p : Option SlashingParams) (cache : CacheValidatorHealthCheck)
      → AreInRange w.numbers p
      → IsAdditive (check_signing_info w k info p cache)
  unfolding check_signing_info
  check_signing_info-IsAdditive info p cache range = elim (Bool-cases info.tombstoned) [
    | inl e ↦ rw e (then_gives _ _ (tell_unless_recent-IsAdditive w k.channel have _ _ _ _ _ _))
    | inr e ↦ rw e (
        >>=-IsAdditive (read_clock w) _ (read_clock-IsAdditive w)
          λ now. check_jailed-IsAdditive info p cache now range)
  ]

  check_info-IsAdditive :
      (valcons : Text) (info : Option SigningInfo) (p : Option SlashingParams)
      (cache : CacheValidatorHealthCheck)
      → AreInRange w.numbers p
      → IsAdditive (check_info w k valcons info p cache)
  check_info-IsAdditive valcons none p cache range =
      then_gives (tell_watchers w k _ false) cache (tell_watchers-IsAdditive _ false)
  check_info-IsAdditive valcons (some info) p cache range =
      check_signing_info-IsAdditive info p cache range

  check_valcons-IsAdditive :
      (infos : Map Text SigningInfo) (p : Option SlashingParams) (cache : CacheValidatorHealthCheck)
      (valcons : Option Text)
      → AreInRange w.numbers p
      → IsAdditive (check_valcons w k infos p cache valcons)
  check_valcons-IsAdditive infos p cache none range =
      then_gives (tell_watchers w k _ false) cache (tell_watchers-IsAdditive _ false)
  check_valcons-IsAdditive infos p cache (some valcons) range =
      check_info-IsAdditive valcons (get valcons infos) p _ range

  pub check_signing-IsAdditive :
      (infos : Option (Map Text SigningInfo)) (p : Option SlashingParams)
      (cache : CacheValidatorHealthCheck)
      → AreInRange w.numbers p
      → IsAdditive (check_signing w k infos p cache)
  unfolding check_signing
  check_signing-IsAdditive none p cache range = pure-IsAdditive cache
  check_signing-IsAdditive (some infos) p cache range = record {
    adds = λ s keyed.
        (check_valcons-IsAdditive infos p cache
            (get_valcons_by_valoper k.channel.chain_name k.validator.validator_operator_address
              s.addresses)
            range).adds
          s keyed;
  }
