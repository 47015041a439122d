-- ===== src/Registry/Pauser.antt =====
-- registry/chain_registry/pauser.go: chains and validators that are not checked for a while. Each
-- operation holds the lock from start to end and reads the clock once, as `now`.
pub mod Windows
pub mod Board
pub mod Examples
use validator_health_check.Prelude.{
  ℤ, Bool, true, false, Option, none, some, [], Text, Map, get, put, delete, Time, Duration, add,
  zero_time, ltb, text_eq,
}

pub record Pauser : Type 0 where
  pub paused_chains : Map Text Time
  pub paused_validators : Map Text Time

abbrev pub nothing_paused : Pauser
nothing_paused = record { paused_chains = []; paused_validators = [] }

unfoldable pub pause_chain : Time → Text → Duration → Pauser → Time × Pauser
pause_chain now chain_name duration p =
    let expiry = add now duration in
    (expiry, record p { paused_chains = put chain_name expiry p.paused_chains })

unfoldable pub unpause_chain : Text → Pauser → Pauser
unpause_chain chain_name p = record p { paused_chains = delete chain_name p.paused_chains }

-- `paused && time.Now().UTC().Before(expiry)`, and the expiry, the zero time if there is none
abbrev pub is_paused : Time → Option Time → Bool × Time
is_paused now none = (false, zero_time)
is_paused now (some expiry) = (ltb now expiry, expiry)

unfoldable pub is_chain_paused : Time → Text → Pauser → Bool × Time
is_chain_paused now chain_name p = is_paused now (get chain_name p.paused_chains)

unfoldable pub pause_validator : Time → Text → Duration → Pauser → Time × Pauser
pause_validator now valoper duration p =
    let expiry = add now duration in
    (expiry, record p { paused_validators = put valoper expiry p.paused_validators })

unfoldable pub unpause_validator : Text → Pauser → Pauser
unpause_validator valoper p = record p { paused_validators = delete valoper p.paused_validators }

unfoldable pub is_validator_paused : Time → Text → Pauser → Bool × Time
is_validator_paused now valoper p = is_paused now (get valoper p.paused_validators)
