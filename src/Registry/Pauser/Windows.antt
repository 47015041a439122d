-- ===== src/Registry/Pauser/Windows.antt =====
-- A pause lasts for its duration and no longer, and each chain and validator has its own.
use validator_health_check.Prelude.{
  ℕ, Bool, false, Option, Text, Time, pos, ltb, ◌+◌, ◌==◌, ==_refl, text_eq, get-put, get-delete,
  get, arith, ◌≡◌, refl, ◌∙◌, add, Duration, List, [], ◌∷◌,
}
use validator_health_check.Registry.Pauser.{
  Pauser, pause_chain, unpause_chain, is_chain_paused, is_paused, pause_validator,
  unpause_validator, is_validator_paused,
}

-- What can be paused.
pub data Target : Type 0 where
  chain : Text → Target
  validator : Text → Target

abbrev pub pause : Time → Target → Duration → Pauser → Pauser
pause now (chain name) duration p = (pause_chain now name duration p).1
pause now (validator valoper) duration p = (pause_validator now valoper duration p).1

abbrev pub unpause : Target → Pauser → Pauser
unpause (chain name) p = unpause_chain name p
unpause (validator valoper) p = unpause_validator valoper p

abbrev pub paused : Time → Target → Pauser → Bool
paused now (chain name) p = (is_chain_paused now name p).0
paused now (validator valoper) p = (is_validator_paused now valoper p).0

-- A call that changes the pauser, with the instant at which it runs.
pub data Call : Type 0 where
  pauses : Time → Target → Duration → Call
  unpauses : Target → Call

abbrev pub call : Call → Pauser → Pauser
call (pauses now t duration) p = pause now t duration p
call (unpauses t) p = unpause t p

unfoldable pub calls : List Call → Pauser → Pauser
calls [] p = p
calls (c ∷ cs) p = calls cs (call c p)

abbrev pub same_target : Target → Target → Bool
same_target (chain a) (chain b) = a == b
same_target (validator a) (validator b) = a == b
same_target _ _ = false

abbrev pub concerns : Target → Call → Bool
concerns t (pauses now other duration) = same_target other t
concerns t (unpauses other) = same_target other t

abbrev pub NoneConcerns : Target → List Call → Type 0
NoneConcerns t [] = Unit
NoneConcerns t (c ∷ cs) = (concerns t c ≡ false) × NoneConcerns t cs

unfoldable pub expiry : Target → Pauser → Option Time
expiry (chain name) p = get name p.paused_chains
expiry (validator valoper) p = get valoper p.paused_validators

pub paused-expiry :
    (now : Time) (t : Target) (p : Pauser) → paused now t p ≡ (is_paused now (expiry t p)).0
unfolding expiry is_chain_paused is_validator_paused
paused-expiry now (chain name) p = refl
paused-expiry now (validator valoper) p = refl

pause_other :
    (t : Target) (now : Time) (other : Target) (d : Duration) (p : Pauser)
    → same_target other t ≡ false
    → expiry t (pause now other d p) ≡ expiry t p
unfolding expiry pause_chain pause_validator
pause_other (chain a) now (chain b) d p h = ground (arith, get-put b a (add now d) p.paused_chains)
pause_other (validator a) now (validator b) d p h =
    ground (arith, get-put b a (add now d) p.paused_validators)
pause_other (chain a) now (validator b) d p h = refl
pause_other (validator a) now (chain b) d p h = refl

unpause_other :
    (t other : Target) (p : Pauser)
    → same_target other t ≡ false
    → expiry t (unpause other p) ≡ expiry t p
unfolding expiry unpause_chain unpause_validator
unpause_other (chain a) (chain b) p h = ground (arith, get-delete b a p.paused_chains)
unpause_other (validator a) (validator b) p h = ground (arith, get-delete b a p.paused_validators)
unpause_other (chain a) (validator b) p h = refl
unpause_other (validator a) (chain b) p h = refl

calls_other :
    (t : Target) (cs : List Call) (p : Pauser)
    → NoneConcerns t cs
    → expiry t (calls cs p) ≡ expiry t p
unfolding calls
calls_other t [] p h = refl
calls_other t (pauses now other d ∷ cs) p h =
    calls_other t cs (pause now other d p) h.1 ∙ pause_other t now other d p h.0
calls_other t (unpauses other ∷ cs) p h =
    calls_other t cs (unpause other p) h.1 ∙ unpause_other t other p h.0

pause_self :
    (later now : Time) (t : Target) (d : ℕ) (p : Pauser)
    → (is_paused later (expiry t (pause now t (pos d) p))).0 ≡ ltb later (now + d)
unfolding expiry pause_chain pause_validator add
pause_self later now (chain a) d p = rw (get-put, ==_refl)
pause_self later now (validator a) d p = rw (get-put, ==_refl)

unpause_self :
    (later : Time) (t : Target) (p : Pauser) → (is_paused later (expiry t (unpause t p))).0 ≡ false
unfolding expiry unpause_chain unpause_validator
unpause_self later (chain a) p = rw (get-delete, ==_refl)
unpause_self later (validator a) p = rw (get-delete, ==_refl)

-- A chain or validator that is paused at `now` for `d` nanoseconds is paused at exactly the instants
-- before `now + d`, and one that is unpaused is not paused, until a later call concerns it: calls
-- for other chains and validators do not matter.
pub pause_window :
    (now later : Time) (t : Target) (d : ℕ) (cs : List Call) (p : Pauser)
    → NoneConcerns t cs
    → (paused later t (calls cs (pause now t (pos d) p)) ≡ ltb later (now + d))
      × (paused later t (calls cs (unpause t p)) ≡ false)
pause_window now later t d cs p h = (
  rw (paused-expiry, calls_other t cs (pause now t (pos d) p) h) (pause_self later now t d p),
  rw (paused-expiry, calls_other t cs (unpause t p) h) (unpause_self later t p),
)
