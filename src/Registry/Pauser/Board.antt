-- ===== src/Registry/Pauser/Board.antt =====
-- What the pauser promises: a board with the end of the pause of each chain and validator.
use validator_health_check.Prelude.{
  Bool, false, Option, none, some, Time, add, ltb, List, [], ◌∷◌, get-put, get-delete, get-nil,
  text_eq, arith, ◌≡◌, ◌∙◌, refl, ap, if◌then◌else◌,
}
use validator_health_check.Registry.Pauser.{
  Pauser, nothing_paused, pause_chain, unpause_chain, pause_validator, unpause_validator, is_paused,
}
use validator_health_check.Registry.Pauser.Windows.{
  Target, chain, validator, Call, pauses, unpauses, call, calls, paused, expiry, same_target,
  paused-expiry,
}

abbrev pub Board : Type 0
Board = Target → Option Time

abbrev pub empty_board : Board
empty_board t = none

-- A call writes the end of the pause of its target, or wipes it out.
abbrev pub write : Call → Board → Board
write (pauses now other duration) b t = if same_target other t then some (add now duration) else b t
write (unpauses other) b t = if same_target other t then none else b t

unfoldable pub writes : List Call → Board → Board
writes [] b = b
writes (c ∷ cs) b = writes cs (write c b)

abbrev ends_after : Time → Option Time → Bool
ends_after now none = false
ends_after now (some end) = ltb now end

abbrev pub is_barred : Time → Target → Board → Bool
is_barred now t b = ends_after now (b t)

-- The pauser shows what the board shows.
abbrev Shows : Pauser → Board → Type 0
Shows p b = (t : Target) → expiry t p ≡ b t

call-Shows : (c : Call) (p : Pauser) (b : Board) → Shows p b → Shows (call c p) (write c b)
unfolding expiry pause_chain pause_validator unpause_chain unpause_validator
call-Shows (pauses now (chain a) d) p b h (chain x) =
    ground (arith, get-put a x (add now d) p.paused_chains, h (chain x))
call-Shows (pauses now (chain a) d) p b h (validator x) = h (validator x)
call-Shows (pauses now (validator a) d) p b h (chain x) = h (chain x)
call-Shows (pauses now (validator a) d) p b h (validator x) =
    ground (arith, get-put a x (add now d) p.paused_validators, h (validator x))
call-Shows (unpauses (chain a)) p b h (chain x) =
    ground (arith, get-delete a x p.paused_chains, h (chain x))
call-Shows (unpauses (chain a)) p b h (validator x) = h (validator x)
call-Shows (unpauses (validator a)) p b h (chain x) = h (chain x)
call-Shows (unpauses (validator a)) p b h (validator x) =
    ground (arith, get-delete a x p.paused_validators, h (validator x))

calls-Shows :
    (cs : List Call) (p : Pauser) (b : Board) → Shows p b → Shows (calls cs p) (writes cs b)
unfolding calls writes
calls-Shows [] p b h = h
calls-Shows (c ∷ cs) p b h = calls-Shows cs (call c p) (write c b) (call-Shows c p b h)

nothing-Shows : Shows nothing_paused empty_board
unfolding expiry
nothing-Shows (chain x) = get-nil {V = Time} x
nothing-Shows (validator x) = get-nil {V = Time} x

is_paused-ends_after : (now : Time) (o : Option Time) → (is_paused now o).0 ≡ ends_after now o
is_paused-ends_after now none = refl
is_paused-ends_after now (some end) = refl

-- After any calls, in any order, the pauser that was empty at first answers about a chain or a
-- validator as the board does on which the same calls were written: each has one end, a pause
-- replaces it, whether it is earlier or later, and an end of the pause wipes it out.
pub paused-is_barred :
    (now : Time) (t : Target) (cs : List Call)
    → paused now t (calls cs nothing_paused) ≡ is_barred now t (writes cs empty_board)
paused-is_barred now t cs =
    paused-expiry now t (calls cs nothing_paused)
    ∙ (is_paused-ends_after now (expiry t (calls cs nothing_paused))
        ∙ ap (ends_after now) (calls-Shows cs nothing_paused empty_board nothing-Shows t))
