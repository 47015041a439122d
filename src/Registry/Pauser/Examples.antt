-- ===== src/Registry/Pauser/Examples.antt =====
-- A chain is paused, and then another one.
use validator_health_check.Prelude.{
  ◌+◌, false, List, [], ◌∷◌, text, pos, ◌≡◌, refl, ltb, seconds, hours, text_eq, text_beq,
}
use validator_health_check.Registry.Pauser.{nothing_paused}
use validator_health_check.Registry.Pauser.Windows.{
  Target, chain, Call, pauses, pause, unpause, paused, calls, pause_window,
}
use validator_health_check.Registry.Pauser.Board.{empty_board, writes, is_barred, paused-is_barred}

abbrev juno : Target
juno = chain (text "juno")

abbrev others : List Call
others = pauses (seconds 20) (chain (text "evmos")) (pos (hours 2)) ∷ []

pause_window_example :
    (paused
        (seconds 40)
        juno
        (calls others (pause (seconds 10) juno (pos (hours 1)) nothing_paused))
      ≡ ltb (seconds 40) (seconds 10 + hours 1))
    × (paused (seconds 40) juno (calls others (unpause juno nothing_paused)) ≡ false)
unfolding text_beq
pause_window_example =
    pause_window (seconds 10) (seconds 40) juno (hours 1) others nothing_paused (refl, tt)

paused-is_barred_example :
    paused (seconds 40) juno (calls others nothing_paused)
    ≡ is_barred (seconds 40) juno (writes others empty_board)
paused-is_barred_example = paused-is_barred (seconds 40) juno others
