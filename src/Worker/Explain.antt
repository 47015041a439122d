-- ===== src/Worker/Explain.antt =====
-- work/health_check_worker/worker.go: `explainDuration`. The floats that `Seconds`, `Minutes` and
-- `Hours` give are cut to whole numbers, here by division.
use validator_health_check.Prelude.{
  ℕ, suc, ◌-◌, ◌/◌, Text, text, ◌++◌, [], Duration, pos, negsuc, milliseconds, seconds, minutes,
  hours, ℤ, ltb, leb, eqb, if◌then◌else◌,
}

-- A negative whole number.
abbrev negated : ℕ → ℤ
negated n = if eqb n 0 then pos 0 else negsuc (n - 1)

-- What stands behind the hours.
abbrev rest_minutes : (ℤ → Text) → ℕ → Text
rest_minutes print_int dm =
    if leb (minutes 1) dm then print_int (pos (dm / minutes 1)) ++ text "m" else []

unfoldable pub explain_duration : (ℤ → Text) → Duration → Text
explain_duration print_int (negsuc n) = print_int (negated (suc n / milliseconds 1)) ++ text "ms"
explain_duration print_int (pos n) =
    if ltb n (seconds 1)
    then print_int (pos (n / milliseconds 1)) ++ text "ms"
    else if ltb n (minutes 10)
    then print_int (pos (n / seconds 1)) ++ text "s"
    else if ltb n (hours 2)
    then print_int (pos (n / minutes 1)) ++ text "m"
    else print_int (pos (n / hours 1))
      ++ (text "h" ++ rest_minutes print_int (n - hours (n / hours 1)))
