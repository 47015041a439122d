-- ===== src/Worker/Slashing.antt =====
-- work/health_check_worker/worker.go: the number of missed blocks behind which a validator is slashed.
-- The decimals of the sdk are in the parameters: their operations panic on a nil decimal, on overflow
-- and on a result beyond int64.
use validator_health_check.Prelude.{
  ℤ, pos, ◌-ℤ◌, Bool, true, Option, none, some, ltb_ℤ, Run, done, ◌>>=◌, ◌&&◌, if◌then◌else◌, ◌≡◌,
}
use validator_health_check.Worker.Outside.{Numbers, SlashingParams}

-- `slashingParams.MinSignedPerWindow.IsPositive() && slashingParams.SignedBlocksWindow > 0`
unfoldable pub has_window : Numbers → SlashingParams → Run Bool
has_window n p = do
  positive ← n.is_positive p.min_signed_per_window
  done (positive && ltb_ℤ (pos 0) p.signed_blocks_window)

abbrev below_window : Numbers → SlashingParams → Run ℤ
below_window n p = do
  product ← n.mul p.min_signed_per_window (n.new_dec p.signed_blocks_window)
  above ← n.ceil product
  blocks ← n.round_int64 above
  done (p.signed_blocks_window -ℤ blocks)

-- `downtimeSlashingWhenMissedExcess`
unfoldable pub slashing_when_missed_excess : Numbers → SlashingParams → Run ℤ
slashing_when_missed_excess n p = do
  one ← n.is_one p.min_signed_per_window
  let below = below_window n p in if one then done (pos 0) else below

-- The decimals of the parameters can be computed with.
abbrev pub AreInRange : Numbers → Option SlashingParams → Type 0
AreInRange n none = Unit
AreInRange n (some p) =
    ((b : Bool) × (has_window n p ≡ done b))
    × (has_window n p ≡ done true → (excess : ℤ) × (slashing_when_missed_excess n p ≡ done excess))
