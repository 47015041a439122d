-- ===== src/Prelude/Clock.antt =====
-- Instants and durations of the `time` package.
use Prim.Native.Nat.{ℕ, ◌+◌, ◌-◌, ◌*◌, ◌^◌, ◌≤◌, ◌<◌, suc, min}
use mathlib.Core.Path.{◌≡◌}
use mathlib.Core.Bool.{true, false}
use native.Mathlib.Omega.{arith}
use validator_health_check.Prelude.Tests.{leb, if◌then◌else◌}
use validator_health_check.Prelude.Int.{ℤ, pos, negsuc, ltb_ℤ, leb_ℤ}

-- Nanoseconds after the zero value `time.Time{}`.
abbrev pub Time : Type 0
Time = ℕ

abbrev pub zero_time : Time
zero_time = 0

-- Nanoseconds; an int64 in Go.
abbrev pub Duration : Type 0
Duration = ℤ

abbrev pub max_duration : ℕ
max_duration = 2 ^ 63 - 1

abbrev pub milliseconds : ℕ → ℕ
milliseconds n = n * 1_000_000

abbrev pub seconds : ℕ → ℕ
seconds n = n * 1_000_000_000

abbrev pub minutes : ℕ → ℕ
minutes n = n * 60_000_000_000

abbrev pub hours : ℕ → ℕ
hours n = n * 3_600_000_000_000

-- `time.Since(t)` at the instant `now`: `Sub` saturates at the ends of int64.
unfoldable pub since : Time → Time → Duration
since now t =
    if leb t now then pos (min (now - t) max_duration) else negsuc (min (t - now) (2 ^ 63) - 1)

-- `t.Add(d)`; an instant before `time.Time{}` is that one.
unfoldable pub add : Time → Duration → Time
add t (pos n) = t + n
add t (negsuc n) = t - suc n

-- `time.Since(t) < d` fails only when `d` has passed.
pub since_elapsed : (now t d : ℕ) → 0 < d → ltb_ℤ (since now t) (pos d) ≡ false → t + d ≤ now
unfolding since
since_elapsed now t d h e = ground arith

pub since_recent :
    (now t d : ℕ) → d ≤ max_duration → ltb_ℤ (since now t) (pos d) ≡ true → now < t + d
unfolding since
since_recent now t d h e = ground arith

-- Less than `d` after `t`, or before it, `time.Since(t) < d` holds.
pub since-lt : (now t d : ℕ) → now < t + d → ltb_ℤ (since now t) (pos d) ≡ true
unfolding since
since-lt now t d h = ground arith

-- `time.Since(t) >= d` holds only when `d` has passed.
pub since-ge : (now t d : ℕ) → leb_ℤ (pos d) (since now t) ≡ true → t + d ≤ now
unfolding since
since-ge now t d h = ground arith

pub since-le : (now t d : ℕ) → d ≤ max_duration → t + d ≤ now → leb_ℤ (pos d) (since now t) ≡ true
unfolding since
since-le now t d h le = ground arith
