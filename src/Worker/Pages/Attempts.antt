-- ===== src/Worker/Pages/Attempts.antt =====
-- A call that fails a few times succeeds under `Retry`.
use validator_health_check.Prelude.{
  Duration, ℕ, zero, suc, ◌+◌, ◌≤◌, ◌<◌, false, Option, none, some, Text, text_eq, arith, ◌≡◌,
}
use validator_health_check.Utils.Retry.{Result, ok, err, retry, retry_loop, default_retry_option}
use validator_health_check.Utils.Retry.Ends.{Ended, gives_up, loop-ok, loop-err}
use validator_health_check.Worker.Outside.{World, retried, from_ended}

-- From attempt `n` on, so many fail and the next one succeeds.
abbrev pub Succeeds : {A : Type 0} → (ℕ → Result A Text) → ℕ → ℕ → A → Type 0
Succeeds f n zero a = f n ≡ ok a
Succeeds f n (suc failures) a = ((e : Text) × (f n ≡ err e)) × Succeeds f (suc n) failures a

early :
    {A : Type 0} (f : ℕ → Result A Text) (w : World) (tick n : ℕ)
    → n < 3
    → gives_up f (w.elapsed tick) default_retry_option n ≡ false
early f w tick n h = ground arith

loop-Succeeds :
    {A : Type 0} (f : ℕ → Result A Text) (w : World) (tick fuel n failures : ℕ)
    (first : Option Text) (a : A)
    → n + failures ≤ 3
    → failures < fuel
    → Succeeds f n failures a
    → retry_loop f (w.elapsed tick) default_retry_option fuel n first ≡ some (ok a)
loop-Succeeds f w tick zero n failures first a few lt h = absurd (omega arith)
loop-Succeeds f w tick (suc fuel) n zero first a few lt h =
    loop-ok f (w.elapsed tick) default_retry_option fuel n first a h
loop-Succeeds f w tick (suc fuel) n (suc failures) first a few lt ((e, failed), h) =
    rw
      (
        loop-err f (w.elapsed tick) default_retry_option fuel n first e failed,
        early f w tick n (omega arith),
      )
      (loop-Succeeds f w tick fuel (suc n) failures _ a (omega arith) (omega arith) h)

from_ended-some :
    {A : Type 0} (f : ℕ → Result A Text) (elapsed : ℕ → Duration) (r : Option (Result A Text))
    (h : Ended f elapsed default_retry_option r) (x : Result A Text)
    → r ≡ some x
    → from_ended f elapsed r h ≡ x
from_ended-some f elapsed (some y) h x e = ground arith
from_ended-some f elapsed none h x e = cc

-- A call that fails three times at most succeeds under `Retry`.
pub retried-Succeeds :
    {A : Type 0} (w : World) (tick : ℕ) (f : ℕ → Result A Text) (failures : ℕ) (a : A)
    → failures ≤ 3
    → Succeeds f 0 failures a
    → retried w tick f ≡ ok a
unfolding retried retry
retried-Succeeds w tick f failures a few h = from_ended-some f (w.elapsed tick) _ _ (ok a) (
    loop-Succeeds f w tick (suc (w.last_attempt tick)) 0 failures none a (omega arith)
      (omega (arith, w.last_attempt_count tick)) h)
