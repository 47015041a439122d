-- ===== src/Utils/Retry/Ends.antt =====
-- How the loop of `Retry` ends.
use validator_health_check.Prelude.{
  ℕ, zero, suc, ◌+◌, ◌≤◌, ◌<◌, Bool, true, false, Option, none, some, pos, ltb_ℤ, if◌then◌else◌,
  arith, ◌≡◌, refl, subst, ltb, Bool-cases, inl, inr, ◌⊎◌,
}
use validator_health_check.Prelude.{Duration}
use validator_health_check.Utils.Retry.{Result, ok, err, RetryOption, first_of, retry_loop, retry}

module _ {ℓ κ} {A : Type ℓ} {E : Type κ} (f : ℕ → Result A E) (elapsed : ℕ → Duration)
    (o : RetryOption) where
  -- The attempt is one after which the loop may give up.
  abbrev pub gives_up : ℕ → Bool
  gives_up n =
      if ltb_ℤ (pos n) o.min_retry_count
      then false
      else if ltb_ℤ (elapsed n) o.maximum_retry_duration
      then false
      else true

  -- The attempt fails, and the loop may not give up after it.
  abbrev pub GoesOn : ℕ → Type (ℓ ⊔ κ)
  GoesOn n = ((e : E) × (f n ≡ err e)) × (gives_up n ≡ false)

  -- A success is that of the first attempt that succeeds, where the loop may not give up after any one
  -- before it. A failure is that of attempt 0, where all attempts up to the first one after which the
  -- loop may give up fail.
  pub data Ended : Option (Result A E) → Type (ℓ ⊔ κ) where
    succeeded : (n : ℕ) (a : A) → ((m : ℕ) → m < n → GoesOn m) → f n ≡ ok a → Ended (some (ok a))
    gave_up :
        (n : ℕ) (e : E)
        → ((m : ℕ) → m < n → GoesOn m)
        → ((e' : E) × (f n ≡ err e'))
        → gives_up n ≡ true
        → f 0 ≡ err e
        → Ended (some (err e))

  if_gives_up :
      (few soon : Bool) (x rest : Option (Result A E))
      → (if few then rest else if soon then rest else x)
        ≡ (if (if few then false else if soon then false else true) then x else rest)
  if_gives_up true soon x rest = refl
  if_gives_up false true x rest = refl
  if_gives_up false false x rest = refl

  pub loop-ok :
      (fuel t : ℕ) (first : Option E) (a : A)
      → f t ≡ ok a
      → retry_loop f elapsed o (suc fuel) t first ≡ some (ok a)
  unfolding retry_loop
  loop-ok fuel t first a e = rw (retry_loop, e) refl

  pub loop-err :
      (fuel t : ℕ) (first : Option E) (e : E)
      → f t ≡ err e
      → retry_loop f elapsed o (suc fuel) t first ≡ (
          if gives_up t
          then some (err (first_of first e))
          else retry_loop f elapsed o fuel (suc t) (some (first_of first e)))
  unfolding retry_loop
  loop-err fuel t first e h =
      rw (retry_loop, h)
        (if_gives_up (ltb_ℤ (pos t) o.min_retry_count) (ltb_ℤ (elapsed t) o.maximum_retry_duration)
          (some (err (first_of first e)))
          (retry_loop f elapsed o fuel (suc t) (some (first_of first e))))

  Result-cases : (r : Result A E) → ((a : A) × (r ≡ ok a)) ⊎ ((e : E) × (r ≡ err e))
  Result-cases (ok a) = inl (a, refl)
  Result-cases (err e) = inr (e, refl)

  GoesOn-suc : (t : ℕ) → ((m : ℕ) → m < t → GoesOn m) → GoesOn t → (m : ℕ) → m < suc t → GoesOn m
  GoesOn-suc t before here m h = elim (Bool-cases (ltb m t)) [
    | inl e ↦ before m (ground arith)
    | inr e ↦ subst GoesOn (same e) here
  ]
    where
      same : ltb m t ≡ false → t ≡ m
      same e = ground arith

  loop-Ended :
      (last fuel t : ℕ) (first : Option E)
      → ((e : E) → f t ≡ err e → f 0 ≡ err (first_of first e))
      → ((m : ℕ) → m < t → GoesOn m)
      → t ≤ last
      → last < t + fuel
      → gives_up last ≡ true
      → Ended (retry_loop f elapsed o fuel t first)
  loop-Ended last zero t first inv before le lt h = absurd (omega arith)
  loop-Ended last (suc fuel) t first inv before le lt h = elim (Result-cases (f t)) [
    | inl (a, e) ↦ rw (loop-ok fuel t first a e) (succeeded t a before e)
    | inr (x, e) ↦ elim (Bool-cases (gives_up t)) [
      | inl up ↦
          rw (loop-err fuel t first x e, up)
            (gave_up t (first_of first x) before (x, e) up (inv x e))
      | inr on ↦
          rw (loop-err fuel t first x e, on)
            (loop-Ended last fuel (suc t) (some (first_of first x)) (λ y e'. inv x e)
              (GoesOn-suc t before ((x, e), on)) (ground (arith, different on)) (omega arith) h)
    ]
  ]
    where
      different : gives_up t ≡ false → t ≡ last → ⊥
      different on same = ground arith

-- `Retry` ends when there is an attempt after which it may give up, which is one beyond the minimal
-- count whose time exceeds the maximal duration, with fuel for the attempts up to that one. It gives
-- the success of the first attempt that succeeds, if it may not give up after any attempt before
-- that one; and the error of attempt 0 if all attempts up to the first one after which it may give up
-- fail.
pub retry-Ended {ℓ κ} :
    {A : Type ℓ} {E : Type κ} (f : ℕ → Result A E) (elapsed : ℕ → Duration) (o : RetryOption)
    (last fuel : ℕ)
    → gives_up f elapsed o last ≡ true
    → last < fuel
    → Ended f elapsed o (retry f elapsed o fuel)
unfolding retry
retry-Ended f elapsed o last fuel h lt =
    loop-Ended f elapsed o last fuel 0 none (λ e e'. e') (λ m lt0. absurd (omega arith))
      (omega arith) (omega arith) h
