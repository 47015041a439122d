-- ===== src/Prelude/Equality.antt =====
-- Decidable equality as an interface: Go's `==` on comparable types.
use Prim.Native.Nat.{ℕ}
use mathlib.Core.Path.{◌≡◌, refl}
use mathlib.Core.Logic.{◌↔◌}
use mathlib.Core.Bool.{Bool, true, false, ◌&&◌}
use mathlib.Core.List.{List, [], ◌∷◌}
use native.Mathlib.Omega.{arith}
use validator_health_check.Prelude.Tests.{eqb, eqb_iff}
use validator_health_check.Prelude.Int.{ℤ, eqb_ℤ, eqb_ℤ_iff}

-- A type whose values Go compares.
pub record Eq {κ} (K : Type κ) : Type κ where
  pub beq : K → K → Bool
  pub beq_iff : (x y : K) → (beq x y ≡ true) ↔ (x ≡ y)

abbrev pub ◌==◌ {κ} : {K : Type κ} ⦃comparable : Eq K⦄ → K → K → Bool
◌==◌ ⦃comparable⦄ = comparable.beq

infix 50 ◌==◌
module _ {κ} {K : Type κ} ⦃comparable : Eq K⦄ where
  pub ==_iff : (x y : K) → ((x == y) ≡ true) ↔ (x ≡ y)
  ==_iff = comparable.beq_iff

  pub ==_refl : (x : K) → (x == x) ≡ true
  ==_refl x = (comparable.beq_iff x x).1 refl

-- A Go string is its bytes.
abbrev pub Text : Type 0
Text = List ℕ

unfoldable pub text_beq : Text → Text → Bool
text_beq [] [] = true
text_beq (a ∷ s) (b ∷ t) = eqb a b && text_beq s t
text_beq _ _ = false

pub text_beq_iff : (s t : Text) → (text_beq s t ≡ true) ↔ (s ≡ t)
unfolding text_beq
text_beq_iff [] [] = ((λ _. refl), (λ _. refl))
text_beq_iff (a ∷ s) (b ∷ t) = ground (arith, text_beq_iff s t)
text_beq_iff [] (b ∷ t) = ((λ h. cc), (λ h. cc))
text_beq_iff (a ∷ s) [] = ((λ h. cc), (λ h. cc))

instance abbrev pub nat_eq : Eq ℕ
nat_eq = record { beq = eqb; beq_iff = eqb_iff }

instance abbrev pub int_eq : Eq ℤ
int_eq = record { beq = eqb_ℤ; beq_iff = eqb_ℤ_iff }

instance abbrev pub text_eq : Eq Text
text_eq = record { beq = text_beq; beq_iff = text_beq_iff }
