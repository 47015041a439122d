-- ===== src/Prelude/Maps.antt =====
-- Go's maps, as association lists with one entry for a key.
use mathlib.Core.Path.{◌≡◌, refl}
use mathlib.Core.Bool.{Bool, true, false, ◌||◌}
use mathlib.Core.Logic.{inl, inr}
use Prim.Native.Nat.{◌+◌, ◌≤◌}
use validator_health_check.Prelude.Lists.{length, any}
use mathlib.Core.List.{List, [], ◌∷◌}
use mathlib.Core.Option.{Option, none, some}
use native.Mathlib.Omega.{arith}
use validator_health_check.Prelude.Tests.{if◌then◌else◌, Bool-cases}
use validator_health_check.Prelude.Equality.{Eq, ◌==◌, ==_iff}

abbrev pub Map {ℓ κ} : Type ℓ → Type κ → Type (ℓ ⊔ κ)
Map K V = List (K × V)

or_true : (a : Bool) → (a || true) ≡ true
or_true true = refl
or_true false = refl

any_head {ℓ κ} :
    {K : Type ℓ} {V : Type κ} (p : K × V → Bool) (k : K) (v : V) (i : K) (w : V) (m : Map K V)
    → i ≡ k
    → w ≡ v
    → p (k, v) ≡ true
    → (p (i, w) || any p m) ≡ true
any_head p k v i w m a b t = rw (a, b, t)

module _ {ℓ κ} {K : Type ℓ} {V : Type κ} ⦃e : Eq K⦄ where
  -- `v, found := m[k]`
  unfoldable pub get : K → Map K V → Option V
  get k [] = none
  get k ((j, v) ∷ m) = if j == k then some v else get k m

  -- `m[k] = v`
  unfoldable pub put : K → V → Map K V → Map K V
  put k v [] = (k, v) ∷ []
  put k v ((j, w) ∷ m) = if j == k then (k, v) ∷ m else (j, w) ∷ put k v m

  -- `delete(m, k)`
  unfoldable pub delete : K → Map K V → Map K V
  delete k [] = []
  delete k ((j, w) ∷ m) = if j == k then delete k m else (j, w) ∷ delete k m

  -- The loop that deletes every entry whose value passes a test.
  unfoldable pub delete_if : (V → Bool) → Map K V → Map K V
  delete_if p [] = []
  delete_if p ((j, w) ∷ m) = if p w then delete_if p m else (j, w) ∷ delete_if p m

  pub get-nil : (k : K) → ◌≡◌ {A = Option V} (get k []) none
  unfolding get
  get-nil k = refl

  pub get-put :
      (k j : K) (v : V) (m : Map K V) → get j (put k v m) ≡ (if k == j then some v else get j m)
  unfolding get put
  get-put k j v [] = refl
  get-put k j v ((i, w) ∷ m) = ground (arith, ==_iff k j, ==_iff i k, ==_iff i j, get-put k j v m)

  pub get-delete : (k j : K) (m : Map K V) → get j (delete k m) ≡ (if k == j then none else get j m)
  unfolding get delete
  get-delete k j [] = ground arith
  get-delete k j ((i, w) ∷ m) = ground (arith, ==_iff k j, ==_iff i k, ==_iff i j, get-delete k j m)

  -- A test that a stored entry passes is passed by some entry.
  pub any_of_get :
      (p : K × V → Bool) (k : K) (v : V) (m : Map K V)
      → get k m ≡ some v
      → p (k, v) ≡ true
      → any p m ≡ true
  unfolding get any
  any_of_get p k v [] h t = cc
  any_of_get p k v ((i, w) ∷ m) h t = elim (Bool-cases (i == k)) [
    | inl e ↦ rw (any_head p k v i w m ((==_iff i k).0 e) (ground arith) t)
    | inr e ↦ rw (any_of_get p k v m (ground arith) t) (or_true (p (i, w)))
  ]

  pub length-put-le : (k : K) (v : V) (m : Map K V) → length (put k v m) ≤ length m + 1
  unfolding put
  length-put-le k v [] = omega arith
  length-put-le k v ((i, w) ∷ m) = ground (arith, length-put-le k v m)

  pub length-put_new :
      (k : K) (v : V) (m : Map K V) → get k m ≡ none → length (put k v m) ≡ length m + 1
  unfolding get put
  length-put_new k v [] h = omega arith
  length-put_new k v ((i, w) ∷ m) h = ground (arith, length-put_new k v m)

  pub length-delete-le : (k : K) (m : Map K V) → length (delete k m) ≤ length m
  unfolding delete
  length-delete-le k [] = omega arith
  length-delete-le k ((i, w) ∷ m) = ground (arith, length-delete-le k m)

  pub length-delete_if-le : (p : V → Bool) (m : Map K V) → length (delete_if p m) ≤ length m
  unfolding delete_if
  length-delete_if-le p [] = omega arith
  length-delete_if-le p ((i, w) ∷ m) = ground (arith, length-delete_if-le p m)

  pub delete_if-delete_if :
      (p : V → Bool) (m : Map K V) → delete_if p (delete_if p m) ≡ delete_if p m
  unfolding delete_if
  delete_if-delete_if p [] = refl
  delete_if-delete_if p ((i, w) ∷ m) = ground (arith, delete_if-delete_if p m)

pub ruleset map_laws = (get-put, get-delete)

module _ {ℓ κ} {A : Type ℓ} {K : Type κ} ⦃e : Eq K⦄ where
  -- An element of the list has this key.
  unfoldable pub has_key : (A → K) → K → List A → Bool
  has_key f k [] = false
  has_key f k (x ∷ xs) = (f x == k) || has_key f k xs

  -- No two elements have the same key.
  abbrev pub Distinct : (A → K) → List A → Type 0
  Distinct f [] = Unit
  Distinct f (x ∷ xs) = (has_key f (f x) xs ≡ false) × Distinct f xs
