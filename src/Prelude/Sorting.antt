-- ===== src/Prelude/Sorting.antt =====
-- The `sort` package: what `sort.Slice` promises. It need not be stable.
use mathlib.Core.Path.{◌≡◌, refl, ap, subst, sym, ◌∙◌}
use mathlib.Core.Logic.{◌⊎◌, inl, inr}
use native.Mathlib.Omega.{arith}
use validator_health_check.Prelude.Equality.{Eq, ==_iff}
use validator_health_check.Prelude.Maps.{has_key, Distinct}
use mathlib.Core.Bool.{Bool, true, false}
use mathlib.Core.List.{List, [], ◌∷◌, Permᴰ}
use validator_health_check.Prelude.Tests.{if◌then◌else◌, Bool-cases}
use validator_health_check.Prelude.Lists.{All}

-- No element behind `x` is to stand before it.
abbrev pub IsHead {ℓ} : {A : Type ℓ} → (A → A → Bool) → A → List A → Type 0
IsHead less x ys = All (λ y. less y x ≡ false) ys

abbrev pub IsSorted {ℓ} : {A : Type ℓ} → (A → A → Bool) → List A → Type 0
IsSorted less [] = Unit
IsSorted less (x ∷ xs) = IsHead less x xs × IsSorted less xs

-- A strict weak order, which `sort.Slice` asks of its `less`.
pub record IsWeakOrder {ℓ} {A : Type ℓ} (less : A → A → Bool) : Type ℓ where
  pub irrefl : (x : A) → less x x ≡ false
  pub negatively_trans : (x y z : A) → less y x ≡ false → less z y ≡ false → less z x ≡ false
  pub asymm : (x y : A) → less x y ≡ true → less y x ≡ false

-- `sort.Slice`, for elements of one type.
pub record SortSlice {ℓ} (A : Type ℓ) : Type ℓ where
  pub sort_slice : (A → A → Bool) → List A → List A
  pub sort_slice-perm : (less : A → A → Bool) (xs : List A) → Permᴰ (sort_slice less xs) xs
  pub sort_slice-IsSorted :
      (less : A → A → Bool) (xs : List A) → IsWeakOrder less → IsSorted less (sort_slice less xs)

pub All-perm {ℓ κ} :
    {A : Type ℓ} (P : A → Type κ) {xs ys : List A} → Permᴰ xs ys → All P ys → All P xs
All-perm P Permᴰ.nil h = h
All-perm P (Permᴰ.cons e p) h = (subst P (sym e) h.0, All-perm P p h.1)
All-perm P (Permᴰ.swap e f) h = (subst P (sym e) h.1.0, (subst P (sym f) h.0, h.1.1))
All-perm P (Permᴰ.trans p q) h = All-perm P p (All-perm P q h)

-- Some element has the property.
abbrev pub Some {ℓ} : {A : Type ℓ} → (A → Type 0) → List A → Type 0
Some P [] = ⊥
Some P (x ∷ xs) = P x ⊎ Some P xs

pub Some-perm {ℓ} :
    {A : Type ℓ} (P : A → Type 0) {xs ys : List A} → Permᴰ xs ys → Some P xs → Some P ys
Some-perm P Permᴰ.nil h = absurd h
Some-perm P (Permᴰ.cons e p) (inl h) = inl (subst P e h)
Some-perm P (Permᴰ.cons e p) (inr h) = inr (Some-perm P p h)
Some-perm P (Permᴰ.swap e f) (inl h) = inr (inl (subst P e h))
Some-perm P (Permᴰ.swap e f) (inr (inl h)) = inl (subst P f h)
Some-perm P (Permᴰ.swap e f) (inr (inr h)) = inr (inr h)
Some-perm P (Permᴰ.trans p q) h = Some-perm P q (Some-perm P p h)

module _ {ℓ} {A : Type ℓ} {K : Type 0} ⦃comparable : Eq K⦄ (f : A → K) where
  has_key-perm : (k : K) {xs ys : List A} → Permᴰ xs ys → has_key f k xs ≡ has_key f k ys
  unfolding has_key
  has_key-perm k Permᴰ.nil = refl
  has_key-perm k (Permᴰ.cons e p) = rw (e, has_key-perm k p) refl
  has_key-perm k (Permᴰ.swap e e') = rw (e, e') (ground arith)
  has_key-perm k (Permᴰ.trans p q) = has_key-perm k p ∙ has_key-perm k q

  Distinct-swap :
      (x y x' y' : A) (xs : List A)
      → x ≡ y'
      → y ≡ x'
      → Distinct f (x' ∷ y' ∷ xs)
      → Distinct f (x ∷ y ∷ xs)
  Distinct-swap x y x' y' xs e e' d =
      subst (λ z. Distinct f (z ∷ y ∷ xs)) (sym e)
        (subst (λ z. Distinct f (y' ∷ z ∷ xs)) (sym e') (swapped x' y' d))
    where
      swapped : (u v : A) → Distinct f (u ∷ v ∷ xs) → Distinct f (v ∷ u ∷ xs)
      swapped u v h = unfold has_key in ground (arith, ==_iff (f u) (f v), ==_iff (f v) (f u))

  Distinct-cons :
      (x y : A) (xs ys : List A)
      → x ≡ y
      → Permᴰ xs ys
      → Distinct f (y ∷ ys)
      → Distinct f xs
      → Distinct f (x ∷ xs)
  Distinct-cons x y xs ys e p d h = (ap (λ z. has_key f (f z) xs) e ∙ has_key-perm (f y) p ∙ d.0, h)

  -- Keys that differ still differ in another order.
  pub Distinct-perm : {xs ys : List A} → Permᴰ xs ys → Distinct f ys → Distinct f xs
  Distinct-perm Permᴰ.nil d = d
  Distinct-perm (Permᴰ.cons e p) d = Distinct-cons _ _ _ _ e p d (Distinct-perm p d.1)
  Distinct-perm (Permᴰ.swap e e') d = Distinct-swap _ _ _ _ _ e e' d
  Distinct-perm (Permᴰ.trans p q) d = Distinct-perm p (Distinct-perm q d)

perm_refl {ℓ} : {A : Type ℓ} (xs : List A) → Permᴰ xs xs
perm_refl [] = Permᴰ.nil
perm_refl (x ∷ xs) = Permᴰ.cons refl (perm_refl xs)

-- The promise can be kept: insertion sort.
module _ {ℓ} {A : Type ℓ} (less : A → A → Bool) where
  unfoldable pub insert_sorted : A → List A → List A
  insert_sorted x [] = x ∷ []
  insert_sorted x (y ∷ ys) = if less x y then x ∷ y ∷ ys else y ∷ insert_sorted x ys

  unfoldable pub insertion_sort : List A → List A
  unfolding insert_sorted
  insertion_sort [] = []
  insertion_sort (x ∷ xs) = insert_sorted x (insertion_sort xs)

  insert_sorted-perm : (x : A) (ys : List A) → Permᴰ (insert_sorted x ys) (x ∷ ys)
  unfolding insert_sorted
  insert_sorted-perm x [] = Permᴰ.cons refl Permᴰ.nil
  insert_sorted-perm x (y ∷ ys) = elim (Bool-cases (less x y)) [
    | inl e ↦ rw e (perm_refl (x ∷ y ∷ ys))
    | inr e ↦ rw e (Permᴰ.trans (Permᴰ.cons refl (insert_sorted-perm x ys)) (Permᴰ.swap refl refl))
  ]

  pub insertion_sort-perm : (xs : List A) → Permᴰ (insertion_sort xs) xs
  unfolding insertion_sort
  insertion_sort-perm [] = Permᴰ.nil
  insertion_sort-perm (x ∷ xs) =
      Permᴰ.trans (insert_sorted-perm x (insertion_sort xs))
        (Permᴰ.cons refl (insertion_sort-perm xs))

  module _ (w : IsWeakOrder less) where
    IsHead-trans : (x y : A) (ys : List A) → less y x ≡ false → IsHead less y ys → IsHead less x ys
    IsHead-trans x y [] e h = tt
    IsHead-trans x y (z ∷ zs) e h = (w.negatively_trans x y z e h.0, IsHead-trans x y zs e h.1)

    insert_sorted-IsSorted :
        (x : A) (ys : List A) → IsSorted less ys → IsSorted less (insert_sorted x ys)
    unfolding insert_sorted
    insert_sorted-IsSorted x [] s = (tt, tt)
    insert_sorted-IsSorted x (y ∷ ys) s = elim (Bool-cases (less x y)) [
      | inl e ↦ rw e (((w.asymm x y e), IsHead-trans x y ys (w.asymm x y e) s.0), s)
      | inr e ↦ rw e (
        All-perm (λ z. less z y ≡ false) (insert_sorted-perm x ys) (e, s.0),
        insert_sorted-IsSorted x ys s.1,
      )
    ]

    pub insertion_sort-IsSorted : (xs : List A) → IsSorted less (insertion_sort xs)
    unfolding insertion_sort
    insertion_sort-IsSorted [] = tt
    insertion_sort-IsSorted (x ∷ xs) =
        insert_sorted-IsSorted x (insertion_sort xs) (insertion_sort-IsSorted xs)

abbrev pub by_insertion {ℓ} : {A : Type ℓ} → SortSlice A
by_insertion = record {
  sort_slice = insertion_sort;
  sort_slice-perm = insertion_sort-perm;
  sort_slice-IsSorted = λ less xs w. insertion_sort-IsSorted less w xs;
}
