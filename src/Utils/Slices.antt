-- ===== src/Utils/Slices.antt =====
-- utils/slice.go and utils/set.go. A set is a map; the order in which Go walks it is that of its
-- entries here.
use validator_health_check.Prelude.{
  Bool, true, ◌&&◌, ◌||◌, List, [], ◌∷◌, Map, get, put, get-put, get-nil, is_some, any, Eq, ◌==◌,
  ==_iff, text_eq, map, if◌then◌else◌, arith, ◌≡◌, refl,
}

module _ {ℓ} {A : Type ℓ} ⦃e : Eq A⦄ where
  -- The loop that fills a set.
  unfoldable pub fill : List A → Map A Bool → Map A Bool
  fill [] m = m
  fill (x ∷ xs) m = fill xs (put x true m)

  abbrev pub member : A → List A → Bool
  member x = any (λ y. y == x)

  -- `Distinct`
  unfoldable pub distinct : List A → List A
  unfolding fill
  distinct slice = map (λ entry. entry.0) (fill slice [])

  abbrev filter_known : Map A Bool → List A → List A
  filter_known m [] = []
  filter_known m (x ∷ xs) = if is_some (get x m) then x ∷ filter_known m xs else filter_known m xs

  -- `Collisions`
  unfoldable pub collisions : List A → List A → List A
  unfolding fill
  collisions slice1 slice2 = filter_known (fill slice1 []) slice2

  is_some-fill :
      (x : A) (xs : List A) (m : Map A Bool)
      → is_some (get x (fill xs m)) ≡ (member x xs || is_some (get x m))
  unfolding fill any
  is_some-fill x [] m = refl
  is_some-fill x (y ∷ ys) m = ground (arith, is_some-fill x ys (put y true m), get-put y x true m)

  member-known :
      (x : A) (m : Map A Bool) (xs : List A)
      → member x (filter_known m xs) ≡ (member x xs && is_some (get x m))
  unfolding any
  member-known x m [] = refl
  member-known x m (y ∷ ys) = ground (arith, member-known x m ys, ==_iff y x)

  -- `Collisions` gives exactly the elements that are in both slices.
  pub member-collisions :
      (x : A) (xs ys : List A) → member x (collisions xs ys) ≡ (member x xs && member x ys)
  unfolding collisions
  member-collisions x xs ys =
      ground (arith, member-known x (fill xs []) ys, is_some-fill x xs [], get-nil {V = Bool} x)
