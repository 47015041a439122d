-- ===== src/Worker/Ranking/Ranked.antt =====
-- A validator that outranks another has the smaller rank.
use mathlib.Core.List.{Permᴰ}
use mathlib.Core.List.Permᴰ.{symm}
use validator_health_check.Prelude.{
  ℕ, suc, ◌+◌, ◌≤◌, ◌<◌, pos_part, neg_part, true, false, List, [], ◌∷◌, Option, none, some, Text,
  Map, get, put, get-put, All, Some, Some-perm, Distinct-perm, Distinct, has_key, length,
  IsWeakOrder, IsSorted, ◌==◌, ==_iff, text_eq, arith, ◌≡◌, ◌⊎◌, refl, subst, ◌∙◌, inl, inr,
}
use validator_health_check.Worker.Outside.{World, StakingValidator}
use validator_health_check.Worker.Ranking.{is_bonded, outranks, number_ranks, valoper_to_rank}

outranks-IsWeakOrder : IsWeakOrder outranks
unfolding outranks
outranks-IsWeakOrder = record {
  irrefl = λ x. ground arith;
  negatively_trans = λ x y z h k. ground arith;
  asymm = λ x y h. ground arith;
}

-- No validator of the list has this address.
abbrev Unlisted : Text → List StakingValidator → Type 0
Unlisted valoper = All λ v. (v.operator_address == valoper) ≡ false

number_ranks-Unlisted :
    (i : ℕ) (vs : List StakingValidator) (m : Map Text ℕ) (valoper : Text)
    → Unlisted valoper vs
    → get valoper (number_ranks i vs m) ≡ get valoper m
unfolding number_ranks
number_ranks-Unlisted i [] m valoper h = refl
number_ranks-Unlisted i (v ∷ vs) m valoper (h, hs) = ground (
  arith,
  number_ranks-Unlisted (suc i) vs (put v.operator_address (suc i) m) valoper hs,
  get-put v.operator_address valoper (suc i) m,
)

-- The rank that is found lies behind the index.
abbrev Above : ℕ → ℕ → Option ℕ → Type 0
Above i n none = ⊥
Above i n (some r) = (i < r) × (r ≤ i + n)

Unlisted-Distinct :
    (valoper : Text) (vs : List StakingValidator)
    → has_key (λ v. v.operator_address) valoper vs ≡ false
    → Unlisted valoper vs
unfolding has_key
Unlisted-Distinct valoper [] h = tt
Unlisted-Distinct valoper (v ∷ vs) h = (ground arith, Unlisted-Distinct valoper vs (ground arith))

-- The rank of the first one.
first-rank :
    (i : ℕ) (v : StakingValidator) (vs : List StakingValidator) (m : Map Text ℕ)
    → has_key (λ u. u.operator_address) v.operator_address vs ≡ false
    → get v.operator_address (number_ranks i (v ∷ vs) m) ≡ some (suc i)
unfolding number_ranks
first-rank i v vs m h = ground (
  arith,
  number_ranks-Unlisted (suc i) vs (put v.operator_address (suc i) m) v.operator_address
      (Unlisted-Distinct v.operator_address vs h),
  get-put v.operator_address v.operator_address (suc i) m,
  ==_iff v.operator_address v.operator_address,
)

Above-weaken : (i n : ℕ) (r : Option ℕ) → Above (suc i) n r → Above i (suc n) r
Above-weaken i n none h = h
Above-weaken i n (some r) h = (omega arith, omega arith)

listed-Above :
    (i : ℕ) (vs : List StakingValidator) (m : Map Text ℕ) (a : StakingValidator)
    → Distinct (λ v. v.operator_address) vs
    → Some (λ v. v ≡ a) vs
    → Above i (length vs) (get a.operator_address (number_ranks i vs m))
unfolding number_ranks
listed-Above i [] m a d h = absurd h
listed-Above i (v ∷ vs) m a d (inl e) = rw (← e, first-rank i v vs m d.0) (omega arith, omega arith)
listed-Above i (v ∷ vs) m a d (inr h) =
    Above-weaken i (length vs) _ (listed-Above (suc i) vs _ a d.1 h)

-- Both are found, the first with the smaller rank.
abbrev pub IsBefore : ℕ → ℕ → Option ℕ → Option ℕ → Type 0
IsBefore i n (some r) (some r') = (i < r) × (r < r') × (r' ≤ i + n)
IsBefore i n _ _ = ⊥

Above-IsBefore : (i n : ℕ) (r : Option ℕ) → Above (suc i) n r → IsBefore i (suc n) (some (suc i)) r
Above-IsBefore i n none h = h
Above-IsBefore i n (some r) h = (omega arith, omega arith, omega arith)

IsBefore-weaken : (i n : ℕ) (r r' : Option ℕ) → IsBefore (suc i) n r r' → IsBefore i (suc n) r r'
IsBefore-weaken i n none r' h = h
IsBefore-weaken i n (some r) none h = h
IsBefore-weaken i n (some r) (some r') h = (omega arith, omega arith, omega arith)

All-Some :
    (P : StakingValidator → Type 0) (vs : List StakingValidator) (a : StakingValidator)
    → All P vs
    → Some (λ v. v ≡ a) vs
    → P a
All-Some P [] a h k = absurd k
All-Some P (v ∷ vs) a h (inl e) = subst P e h.0
All-Some P (v ∷ vs) a h (inr k) = All-Some P vs a h.1 k

sorted-IsBefore :
    (i : ℕ) (vs : List StakingValidator) (m : Map Text ℕ) (a b : StakingValidator)
    → Distinct (λ v. v.operator_address) vs
    → IsSorted outranks vs
    → outranks a b ≡ true
    → Some (λ v. v ≡ a) vs
    → Some (λ v. v ≡ b) vs
    → IsBefore i
        (length vs)
        (get a.operator_address (number_ranks i vs m))
        (get b.operator_address (number_ranks i vs m))
unfolding number_ranks
sorted-IsBefore i [] m a b d s above ha hb = absurd ha
sorted-IsBefore i (v ∷ vs) m a b d s above (inl ea) (inl eb) = cc (outranks-IsWeakOrder.irrefl v)
sorted-IsBefore i (v ∷ vs) m a b d s above (inl ea) (inr hb) =
    rw (← ea, first-rank i v vs m d.0)
      (Above-IsBefore i (length vs) _ (listed-Above (suc i) vs _ b d.1 hb))
sorted-IsBefore i (v ∷ vs) m a b d s above (inr ha) (inl eb) =
    cc (All-Some (λ u. outranks u v ≡ false) vs a s.0 ha)
sorted-IsBefore i (v ∷ vs) m a b d s above (inr ha) (inr hb) =
    IsBefore-weaken i (length vs) _ _ (sorted-IsBefore (suc i) vs _ a b d.1 s.1 above ha hb)

length-perm : {xs ys : List StakingValidator} → Permᴰ xs ys → length xs ≡ length ys
length-perm Permᴰ.nil = refl
length-perm (Permᴰ.cons e p) = omega (arith, length-perm p)
length-perm (Permᴰ.swap e e') = refl
length-perm (Permᴰ.trans p q) = length-perm p ∙ length-perm q

-- It alone is bonded, or they are at the same standing and it has more tokens.
abbrev pub StandsBefore : StakingValidator → StakingValidator → Type 0
StandsBefore a b =
    ((is_bonded a.status ≡ true) × (is_bonded b.status ≡ false))
    ⊎ ((is_bonded a.status ≡ is_bonded b.status)
        × (pos_part b.tokens + neg_part a.tokens < pos_part a.tokens + neg_part b.tokens))

outranks-StandsBefore : (a b : StakingValidator) → StandsBefore a b → outranks a b ≡ true
unfolding outranks
outranks-StandsBefore a b (inl (h, k)) = ground arith
outranks-StandsBefore a b (inr (h, k)) = ground arith

-- Of the validators of a chain, which have distinct addresses, every one gets a rank between 1 and
-- their number, and one that stands before another, because it alone is bonded or because it has
-- more tokens at the same standing, gets the smaller rank, whatever the order in which the node
-- lists them.
pub valoper_to_rank-IsBefore :
    (w : World) (vs : List StakingValidator) (a b : StakingValidator)
    → Distinct (λ v. v.operator_address) vs
    → Some (λ v. v ≡ a) vs
    → Some (λ v. v ≡ b) vs
    → StandsBefore a b
    → IsBefore 0
        (length vs)
        (get a.operator_address (valoper_to_rank w vs))
        (get b.operator_address (valoper_to_rank w vs))
unfolding valoper_to_rank
valoper_to_rank-IsBefore w vs a b d ha hb above =
    let p : Permᴰ (w.sort_validators.sort_slice outranks vs) vs =
      w.sort_validators.sort_slice-perm outranks vs in
    rw (← length-perm p) (
      sorted-IsBefore 0 (w.sort_validators.sort_slice outranks vs) [] a b (Distinct-perm _ p d)
        (w.sort_validators.sort_slice-IsSorted outranks vs outranks-IsWeakOrder)
        (outranks-StandsBefore a b above) (Some-perm _ (symm p) ha) (Some-perm _ (symm p) hb))
