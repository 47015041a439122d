-- ===== src/Registry/Chains/Order.antt =====
-- The order of the health-checks, and of the endpoints of a chain.
use validator_health_check.Prelude.{
  true, false, not, ◌||◌, ◌&&◌, List, [], ◌∷◌, Text, IsWeakOrder, any, text_eq, ◌==◌, ==_iff, arith,
  ◌≡◌, refl,
}
use validator_health_check.Utils.Slices.{member}
use validator_health_check.Registry.Chains.{
  text_ltb, more_urgent, inform_priority_latest_healthy_rpc, without,
}

text_ltb_irrefl : (s : Text) → text_ltb s s ≡ false
unfolding text_ltb
text_ltb_irrefl [] = refl
text_ltb_irrefl (a ∷ s) = ground (arith, text_ltb_irrefl s)

text_ltb_asymm : (s t : Text) → text_ltb s t ≡ true → text_ltb t s ≡ false
unfolding text_ltb
text_ltb_asymm s [] h = cc
text_ltb_asymm [] (b ∷ t) h = refl
text_ltb_asymm (a ∷ s) (b ∷ t) h = ground (arith, text_ltb_asymm s t)

text_ltb_negatively_trans :
    (s t u : Text) → text_ltb t s ≡ false → text_ltb u t ≡ false → text_ltb u s ≡ false
unfolding text_ltb
text_ltb_negatively_trans [] t u h k = refl
text_ltb_negatively_trans (a ∷ s) [] u h k = cc
text_ltb_negatively_trans (a ∷ s) (b ∷ t) [] h k = cc
text_ltb_negatively_trans (a ∷ s) (b ∷ t) (c ∷ u) h k =
    ground (arith, text_ltb_negatively_trans s t u)

-- The comparison of `Sort` is one that `sort.Slice` accepts.
pub more_urgent-IsWeakOrder : IsWeakOrder more_urgent
unfolding more_urgent
more_urgent-IsWeakOrder = record {
  irrefl = λ x. ground (arith, text_ltb_irrefl x.chain_name);
  negatively_trans =
      λ x y z h k. ground (arith, text_ltb_negatively_trans x.chain_name y.chain_name z.chain_name);
  asymm = λ x y h. ground (arith, text_ltb_asymm x.chain_name y.chain_name);
}

member-without :
    (x rpc : Text) (rs : List Text) → member x (without rpc rs) ≡ (not (rpc == x) && member x rs)
unfolding any
member-without x rpc [] = ground arith
member-without x rpc (r ∷ rs) =
    ground (arith, member-without x rpc rs, ==_iff r rpc, ==_iff rpc x, ==_iff r x)

-- `InformPriorityLatestHealthyRpcWL` of a chain that has endpoints loses none of them and adds
-- only the informed one.
pub member-inform :
    (x rpc r : Text) (rs : List Text)
    → member x (inform_priority_latest_healthy_rpc rpc (r ∷ rs)) ≡ ((rpc == x) || member x (r ∷ rs))
unfolding inform_priority_latest_healthy_rpc any
member-inform x rpc r rs = ground (arith, member-without x rpc (r ∷ rs))
