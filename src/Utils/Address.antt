-- ===== src/Utils/Address.antt =====
-- utils/address.go and utils/validate.go: operator addresses, and the prefixes derived from them.
use mathlib.Core.List.{reverse, reverse-append, append-nil}
use validator_health_check.Prelude.{
  ℕ, ◌-◌, Bool, true, false, not, ◌||◌, ◌&&◌, [], ◌∷◌, ◌++◌, Option, none, some, Text, text, take,
  drop, length, has_prefix, has_suffix, has_prefix-append, is_lower, is_digit, is_empty, all, any,
  leb, eqb, if◌then◌else◌, arith, ◌≡◌, refl, ap, length-append,
}

-- What stands in front of the last `1`, as `strings.LastIndex(valoper, "1")` finds it.
unfoldable pub before_last_one : Text → Option Text
before_last_one [] = none
before_last_one (c ∷ s) = elim (before_last_one s) [
  | some hrp ↦ some (c ∷ hrp)
  | none ↦ if eqb c b'1' then some [] else none
]

-- The prefix with its ending `valoper` replaced.
abbrev replace_valoper : Text → Option Text → Option Text
replace_valoper ending none = none
replace_valoper ending (some hrp) =
    if is_empty hrp
    then none
    else if not (has_suffix hrp (text "valoper"))
    then none
    else some (take (length hrp - 7) hrp ++ ending)

unfoldable pub get_valcons_hrp_from_valoper_hrp : Text → Option Text
unfolding before_last_one has_suffix
get_valcons_hrp_from_valoper_hrp valoper =
    replace_valoper (text "valcons") (before_last_one valoper)

unfoldable pub get_addr_hrp_from_valoper_hrp : Text → Option Text
unfolding before_last_one has_suffix
get_addr_hrp_from_valoper_hrp valoper = replace_valoper [] (before_last_one valoper)

-- `[qpzry9x8gf2tvdw0s3jn54khce6mua7l]`
abbrev is_bech32 : ℕ → Bool
is_bech32 c = any (eqb c) (text "qpzry9x8gf2tvdw0s3jn54khce6mua7l")

-- `valoper1` and 38 or more further characters
abbrev is_valoper_tail : Text → Bool
is_valoper_tail s =
    has_prefix s (text "valoper1") && leb 38 (length (drop 8 s)) && all is_bech32 (drop 8 s)

unfoldable pub valoper_in_rest : Text → Bool
unfolding has_prefix all any
valoper_in_rest [] = false
valoper_in_rest (c ∷ s) =
    is_valoper_tail (c ∷ s) || ((is_lower c || is_digit c) && valoper_in_rest s)

-- A match of `^[a-z\d]+valoper1[…]{38,}$`
unfoldable pub is_valoper_address_format : Text → Bool
unfolding valoper_in_rest
is_valoper_address_format [] = false
is_valoper_address_format (c ∷ s) = (is_lower c || is_digit c) && valoper_in_rest s

before_last_one-none :
    (data_part : Text) → any (eqb b'1') data_part ≡ false → before_last_one data_part ≡ none
unfolding before_last_one any
before_last_one-none [] h = refl
before_last_one-none (c ∷ s) h = ground (arith, before_last_one-none s)

before_last_one-append :
    (hrp data_part : Text)
    → any (eqb b'1') data_part ≡ false
    → before_last_one (hrp ++ b'1' ∷ data_part) ≡ some hrp
unfolding before_last_one
before_last_one-append [] data_part h = ground (arith, before_last_one-none data_part h)
before_last_one-append (c ∷ hrp) data_part h =
    ground (arith, before_last_one-append hrp data_part h)

take-append : (u v : Text) (n : ℕ) → n ≡ length u → take n (u ++ v) ≡ u
take-append [] v n h = rw h refl
take-append (c ∷ u) v n h = rw h (ap (◌∷◌ c) (take-append u v (length u) refl))

is_empty-append : (hrp : Text) → is_empty (hrp ++ text "valoper") ≡ false
is_empty-append [] = refl
is_empty-append (c ∷ hrp) = refl

has_suffix-append : (hrp : Text) → has_suffix (hrp ++ text "valoper") (text "valoper") ≡ true
unfolding has_suffix
has_suffix-append hrp =
    rw (reverse-append hrp (text "valoper"))
      (has_prefix-append (reverse (text "valoper")) (reverse hrp))

-- Of an address whose prefix ends in `valoper` and whose data has no `1`, both predictions succeed:
-- the chain's prefix with `valcons`, and the chain's prefix alone.
pub hrp-append :
    (hrp data_part : Text)
    → any (eqb b'1') data_part ≡ false
    → (get_valcons_hrp_from_valoper_hrp ((hrp ++ text "valoper") ++ b'1' ∷ data_part)
        ≡ some (hrp ++ text "valcons"))
      × (get_addr_hrp_from_valoper_hrp ((hrp ++ text "valoper") ++ b'1' ∷ data_part) ≡ some hrp)
unfolding get_valcons_hrp_from_valoper_hrp get_addr_hrp_from_valoper_hrp
hrp-append hrp data_part h = ground (
  arith,
  before_last_one-append (hrp ++ text "valoper") data_part h,
  is_empty-append hrp,
  has_suffix-append hrp,
  take-append hrp (text "valoper") (length (hrp ++ text "valoper") - 7)
      (omega (arith, length-append hrp (text "valoper"))),
  append-nil hrp,
)
