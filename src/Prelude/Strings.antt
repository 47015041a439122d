-- ===== src/Prelude/Strings.antt =====
-- Byte strings: literals, and the functions of the `strings` package that the code calls. White
-- space is that of ASCII.
use Prim.Native.Char.{code}
use Prim.Native.Nat.{ℕ}
use Prim.Native.String.{String}
use mathlib.Core.Bool.{Bool, true, false, not, ◌&&◌, ◌||◌}
use validator_health_check.Prelude.Lists.{all}
use mathlib.Core.List.{List, [], ◌∷◌, ◌++◌, reverse}
use mathlib.Core.Path.{◌≡◌, refl}
use native.Mathlib.Omega.{arith}
use validator_health_check.Prelude.Equality.{Text}
use validator_health_check.Prelude.Tests.{eqb, leb, if◌then◌else◌}

-- The bytes of an ASCII literal.
abbrev pub text : String → Text
text String.[] = []
text (String.◌∷◌ c s) = code c ∷ text s

-- `strings.HasPrefix(s, p)`
unfoldable pub has_prefix : Text → Text → Bool
has_prefix s [] = true
has_prefix [] (b ∷ p) = false
has_prefix (a ∷ s) (b ∷ p) = eqb a b && has_prefix s p

-- `strings.HasSuffix(s, p)`
unfoldable pub has_suffix : Text → Text → Bool
unfolding has_prefix
has_suffix s p = has_prefix (reverse s) (reverse p)

-- `strings.Contains(s, p)`
unfoldable pub contains : Text → Text → Bool
unfolding has_prefix
contains [] p = has_prefix [] p
contains (a ∷ s) p = has_prefix (a ∷ s) p || contains s p

pub has_prefix-append : (p s : Text) → has_prefix (p ++ s) p ≡ true
unfolding has_prefix
has_prefix-append [] s = refl
has_prefix-append (b ∷ p) s = ground (arith, has_prefix-append p s)

contains_of_prefix : (s p : Text) → has_prefix s p ≡ true → contains s p ≡ true
unfolding contains
contains_of_prefix [] p h = h
contains_of_prefix (a ∷ s) p h = ground arith

contains-cons : (c : ℕ) (s p : Text) → contains s p ≡ true → contains (c ∷ s) p ≡ true
unfolding contains
contains-cons c s p h = ground arith

-- A text that holds the pattern between two others contains it.
pub contains-append : (u p v : Text) → contains (u ++ (p ++ v)) p ≡ true
contains-append [] p v = contains_of_prefix (p ++ v) p (has_prefix-append p v)
contains-append (c ∷ u) p v = contains-cons c (u ++ (p ++ v)) p (contains-append u p v)

abbrev pub is_space : ℕ → Bool
is_space c = eqb c b' ' || (leb 9 c && leb c 13)

unfoldable pub trim_left : Text → Text
trim_left [] = []
trim_left (c ∷ s) = if is_space c then trim_left s else c ∷ s

-- `strings.TrimSpace(s)`
unfoldable pub trim_space : Text → Text
unfolding trim_left
trim_space s = reverse (trim_left (reverse (trim_left s)))

-- `strings.Join(parts, sep)`
unfoldable pub join : Text → List Text → Text
join sep [] = []
join sep (t ∷ []) = t
join sep (t ∷ u ∷ ts) = t ++ (sep ++ join sep (u ∷ ts))

-- `s == ""`
abbrev pub is_empty : Text → Bool
is_empty [] = true
is_empty (c ∷ s) = false

abbrev pub is_digit : ℕ → Bool
is_digit c = leb b'0' c && leb c b'9'

abbrev pub is_lower : ℕ → Bool
is_lower c = leb b'a' c && leb c b'z'

abbrev pub is_upper : ℕ → Bool
is_upper c = leb b'A' c && leb c b'Z'

-- `[a-zA-Z\d_]`, which is also `\w`
abbrev pub is_word : ℕ → Bool
is_word c = is_lower c || is_upper c || is_digit c || eqb c b'_'

-- A match of `^[…]+$`, for a class of bytes.
abbrev pub one_or_more : (ℕ → Bool) → Text → Bool
one_or_more p s = not (is_empty s) && all p s
