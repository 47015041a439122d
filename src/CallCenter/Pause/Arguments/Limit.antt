-- ===== src/CallCenter/Pause/Arguments/Limit.antt =====
-- What the arguments of `/pause` ask for.
use validator_health_check.Prelude.{
  true, false, List, [], ◌∷◌, none, some, Text, text, Duration, pos, ◌≤ℤ◌, text_eq, ◌≡◌, ◌⊎◌, hours,
  length, ◌<◌, ◌*◌,
}
use validator_health_check.CallCenter.Context.{TimeFormat, split_spaces}
use validator_health_check.CallCenter.Pause.Arguments.{PauseArgs, asked, refused}

-- What the parts of the arguments must be for this to be asked. A pause with a duration is not negative
-- and at most seven hours long, and one without a duration is for thirty years; an end of a pause is
-- asked by a zero. Refused are no part, more than two, and a duration that is none or out of range.
abbrev pub Means : TimeFormat → List Text → PauseArgs → Type 0
Means tf parts (asked target (some d) false) =
    (part : Text) × (parts ≡ target ∷ part ∷ [])
    × (tf.parse_duration part ≡ some d)
    × (pos 0 ≤ℤ d)
    × (d ≤ℤ pos (hours 7))
Means tf parts (asked target (some d) true) =
    (parts ≡ target ∷ []) × (d ≡ pos (hours (30 * 365 * 24)))
Means tf parts (asked target none ultimate) =
    (ultimate ≡ false) × ((parts ≡ target ∷ text "0" ∷ []) ⊎ (parts ≡ target ∷ text "0s" ∷ []))
Means tf parts (refused response) =
    (parts ≡ [])
    ⊎ (2 < length parts)
    ⊎ ((target : Text) × (part : Text) × (parts ≡ target ∷ part ∷ [])
        × ((d : Duration)
            → tf.parse_duration part ≡ some d
            → (pos 0 ≤ℤ d)
            → (d ≤ℤ pos (hours 7))
            → ⊥))

-- Empty arguments are refused as well.
abbrev pub MeansAll : TimeFormat → Text → PauseArgs → Type 0
MeansAll tf args a =
    ((args ≡ []) × ((response : Text) × (a ≡ refused response))) ⊎ Means tf (split_spaces args) a
