-- ===== src/Push/Silencer/Examples.antt =====
-- A chat that silences messages about one validator.
use validator_health_check.Prelude.{
  ℕ, zero, suc, ℤ, pos, true, [], ◌∷◌, ◌++◌, Text, text, arith, ◌≡◌, refl, seconds, get, delete_if,
  any, int_eq, text_eq, trim_space, false,
}
use validator_health_check.Push.Silencer.{
  Silencer, Patterns, set_silence_pattern, set_in_chat, should_silent_by_chat_id, patterns_of,
}
use validator_health_check.Push.Silencer.Silences.{should_silent-any, silences, set-silences}
use validator_health_check.Push.Silencer.Capacity.{IsBounded, set-IsBounded}

abbrev pattern : Text
pattern = text "juno-validator"

abbrev chat : ℤ
chat = pos 42

abbrev one_pattern : Silencer
one_pattern = (chat, (pattern, seconds 50) ∷ []) ∷ []

abbrev warning : Text
warning = text "juno-validator is jailed"

should_silent-any_example :
    (should_silent_by_chat_id (seconds 40) chat warning one_pattern).0
    ≡ any (silences (seconds 40) warning) (patterns_of (get chat one_pattern))
should_silent-any_example = should_silent-any (seconds 40) chat warning one_pattern

set-silences_example :
    (should_silent_by_chat_id
      (seconds 61)
      chat
      ([] ++ (trim_space pattern ++ text " is jailed"))
      (set_silence_pattern (seconds 60) chat pattern (pos (seconds 1)) one_pattern).1).0
    ≡ true
unfolding set_silence_pattern set_in_chat trim_space get delete_if
set-silences_example =
    set-silences (seconds 60) chat pattern (seconds 1) one_pattern false (seconds 61) []
      (text " is jailed") refl (omega arith)

no_silence-IsBounded : IsBounded []
unfolding get
no_silence-IsBounded = record { at_chat = λ chat_id. omega arith }

set-IsBounded_example :
    IsBounded (set_silence_pattern (seconds 60) chat pattern (pos (seconds 1)) []).1
set-IsBounded_example =
    set-IsBounded (seconds 60) chat pattern (pos (seconds 1)) [] no_silence-IsBounded

-- `n` patterns of different lengths, in force until the hundredth second.
unfoldable many_patterns : ℕ → Patterns
many_patterns zero = []
many_patterns (suc n) = (n ∷ [], seconds 100) ∷ many_patterns n

abbrev full_chat : Silencer
full_chat = (chat, many_patterns 50) ∷ []
