-- ===== src/Push/Spam.antt =====
-- services/telegram_push_message_svc/prevent_spamming.go: when each identity was last told of each
-- case. A call holds the lock from start to end and reads the clock once, as `now`.
pub mod Spacing
pub mod Examples
use validator_health_check.Prelude.{
  ℕ, ◌≡◌, ◌↔◌, Bool, true, false, ◌&&◌, List, [], ◌∷◌, Option, none, some, Text, Map, get, put,
  Time, Duration, since, ltb_ℤ, eqb, if◌then◌else◌, Eq, text_eq, arith,
}

pub data PreventSpammingCase : Type 0 where
  tome_stoned jailed low_uptime missed_blocks_over_dangerous_threshold : PreventSpammingCase
  direct_health_check_optional_rpc health_check_managed_rpc not_voted_governance :
      PreventSpammingCase

-- `iota`
abbrev pub case_number : PreventSpammingCase → ℕ
case_number tome_stoned = 0
case_number jailed = 1
case_number low_uptime = 2
case_number missed_blocks_over_dangerous_threshold = 3
case_number direct_health_check_optional_rpc = 4
case_number health_check_managed_rpc = 5
case_number not_voted_governance = 6

abbrev pub case_beq : PreventSpammingCase → PreventSpammingCase → Bool
case_beq a b = eqb (case_number a) (case_number b)

pub case_beq_iff : (a b : PreventSpammingCase) → (case_beq a b ≡ true) ↔ (a ≡ b)
case_beq_iff a b = ground arith

instance abbrev pub case_eq : Eq PreventSpammingCase
case_eq = record { beq = case_beq; beq_iff = case_beq_iff }

-- `perCaseRegistry`: when each identity was last sent to
abbrev pub LastSent : Type 0
LastSent = Map Text Time

-- `globalPreventSpamming`
abbrev pub PreventSpamming : Type 0
PreventSpamming = Map PreventSpammingCase LastSent

abbrev pub last_sent_of : Option LastSent → LastSent
last_sent_of none = []
last_sent_of (some registry) = registry

-- `found && time.Since(lastSent) < ignoreIfLastSentLessThan`
unfoldable pub is_recent : Time → Duration → Option Time → Bool
is_recent now interval none = false
is_recent now interval (some last) = ltb_ℤ (since now last) interval

-- The loop over the identities.
unfoldable pub send_loop : Time → Duration → List Text → LastSent → List Text × LastSent
send_loop now interval [] registry = ([], registry)
send_loop now interval (identity ∷ identities) registry =
    let recent = is_recent now interval (get identity registry) in
    let (rest, registry') =
      send_loop now interval identities (if recent then registry else put identity now registry) in
    (if recent then rest else identity ∷ rest, registry')

unfoldable pub should_send_message :
    Time
    → PreventSpammingCase
    → List Text
    → Duration
    → PreventSpamming
    → List Text × PreventSpamming
unfolding send_loop
should_send_message now case identities interval s =
    let (to_send, registry) = send_loop now interval identities (last_sent_of (get case s)) in
    (to_send, put case registry s)
