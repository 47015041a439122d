-- ===== src/Push/Spam/Spacing.antt =====
-- Who is told, and how far apart.
use validator_health_check.Prelude.{
  ℕ, ◌+◌, ◌≤◌, ◌<◌, Bool, true, false, not, ◌&&◌, List, [], ◌∷◌, Option, none, some, Text, get, put,
  get-put, Time, Duration, pos, since-lt, if◌then◌else◌, text_eq, ◌==◌, ==_iff, ==_refl, arith, ◌≡◌,
  refl, any,
}
use validator_health_check.Push.Spam.{
  PreventSpammingCase, case_eq, LastSent, PreventSpamming, last_sent_of, is_recent, send_loop,
  should_send_message,
}

-- The identity is in the list.
abbrev pub is_listed : Text → List Text → Bool
is_listed identity = any (λ other. other == identity)

abbrev pub last_sent : PreventSpammingCase → Text → PreventSpamming → Option Time
last_sent case identity s = get identity (last_sent_of (get case s))

loop-listed :
    (now : Time) (interval : Duration) (identity : Text) (ids : List Text) (r : LastSent)
    → is_listed identity (send_loop now interval ids r).0
      ≡ (is_listed identity ids && not (is_recent now interval (get identity r)))
unfolding send_loop any
loop-listed now interval identity [] r = refl
loop-listed now interval identity (i ∷ ids) r = ground (
  arith,
  loop-listed now interval identity ids r,
  loop-listed now interval identity ids (put i now r),
  get-put i identity now r,
  ==_iff i identity,
)

-- `ShouldSendMessageWL` picks exactly the listed identities that were not told of the case less
-- than the interval ago.
pub should_send-listed :
    (now : Time) (case : PreventSpammingCase) (identity : Text) (ids : List Text)
    (interval : Duration) (s : PreventSpamming)
    → is_listed identity (should_send_message now case ids interval s).0
      ≡ (is_listed identity ids && not (is_recent now interval (last_sent case identity s)))
unfolding should_send_message
should_send-listed now case identity ids interval s =
    loop-listed now interval identity ids (last_sent_of (get case s))

-- Sent at `t` or later.
abbrev NotBefore : Time → Option Time → Type 0
NotBefore t none = ⊥
NotBefore t (some u) = t ≤ u

loop-NotBefore :
    (t now : Time) (interval : Duration) (identity : Text) (ids : List Text) (r : LastSent)
    → t ≤ now
    → NotBefore t (get identity r)
    → NotBefore t (get identity (send_loop now interval ids r).1)
unfolding send_loop
loop-NotBefore t now interval identity [] r le h = h
loop-NotBefore t now interval identity (i ∷ ids) r le h = ground (
  arith,
  loop-NotBefore t now interval identity ids r le h,
  loop-NotBefore t now interval identity ids (put i now r) le,
  get-put i identity now r,
)

loop-records :
    (now : Time) (interval : Duration) (identity : Text) (ids : List Text) (r : LastSent)
    → is_listed identity (send_loop now interval ids r).0 ≡ true
    → NotBefore now (get identity (send_loop now interval ids r).1)
unfolding send_loop any
loop-records now interval identity [] r h = cc
loop-records now interval identity (i ∷ ids) r h = ground (
  arith,
  loop-records now interval identity ids r,
  loop-records now interval identity ids (put i now r),
  loop-NotBefore now now interval identity ids (put i now r),
  get-put i identity now r,
  ==_iff i identity,
)

-- One call of `ShouldSendMessageWL`, with the instant at which it runs.
pub record Call : Type 0 where
  pub now : Time
  pub case : PreventSpammingCase
  pub identities : List Text
  pub interval : Duration

abbrev pub call : Call → PreventSpamming → List Text × PreventSpamming
call c = should_send_message c.now c.case c.identities c.interval

unfoldable pub calls : List Call → PreventSpamming → PreventSpamming
calls [] s = s
calls (c ∷ cs) s = calls cs (call c s).1

-- Every call runs at `t` or later.
abbrev pub AllFrom : Time → List Call → Type 0
AllFrom t [] = Unit
AllFrom t (c ∷ cs) = (t ≤ c.now) × AllFrom t cs

call-NotBefore :
    (t : Time) (case : PreventSpammingCase) (identity : Text) (c : Call) (s : PreventSpamming)
    → t ≤ c.now
    → NotBefore t (last_sent case identity s)
    → NotBefore t (last_sent case identity (call c s).1)
unfolding should_send_message
call-NotBefore t case identity c s le h = ground (
  arith,
  get-put c.case case (send_loop c.now c.interval c.identities (last_sent_of (get c.case s))).1 s,
  ==_iff c.case case,
  loop-NotBefore t c.now c.interval identity c.identities (last_sent_of (get c.case s)),
)

calls-NotBefore :
    (t : Time) (case : PreventSpammingCase) (identity : Text) (cs : List Call) (s : PreventSpamming)
    → AllFrom t cs
    → NotBefore t (last_sent case identity s)
    → NotBefore t (last_sent case identity (calls cs s))
unfolding calls
calls-NotBefore t case identity [] s a h = h
calls-NotBefore t case identity (c ∷ cs) s a h =
    calls-NotBefore t case identity cs (call c s).1 a.1 (call-NotBefore t case identity c s a.0 h)

call-records :
    (identity : Text) (c : Call) (s : PreventSpamming)
    → is_listed identity (call c s).0 ≡ true
    → NotBefore c.now (last_sent c.case identity (call c s).1)
unfolding should_send_message
call-records identity c s h = ground (
  arith,
  get-put c.case c.case (send_loop c.now c.interval c.identities (last_sent_of (get c.case s))).1 s,
  ==_refl c.case,
  loop-records c.now c.interval identity c.identities (last_sent_of (get c.case s)),
)

recent_of_NotBefore :
    (t now d : ℕ) (o : Option Time) → now < t + d → NotBefore t o → is_recent now (pos d) o ≡ true
unfolding is_recent
recent_of_NotBefore t now d none lt h = absurd h
recent_of_NotBefore t now d (some u) lt h = since-lt now u d (omega arith)

-- Once a call has picked an identity for a case, no later call for the case picks it before its own
-- interval has passed since then, whatever calls were made in between.
pub sends_spaced :
    (first last : Call) (between : List Call) (d : ℕ) (identity : Text) (s : PreventSpamming)
    → is_listed identity (call first s).0 ≡ true
    → AllFrom first.now between
    → last.case ≡ first.case
    → last.interval ≡ pos d
    → last.now < first.now + d
    → is_listed identity (call last (calls between (call first s).1)).0 ≡ false
sends_spaced first last between d identity s picked later same interval soon = ground (
  arith,
  should_send-listed last.now last.case identity last.identities last.interval
      (calls between (call first s).1),
  calls-NotBefore first.now first.case identity between (call first s).1,
  call-records identity first s,
  recent_of_NotBefore first.now last.now d
      (last_sent first.case identity (calls between (call first s).1)),
)

-- How often the identity is in the list.
abbrev pub occurrences : Text → List Text → ℕ
occurrences identity [] = 0
occurrences identity (i ∷ ids) =
    if i == identity then occurrences identity ids + 1 else occurrences identity ids

occurrences-absent :
    (identity : Text) (ids : List Text)
    → is_listed identity ids ≡ false
    → occurrences identity ids ≡ 0
unfolding any
occurrences-absent identity [] h = refl
occurrences-absent identity (i ∷ ids) h = ground (arith, occurrences-absent identity ids)

loop-once :
    (now : Time) (d : ℕ) (identity : Text) (ids : List Text) (r : LastSent)
    → 0 < d
    → occurrences identity (send_loop now (pos d) ids r).0 ≤ 1
unfolding send_loop
loop-once now d identity [] r h = omega arith
loop-once now d identity (i ∷ ids) r h = ground (
  arith,
  loop-once now d identity ids r h,
  loop-once now d identity ids (put i now r) h,
  occurrences-absent identity (send_loop now (pos d) ids (put i now r)).0,
  loop-listed now (pos d) identity ids (put i now r),
  get-put i identity now r,
  recent_of_NotBefore now now d (get identity (put i now r)),
)

-- With a positive interval a call picks no identity twice, however often it is listed.
pub should_send-once :
    (now : Time) (case : PreventSpammingCase) (identity : Text) (ids : List Text) (d : ℕ)
    (s : PreventSpamming)
    → 0 < d
    → occurrences identity (should_send_message now case ids (pos d) s).0 ≤ 1
unfolding should_send_message
should_send-once now case identity ids d s =
    loop-once now d identity ids (last_sent_of (get case s))
