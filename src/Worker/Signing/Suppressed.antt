-- ===== src/Worker/Signing/Suppressed.antt =====
-- What a watcher of two validators is not told.
use validator_health_check.Prelude.{
  ℕ, suc, ◌+◌, ◌≤◌, ◌<◌, Bool, true, false, List, [], ◌∷◌, Option, none, Text, hours, pos, Run,
  done, panic, any, text_eq, ==_refl, arith, ◌≡◌, ◌∙◌, refl, Bool-cases, inl, inr,
}
use validator_health_check.Push.Pusher.{TelegramPusher}
use validator_health_check.Push.Pusher.Enqueue.{IsKeyed}
use validator_health_check.Push.Spam.{
  PreventSpammingCase, tome_stoned, PreventSpamming, should_send_message, is_recent,
}
use validator_health_check.Push.Spam.Spacing.{
  is_listed, last_sent, should_send-listed, Call, call, calls, sends_spaced,
}
use validator_health_check.Worker.Messages.Fatal.{HaveTelegram}
use validator_health_check.Worker.Outside.{World, SigningInfo, SlashingParams}
use validator_health_check.Worker.Cache.{CacheValidatorHealthCheck}
use validator_health_check.Worker.State.{
  Services, M, pure, then_run, ticked, next_tick, read_clock, on_pusher, Channel, tell, tell_any,
  should_send, tell_unless_recent,
}
use validator_health_check.Worker.Steps.{Adds, tell_unless_recent-IsAdditive}
use validator_health_check.Worker.Signing.{Checked, check_signing_info}

-- The step does not panic and leaves the queues as they were.
abbrev pub IsQuiet : {A : Type 0} → Services → Run (A × Services) → Type 0
IsQuiet s panic = ⊥
IsQuiet s (done (a, s')) = s'.pusher ≡ s.pusher

-- After the first step, which does not panic, the second one tells nobody.
abbrev pub IsFollowedQuietly : {A B : Type 0} → Run (A × Services) → M B → Type 0
IsFollowedQuietly panic m = ⊥
IsFollowedQuietly (done (a, s)) m = IsQuiet s (m s)

nobody_listed : (xs : List Text) → ((i : Text) → is_listed i xs ≡ false) → xs ≡ []
unfolding any
nobody_listed [] h = refl
nobody_listed (x ∷ xs) h = ground (arith, h x, ==_refl x)

-- What a step leaves in the register of sent messages, soon after it began.
abbrev Notes : PreventSpamming → ℕ → Run (Unit {0} × Services) → Type 0
Notes spam t panic = Unit
Notes spam t (done (a, s)) = (s.spam ≡ spam) × (s.tick ≤ t)

on_pusher-Notes :
    (r : Run TelegramPusher) (s : Services) (t : ℕ) → s.tick ≤ t → Notes s.spam t (on_pusher r s)
on_pusher-Notes panic s t le = tt
on_pusher-Notes (done tp) s t le = (refl, le)

module _ (w : World) where
  tell_any-Notes :
      (c : Channel) (v m : Text) (fatal : Bool) (to : List Text) (s : Services)
      → Notes s.spam (suc s.tick) (tell_any w c v m fatal to s)
  unfolding tell read_clock next_tick
  tell_any-Notes c v m fatal [] s = (refl, omega arith)
  tell_any-Notes c v m fatal (i ∷ is) s = on_pusher-Notes _ (ticked s) (suc s.tick) (omega arith)

  -- The call of `ShouldSendMessageWL` in a step.
  abbrev call_at : Services → PreventSpammingCase → List Text → ℕ → Call
  call_at s case watchers d = record {
    now = w.clock s.tick;
    case = case;
    identities = watchers;
    interval = pos d;
  }

  tell_unless-Notes :
      (c : Channel) (case : PreventSpammingCase) (watchers : List Text) (d : ℕ) (v m : Text)
      (fatal : Bool) (s : Services)
      → Notes
          (call (call_at s case watchers d) s.spam).1
          (s.tick + 2)
          (tell_unless_recent w c case watchers (pos d) v m fatal s)
  unfolding tell_unless_recent should_send read_clock next_tick
  tell_unless-Notes c case watchers d v m fatal s = later _ (
      tell_any-Notes c v m fatal (call (call_at s case watchers d) s.spam).0
        (record (ticked s) { spam = (call (call_at s case watchers d) s.spam).1 }))
    where
      later :
          (r : Run (Unit {0} × Services))
          → Notes (call (call_at s case watchers d) s.spam).1 (suc (suc s.tick)) r
          → Notes (call (call_at s case watchers d) s.spam).1 (s.tick + 2) r
      later panic h = h
      later (done (a, s')) h = (h.0, omega arith)

  -- A step that picks nobody.
  tell_nobody :
      (c : Channel) (case : PreventSpammingCase) (watchers : List Text) (d : ℕ) (v m : Text)
      (fatal : Bool) (s : Services)
      → (call (call_at s case watchers d) s.spam).0 ≡ []
      → IsQuiet s (tell_unless_recent w c case watchers (pos d) v m fatal s)
  unfolding tell_unless_recent should_send read_clock next_tick
  tell_nobody c case watchers d v m fatal s e = rw e refl

  -- Those who were picked before are not picked soon after.
  nobody_again :
      (case : PreventSpammingCase) (watchers watchers' : List Text) (d : ℕ) (s s' : Services)
      → ((i : Text) → is_listed i watchers' ≡ true → is_listed i watchers ≡ true)
      → ((i : Text) → is_listed i watchers ≡ true → last_sent case i s.spam ≡ none)
      → s'.spam ≡ (call (call_at s case watchers d) s.spam).1
      → w.clock s'.tick < w.clock s.tick + d
      → (call (call_at s' case watchers' d) s'.spam).0 ≡ []
  unfolding is_recent calls should_send_message
  nobody_again case watchers watchers' d s s' shared fresh e soon = nobody_listed _ λ i.
      elim (Bool-cases (is_listed i watchers')) [
        | inl here ↦ rw e (
            sends_spaced (call_at s case watchers d) (call_at s' case watchers' d) [] d i s.spam
              (picked i (shared i here)) tt refl refl soon)
        | inr away ↦
            should_send-listed (w.clock s'.tick) case i watchers' (pos d) s'.spam ∙ rw away refl
      ]
    where
      picked :
          (i : Text)
          → is_listed i watchers ≡ true
          → is_listed i (call (call_at s case watchers d) s.spam).0 ≡ true
      picked i here =
          should_send-listed (w.clock s.tick) case i watchers (pos d) s.spam
          ∙ rw (here, fresh i here) refl

  IsQuiet-then :
      {A : Type 0} (s : Services) (r : Run (Unit {0} × Services)) (a : A)
      → IsQuiet s r
      → IsQuiet s (then_run r λ _. pure a)
  IsQuiet-then s panic a h = h
  IsQuiet-then s (done (u, s')) a h = h

  follows :
      {A B : Type 0} (a : A) (m : M B) (s : Services) (t : ℕ) (spam : PreventSpamming)
      (r : Run (Unit {0} × Services))
      → Adds s r
      → Notes spam t r
      → ((s' : Services) → s'.spam ≡ spam → s'.tick ≤ t → IsQuiet s' (m s'))
      → IsFollowedQuietly (then_run r λ _. pure a) m
  follows a m s t spam panic no_panic h next = absurd no_panic
  follows a m s t spam (done (u, s')) no_panic h next = next s' h.0 h.1

  -- A tombstoned validator is checked, whose watchers have not been told of a tombstoned validator
  -- before, and within an hour another one that some of them watch as well, and nobody else: then of
  -- the second nobody is told. The case of a message is remembered for each watcher, and not for
  -- each validator.
  pub second_tombstoned-IsFollowedQuietly :
      (k k' : Checked) (info info' : SigningInfo) (p p' : Option SlashingParams)
      (cache cache' : CacheValidatorHealthCheck) (s : Services)
      → info.tombstoned ≡ true
      → info'.tombstoned ≡ true
      → HaveTelegram k.channel.records
      → IsKeyed s.pusher
      → ((i : Text)
          → is_listed i k'.validator.watchers_identity ≡ true
          → is_listed i k.validator.watchers_identity ≡ true)
      → ((i : Text)
          → is_listed i k.validator.watchers_identity ≡ true
          → last_sent tome_stoned i s.spam ≡ none)
      → ((t : ℕ) → t ≤ s.tick + 2 → w.clock t < w.clock s.tick + hours 1)
      → IsFollowedQuietly
          (check_signing_info w k info p cache s)
          (check_signing_info w k' info' p' cache')
  unfolding check_signing_info
  second_tombstoned-IsFollowedQuietly k k' info info' p p' cache cache' s first second have keyed
        shared fresh soon =
      rw (first, second)
        (follows _ _ s (s.tick + 2)
          (call (call_at s tome_stoned k.validator.watchers_identity (hours 1)) s.spam).1 _
          ((tell_unless_recent-IsAdditive w k.channel have _ _ _ _ _ _).adds s keyed)
          (tell_unless-Notes k.channel tome_stoned k.validator.watchers_identity (hours 1) _ _ _ s)
          λ s' noted early. IsQuiet-then s' _ _ (
            tell_nobody k'.channel tome_stoned k'.validator.watchers_identity (hours 1) _ _ _ s' (
              nobody_again tome_stoned k.validator.watchers_identity k'.validator.watchers_identity
                (hours 1) s s' shared fresh noted (soon s'.tick early))))
