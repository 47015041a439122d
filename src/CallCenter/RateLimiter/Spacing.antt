-- ===== src/CallCenter/RateLimiter/Spacing.antt =====
-- The requests that are allowed to one key are at least the interval apart.
use validator_health_check.Prelude.{
  ℕ, ◌+◌, ◌≤◌, ◌<◌, Bool, true, false, List, [], ◌∷◌, Option, none, some, Text, get, get-put, Time,
  Duration, pos, since-lt, text_eq, ==_refl, arith, ◌≡◌, refl,
}
use validator_health_check.CallCenter.RateLimiter.{RateLimiter, request, is_too_soon}

-- A request, with the instant at which it is made.
pub record Request : Type 0 where
  pub now : Time
  pub key : Text
  pub interval : Duration

abbrev pub ask : Request → RateLimiter → Bool × RateLimiter
ask q = request q.now q.key q.interval

unfoldable pub asks : List Request → RateLimiter → RateLimiter
asks [] r = r
asks (q ∷ qs) r = asks qs (ask q r).1

-- Every request is made at `t` or later.
abbrev pub AllFrom : Time → List Request → Type 0
AllFrom t [] = Unit
AllFrom t (q ∷ qs) = (t ≤ q.now) × AllFrom t qs

abbrev NotBefore : Time → Option Time → Type 0
NotBefore t none = ⊥
NotBefore t (some u) = t ≤ u

ask-NotBefore :
    (t : Time) (key : Text) (q : Request) (r : RateLimiter)
    → t ≤ q.now
    → NotBefore t (get key r)
    → NotBefore t (get key (ask q r).1)
unfolding request
ask-NotBefore t key q r le h = ground (arith, get-put q.key key q.now r)

asks-NotBefore :
    (t : Time) (key : Text) (qs : List Request) (r : RateLimiter)
    → AllFrom t qs
    → NotBefore t (get key r)
    → NotBefore t (get key (asks qs r))
unfolding asks
asks-NotBefore t key [] r from h = h
asks-NotBefore t key (q ∷ qs) r from h =
    asks-NotBefore t key qs (ask q r).1 from.1 (ask-NotBefore t key q r from.0 h)

ask-records :
    (q : Request) (r : RateLimiter) → (ask q r).0 ≡ true → NotBefore q.now (get q.key (ask q r).1)
unfolding request
ask-records q r h = ground (arith, get-put q.key q.key q.now r, ==_refl q.key)

too_soon_of_NotBefore :
    (t now d : ℕ) (o : Option Time) → now < t + d → NotBefore t o → is_too_soon now (pos d) o ≡ true
too_soon_of_NotBefore t now d none lt h = absurd h
too_soon_of_NotBefore t now d (some u) lt h = since-lt now u d (omega arith)

-- After a request of a key has been allowed, one of the same key whose interval has not passed since
-- then is refused and changes nothing, whatever requests were made in between.
pub requests_spaced :
    (first last : Request) (between : List Request) (d : ℕ) (r : RateLimiter)
    → (ask first r).0 ≡ true
    → AllFrom first.now between
    → last.key ≡ first.key
    → last.interval ≡ pos d
    → last.now < first.now + d
    → ask last (asks between (ask first r).1) ≡ (false, asks between (ask first r).1)
unfolding request
requests_spaced first last between d r allowed from same interval soon =
    rw
      (
        same,
        interval,
        too_soon_of_NotBefore first.now last.now d (get first.key (asks between (ask first r).1))
            soon
            (asks-NotBefore first.now first.key between (ask first r).1 from
              (ask-records first r allowed)),
      )
      refl
