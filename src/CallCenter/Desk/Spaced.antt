-- ===== src/CallCenter/Desk/Spaced.antt =====
-- How often a user is served.
use validator_health_check.Prelude.{
  ◌+◌, ◌≤◌, ◌<◌, Bool, true, false, List, [], ◌∷◌, Option, none, some, is_some, Text, Time, pos,
  seconds, SortSlice, Run, done, panic, if◌then◌else◌, ◌≡◌, refl, sym, ap, subst, text_eq,
}
use validator_health_check.Registry.Chains.{RegisteredChainConfig}
use validator_health_check.Push.Silencer.{SilenceError}
use validator_health_check.CallCenter.RateLimiter.{RateLimiter}
use validator_health_check.CallCenter.RateLimiter.Spacing.{
  Request, ask, asks, AllFrom, requests_spaced,
}
use validator_health_check.CallCenter.Context.{TelegramUpdateCtx, TimeFormat, Center}
use validator_health_check.CallCenter.Answers.{AnswerFormat}
use validator_health_check.CallCenter.Desk.{
  Update, Books, Answer, sender, serve, serve_allowed, process_update,
}

-- An update, with the instant at which it is processed and what it meets there.
pub record Turn : Type 0 where
  pub now : Time
  pub books : Books
  pub center : Center
  pub update : Update

abbrev pub from_known : Turn → Bool
from_known t = is_some (sender t.books.users t.update)

-- Every turn is at `t` or later.
abbrev pub TurnsFrom : Time → List Turn → Type 0
TurnsFrom t [] = Unit
TurnsFrom t (u ∷ us) = (t ≤ u.now) × TurnsFrom t us

-- There is an answer, and nothing has changed.
abbrev pub LeavesAll : Center → RateLimiter → Run Answer × RateLimiter → Type 0
LeavesAll w r (panic, r') = ⊥
LeavesAll w r (done a, r') = (a.center ≡ w) × (r' ≡ r)

module _ (tf : TimeFormat) (f : AnswerFormat) (sorter : SortSlice RegisteredChainConfig)
    (error_text : SilenceError → Text) where
  abbrev pub take_turn : Turn → RateLimiter → Run Answer × RateLimiter
  take_turn t r = process_update tf f sorter error_text t.now t.books t.update t.center r

  -- The turns one after the other, whatever comes of each.
  unfoldable pub take_turns : List Turn → RateLimiter → RateLimiter
  take_turns [] r = r
  take_turns (t ∷ ts) r = take_turns ts (take_turn t r).1

  -- What the turn asks of the rate limiter.
  abbrev pub request_of : Turn → Request
  request_of t = record {
    now = t.now;
    key = f.print_int t.update.user_id;
    interval = pos (seconds 3);
  }

  abbrev requests_of : List Turn → List Request
  requests_of [] = []
  requests_of (t ∷ ts) = if from_known t then request_of t ∷ requests_of ts else requests_of ts

  serve-asks :
      (t : Turn) (o : Option TelegramUpdateCtx) (r : RateLimiter)
      → (serve tf f sorter error_text t.now t.books t.update o t.center r).1
        ≡ (if is_some o then (ask (request_of t) r).1 else r)
  serve-asks t none r = refl
  serve-asks t (some ctx) r = refl

  turns-asks : (ts : List Turn) (r : RateLimiter) → take_turns ts r ≡ asks (requests_of ts) r
  unfolding take_turns process_update asks
  turns-asks [] r = refl
  turns-asks (t ∷ ts) r = go (turns-asks ts) (sender t.books.users t.update)
    where
      go :
          ((r' : RateLimiter) → take_turns ts r' ≡ asks (requests_of ts) r')
          → (o : Option TelegramUpdateCtx)
          → take_turns ts (serve tf f sorter error_text t.now t.books t.update o t.center r).1
            ≡ asks (if is_some o then request_of t ∷ requests_of ts else requests_of ts) r
      go later none = later r
      go later (some ctx) = later (ask (request_of t) r).1

  requests-from : (t : Time) (ts : List Turn) → TurnsFrom t ts → AllFrom t (requests_of ts)
  requests-from t [] h = tt
  requests-from t (u ∷ us) (le, h) = go (requests-from t us h) (from_known u)
    where
      go :
          AllFrom t (requests_of us)
          → (known : Bool)
          → AllFrom t (if known then request_of u ∷ requests_of us else requests_of us)
      go later true = (le, later)
      go later false = later

  refused-LeavesAll :
      (t : Turn) (o : Option TelegramUpdateCtx) (r : RateLimiter)
      → ask (request_of t) r ≡ (false, r)
      → LeavesAll t.center r (serve tf f sorter error_text t.now t.books t.update o t.center r)
  refused-LeavesAll t none r h = (refl, refl)
  refused-LeavesAll t (some ctx) r h =
      subst
        (λ a.
          LeavesAll t.center r
            (serve_allowed tf f sorter error_text t.now t.books t.update ctx t.center a))
        (sym h) (refl, refl)

  -- When a known user has passed the rate limiter, whatever comes in between, an update of the same
  -- user less than three seconds later is answered without a change.
  pub updates_spaced :
      (first last : Turn) (between : List Turn) (r : RateLimiter)
      → from_known first ≡ true
      → (ask (request_of first) r).0 ≡ true
      → TurnsFrom first.now between
      → last.update.user_id ≡ first.update.user_id
      → last.now < first.now + seconds 3
      → (let r' = take_turns between (take_turn first r).1 in
          LeavesAll last.center r' (take_turn last r'))
  unfolding process_update
  updates_spaced first last between r known allowed from same soon =
      refused-LeavesAll last (sender last.books.users last.update)
        (take_turns between (take_turn first r).1) refused
    where
      noted : (take_turn first r).1 ≡ (ask (request_of first) r).1
      noted = rw (serve-asks first (sender first.books.users first.update) r, known) refl

      refused :
          ask (request_of last) (take_turns between (take_turn first r).1)
          ≡ (false, take_turns between (take_turn first r).1)
      refused =
          rw (noted, turns-asks between (ask (request_of first) r).1)
            (requests_spaced (request_of first) (request_of last) (requests_of between) (seconds 3)
              r allowed (requests-from first.now between from) (ap f.print_int same) refl soon)
