-- ===== src/Worker/Proposals/Orderly.antt =====
-- The steps that only add to the queues and to the votes, and rules to put them together.
use mathlib.Core.List.{append_assoc, append-nil}
use validator_health_check.Prelude.{
  ℕ, ℤ, Bool, true, false, List, [], ◌++◌, Text, Run, done, panic, text_eq, int_eq, if◌then◌else◌,
  ◌≡◌, ◌∙◌, refl, sym, ap, subst,
}
use validator_health_check.Push.Message.{QueueMessage}
use validator_health_check.Push.Pusher.Enqueue.{IsKeyed, waiting}
use validator_health_check.Worker.Gov.{is_voted_gov_less_than}
use validator_health_check.Worker.State.{Services, M, pure, then_run, ◌>>=◌}
use validator_health_check.Worker.Steps.{Extends, Adds, IsAdditive, skip-IsAdditive}

-- The queues have grown at their ends, the pauses are as before, and what a validator has voted on
-- still counts.
pub record Follows (s s' : Services) : Type 0 where
  pub keyed : IsKeyed s'.pusher
  pub same_pauser : s'.pauser ≡ s.pauser
  pub votes_count :
      (valoper : Text) (proposal_id : ℕ)
      → is_voted_gov_less_than valoper proposal_id s.gov ≡ false
      → is_voted_gov_less_than valoper proposal_id s'.gov ≡ false
  pub grown :
      (id : ℤ) → (new : List QueueMessage) × (waiting id s'.pusher ≡ waiting id s.pusher ++ new)

-- The step does not panic, and leaves such a state.
abbrev pub Leaves : {A : Type 0} → Services → Run (A × Services) → Type 0
Leaves s panic = ⊥
Leaves s (done (a, s')) = Follows s s'

pub record IsOrderly {A : Type 0} (m : M A) : Type 0 where
  pub leaves : (s : Services) → IsKeyed s.pusher → Leaves s (m s)

pub Follows-refl : (s : Services) → IsKeyed s.pusher → Follows s s
Follows-refl s k = record {
  keyed = k;
  same_pauser = refl;
  votes_count = λ valoper proposal_id h. h;
  grown = λ id. ([], sym (append-nil (waiting id s.pusher)));
}

Follows-trans : (s s' s'' : Services) → Follows s s' → Follows s' s'' → Follows s s''
Follows-trans s s' s'' h k = record {
  keyed = k.keyed;
  same_pauser = k.same_pauser ∙ h.same_pauser;
  votes_count = λ valoper proposal_id e.
      k.votes_count valoper proposal_id (h.votes_count valoper proposal_id e);
  grown = λ id.
      let (new, e) = h.grown id in
      let (new', e') = k.grown id in
      (new ++ new', e' ∙ ap (λ q. q ++ new') e ∙ append_assoc (waiting id s.pusher) new new');
}

Follows-Extends : (s s' : Services) → IsKeyed s'.pusher → Extends s s' → Follows s s'
Follows-Extends s s' k h = record {
  keyed = k;
  same_pauser = h.same_pauser;
  votes_count = λ valoper proposal_id e.
      subst (λ g. is_voted_gov_less_than valoper proposal_id g ≡ false) (sym h.same_gov) e;
  grown = h.grown;
}

Leaves-Adds : {A : Type 0} (s : Services) (r : Run (A × Services)) → Adds s r → Leaves s r
Leaves-Adds s panic h = h
Leaves-Adds s (done (a, s')) (k, h) = Follows-Extends s s' k h

pub IsAdditive-IsOrderly : {A : Type 0} (m : M A) → IsAdditive m → IsOrderly m
IsAdditive-IsOrderly m h = record { leaves = λ s k. Leaves-Adds s (m s) (h.adds s k) }

Leaves-further :
    {A : Type 0} (s s' : Services) (r : Run (A × Services))
    → Follows s s'
    → Leaves s' r
    → Leaves s r
Leaves-further s s' panic h g = g
Leaves-further s s' (done (b, s'')) h g = Follows-trans s s' s'' h g

Leaves-then :
    {A : Type 0} {B : Type 0} (s : Services) (r : Run (A × Services)) (f : A → M B)
    → Leaves s r
    → ((a : A) → IsOrderly (f a))
    → Leaves s (then_run r f)
Leaves-then s panic f h next = h
Leaves-then s (done (a, s')) f h next = Leaves-further s s' (f a s') h ((next a).leaves s' h.keyed)

pub >>=-IsOrderly :
    {A : Type 0} {B : Type 0} (m : M A) (f : A → M B)
    → IsOrderly m
    → ((a : A) → IsOrderly (f a))
    → IsOrderly (m >>= f)
>>=-IsOrderly m f first next = record {
  leaves = λ s k. Leaves-then s (m s) f (first.leaves s k) next;
}

pub if-IsOrderly :
    {A : Type 0} (b : Bool) (m m' : M A)
    → IsOrderly m
    → IsOrderly m'
    → IsOrderly (if b then m else m')
if-IsOrderly true m m' h h' = h
if-IsOrderly false m m' h h' = h'

pub skip-IsOrderly : IsOrderly (pure {A = Unit {0}} tt)
skip-IsOrderly = IsAdditive-IsOrderly (pure {A = Unit {0}} tt) skip-IsAdditive

-- A step that leaves the pusher and the pauses alone, and keeps the votes.
pub changes-IsOrderly :
    {A : Type 0} (a : A) (f : Services → Services)
    → ((s : Services) → (f s).pusher ≡ s.pusher)
    → ((s : Services) → (f s).pauser ≡ s.pauser)
    → ((s : Services) (valoper : Text) (proposal_id : ℕ)
        → is_voted_gov_less_than valoper proposal_id s.gov ≡ false
        → is_voted_gov_less_than valoper proposal_id (f s).gov ≡ false)
    → IsOrderly (λ s. done (a, f s))
changes-IsOrderly a f pusher pauser votes = record {
  leaves = λ s k. record {
    keyed = subst IsKeyed (sym (pusher s)) k;
    same_pauser = pauser s;
    votes_count = votes s;
    grown = λ id. ([], ap (waiting id) (pusher s) ∙ sym (append-nil (waiting id s.pusher)));
  };
}
