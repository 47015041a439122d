-- ===== src/Push/Pusher/Choice.antt =====
-- Which queue a turn of the pusher empties.
use validator_health_check.Prelude.{
  ℤ, Bool, true, false, List, [], ◌∷◌, ◌++◌, Option, none, some, Map, get, Time, any, int_eq,
  if◌then◌else◌, arith, ◌≡◌, refl, ap, ◌∙◌, inl, inr, Bool-cases,
}
use validator_health_check.Push.Queue.{ReceiverBasedQueue}
use validator_health_check.Push.Pusher.{TelegramPusher, is_ready, choose_queue, get_all_queues}

module _ (now : Time) (queues : Map ℤ ReceiverBasedQueue) where
  -- The queue has messages, and its last change is a minute ago at least.
  abbrev pub ready : ℤ → Bool
  ready id = is_ready now (get id queues)

  -- The last ready queue of the list, if there is one.
  pub data LastReady (ids : List ℤ) : Option ℤ → Type 0 where
    nothing_ready : any ready ids ≡ false → LastReady ids none
    last_is :
        (before : List ℤ) (id : ℤ) (after : List ℤ)
        → ids ≡ before ++ id ∷ after
        → ready id ≡ true
        → any ready after ≡ false
        → LastReady ids (some id)

  choose-idle :
      (ids : List ℤ) (current : Option ℤ)
      → any ready ids ≡ false
      → choose_queue now queues ids current ≡ current
  unfolding choose_queue any
  choose-idle [] current h = refl
  choose-idle (x ∷ ids) current h = ground (arith, choose-idle ids current)

  choose-current :
      (ids : List ℤ) (current other : Option ℤ)
      → any ready ids ≡ true
      → choose_queue now queues ids current ≡ choose_queue now queues ids other
  unfolding choose_queue any
  choose-current [] current other h = cc
  choose-current (x ∷ ids) current other h = elim (Bool-cases (ready x)) [
    | inl e ↦ rw e refl
    | inr e ↦ rw e (choose-current ids current other (ground arith))
  ]

  LastReady-later :
      (x : ℤ) (ids : List ℤ) (chosen : Option ℤ)
      → any ready ids ≡ true
      → LastReady ids chosen
      → LastReady (x ∷ ids) chosen
  LastReady-later x ids chosen some_ready (nothing_ready h) = absurd (neither some_ready h)
    where
      neither : any ready ids ≡ true → any ready ids ≡ false → ⊥
      neither a b = cc
  LastReady-later x ids chosen some_ready (last_is before id after e r h) =
      last_is (x ∷ before) id after (ap (◌∷◌ x) e) r h

  LastReady-here :
      (x : ℤ) (ids : List ℤ)
      → any ready ids ≡ false
      → LastReady (x ∷ ids) (if ready x then some x else none)
  unfolding any
  LastReady-here x ids h = elim (Bool-cases (ready x)) [
    | inl e ↦ rw e (last_is [] x ids refl e h)
    | inr e ↦ rw e (nothing_ready (rw e h))
  ]

  choose-cons :
      (x : ℤ) (ids : List ℤ)
      → choose_queue now queues (x ∷ ids) none
        ≡ choose_queue now queues ids (if ready x then some x else none)
  unfolding choose_queue
  choose-cons x ids = refl

  -- The loop leaves in `firstNonEmptyQueue` the last of the ready queues, and nothing if none is
  -- ready.
  pub choose-LastReady : (ids : List ℤ) → LastReady ids (choose_queue now queues ids none)
  choose-LastReady [] = unfold choose_queue any in nothing_ready refl
  choose-LastReady (x ∷ ids) = elim (Bool-cases (any ready ids)) [
    | inl e ↦
        rw (choose-cons, choose-current ids _ none e)
          (LastReady-later x ids _ e (choose-LastReady ids))
    | inr e ↦ rw (choose-cons, choose-idle ids _ e) (LastReady-here x ids e)
  ]

  choose-append :
      (xs ys : List ℤ) (current : Option ℤ)
      → choose_queue now queues (xs ++ ys) current
        ≡ choose_queue now queues ys (choose_queue now queues xs current)
  unfolding choose_queue
  choose-append [] ys current = refl
  choose-append (x ∷ xs) ys current = choose-append xs ys _

-- As long as the queue of some user without priority is ready, the turn takes one of those, the same
-- that it would take if there were no queue with priority.
pub priority_waits :
    (now : Time) (tp : TelegramPusher)
    → any (ready now tp.queues_receiver_based) tp.non_priority_queue ≡ true
    → choose_queue now tp.queues_receiver_based (get_all_queues tp) none
      ≡ choose_queue now tp.queues_receiver_based tp.non_priority_queue none
unfolding get_all_queues
priority_waits now tp h =
    choose-append now tp.queues_receiver_based tp.priority_queue tp.non_priority_queue none
    ∙ choose-current now tp.queues_receiver_based tp.non_priority_queue _ none h
