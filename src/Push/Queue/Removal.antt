-- ===== src/Push/Queue/Removal.antt =====
-- What `DequeueMessagesWL` takes from the queue, and what it hands to its caller.
use validator_health_check.Prelude.{
  ℕ, zero, suc, ◌≤◌, ◌<◌, List, [], ◌∷◌, ◌++◌, length, leb, ltb, take, drop, arith, ◌≡◌, ◌≢◌, refl,
  ap, sym, subst, ◌∙◌, Time, length-drop, take-append-drop, Bool-cases, inl, inr, All,
}
use mathlib.Core.List.{append-nil, append_assoc, append_cancel_right}
use validator_health_check.Push.Message.{QueueMessage, maximum_telegram_message_length}
use validator_health_check.Push.Queue.Batch.{
  within_limit, within_limit-append-drop, combined, length-within_limit-lt, within_limit-long,
  within_limit-fits, combined-within_limit, within_limit-nil,
}
use validator_health_check.Push.Queue.{
  ReceiverBasedQueue, dequeue_messages, selected, unselected, put_back,
}

-- The messages that leave the queue.
abbrev pub sent_off : ℕ → ReceiverBasedQueue → List QueueMessage
sent_off size r = within_limit 0 0 (selected size r.enqueued_messages)

selected-unselected :
    (size : ℕ) (ms : List QueueMessage) → selected size ms ++ unselected size ms ≡ ms
unfolding selected unselected
selected-unselected size ms = elim (Bool-cases (leb (length ms) size)) [
  | inl e ↦ rw e (append-nil ms)
  | inr e ↦ rw e (take-append-drop size ms)
]

drop_all {ℓ} : {A : Type ℓ} (n : ℕ) (xs : List A) → length xs ≤ n → drop n xs ≡ []
drop_all zero [] h = refl
drop_all zero (x ∷ xs) h = absurd (omega arith)
drop_all (suc n) [] h = refl
drop_all (suc n) (x ∷ xs) h = drop_all n xs (omega arith)

take_all {ℓ} : {A : Type ℓ} (n : ℕ) (xs : List A) → length xs ≤ n → take n xs ≡ xs
take_all zero [] h = refl
take_all zero (x ∷ xs) h = absurd (omega arith)
take_all (suc n) [] h = refl
take_all (suc n) (x ∷ xs) h = ap (◌∷◌ x) (take_all n xs (omega arith))

put_back_lem :
    (kept result rest : List QueueMessage)
    → put_back kept result rest ≡ drop (length kept) result ++ rest
unfolding put_back
put_back_lem kept result rest = elim (Bool-cases (ltb (length kept) (length result))) [
  | inl e ↦ rw e
  | inr e ↦ rw (e, drop_all (length kept) result (ground arith))
]

selected-take : (size : ℕ) (ms : List QueueMessage) → selected size ms ≡ take size ms
unfolding selected
selected-take size ms = elim (Bool-cases (leb (length ms) size)) [
  | inl e ↦ rw e (sym (take_all size ms (ground arith)))
  | inr e ↦ rw e refl
]

dequeue-remains :
    (now : Time) (size : ℕ) (r : ReceiverBasedQueue)
    → sent_off size r ++ (dequeue_messages now size r).1.enqueued_messages ≡ r.enqueued_messages
unfolding dequeue_messages
dequeue-remains now size r =
    rw (put_back_lem, ← append_assoc, within_limit-append-drop)
      (selected-unselected size r.enqueued_messages)

pub dequeue-selected :
    (now : Time) (size : ℕ) (r : ReceiverBasedQueue)
    → (dequeue_messages now size r).0 ≡ selected size r.enqueued_messages
unfolding dequeue_messages
dequeue-selected now size r = refl

-- `DequeueMessagesWL` returns the first `size` messages of the queue, in order. It loses none: what
-- the length limit lets leave the queue is the beginning of what is returned, and followed by what
-- stays in the queue, it is what the queue held.
pub dequeue-conserves :
    (now : Time) (size : ℕ) (r : ReceiverBasedQueue)
    → ((dequeue_messages now size r).0 ≡ take size r.enqueued_messages)
      × ((repeated : List QueueMessage) × ((dequeue_messages now size r).0
            ≡ sent_off size r ++ repeated))
      × (sent_off size r ++ (dequeue_messages now size r).1.enqueued_messages ≡ r.enqueued_messages)
dequeue-conserves now size r = (
  dequeue-selected now size r ∙ selected-take size r.enqueued_messages,
  (
    drop (length (sent_off size r)) (selected size r.enqueued_messages),
    dequeue-selected now size r
        ∙ sym (within_limit-append-drop 0 0 (selected size r.enqueued_messages)),
  ),
  dequeue-remains now size r,
)

fits-rest :
    (size : ℕ) (r : ReceiverBasedQueue)
    → length (combined (take size r.enqueued_messages)) < maximum_telegram_message_length
    → sent_off size r ≡ take size r.enqueued_messages
fits-rest size r h =
    ap (within_limit 0 0) (selected-take size r.enqueued_messages)
    ∙ within_limit-fits (take size r.enqueued_messages) h

-- The messages that `DequeueMessagesWL` removes from the queue, joined by the divider, are shorter than
-- telegram's limit. When those that it returns are so when joined, it removes exactly these.
pub dequeue-within_limit :
    (now : Time) (size : ℕ) (r : ReceiverBasedQueue) (removed : List QueueMessage)
    → removed ++ (dequeue_messages now size r).1.enqueued_messages ≡ r.enqueued_messages
    → (length (combined removed) < maximum_telegram_message_length)
      × (length (combined (dequeue_messages now size r).0) < maximum_telegram_message_length
          → removed ≡ (dequeue_messages now size r).0)
dequeue-within_limit now size r removed e = (
  subst (λ ms. length (combined ms) < maximum_telegram_message_length) (sym same)
      (combined-within_limit (selected size r.enqueued_messages)),
  λ h.
      same
      ∙ fits-rest size r
          (subst (λ ms. length (combined ms) < maximum_telegram_message_length) returned h)
      ∙ sym returned,
)
  where
    returned : (dequeue_messages now size r).0 ≡ take size r.enqueued_messages
    returned = dequeue-selected now size r ∙ selected-take size r.enqueued_messages

    same : removed ≡ sent_off size r
    same =
        append_cancel_right removed (sent_off size r)
          (dequeue_messages now size r).1.enqueued_messages (e ∙ sym (dequeue-remains now size r))

-- Once the selected messages joined by the divider reach the length limit, `DequeueMessagesWL`
-- returns messages that it also leaves in front of the queue.
pub dequeue-duplicates :
    (now : Time) (size : ℕ) (r : ReceiverBasedQueue)
    → maximum_telegram_message_length ≤ length (combined (selected size r.enqueued_messages))
    → (twice : List QueueMessage) × (twice ≢ [])
      × ((dequeue_messages now size r).0 ≡ sent_off size r ++ twice)
      × ((dequeue_messages now size r).1.enqueued_messages
          ≡ twice ++ unselected size r.enqueued_messages)
unfolding dequeue_messages
dequeue-duplicates now size r h = (
  twice,
  (λ e. absurd (omega (arith, ap length e, longer, length-drop (length (sent_off size r)) result))),
  sym (within_limit-append-drop 0 0 result),
  put_back_lem (sent_off size r) result (unselected size r.enqueued_messages),
)
  where
    result : List QueueMessage
    result = selected size r.enqueued_messages

    twice : List QueueMessage
    twice = drop (length (sent_off size r)) result

    longer : length (sent_off size r) < length result
    longer = length-within_limit-lt result h

sent_off-long :
    (size : ℕ) (m : QueueMessage) (ms : List QueueMessage)
    → maximum_telegram_message_length ≤ length m.message
    → within_limit 0 0 (selected size (m ∷ ms)) ≡ []
unfolding selected
sent_off-long zero m ms h = ground (arith, within_limit-nil 0 0)
sent_off-long (suc n) m ms h =
    ground (arith, within_limit-long m ms h, within_limit-long m (take n ms) h)

-- A message as long as the limit at the head blocks its queue: every call returns it, with what
-- `size` selects, and takes nothing from the queue.
pub dequeue-blocked :
    (now : Time) (size : ℕ) (r : ReceiverBasedQueue) (m : QueueMessage) (ms : List QueueMessage)
    → r.enqueued_messages ≡ m ∷ ms
    → maximum_telegram_message_length ≤ length m.message
    → ((dequeue_messages now size r).1.enqueued_messages ≡ m ∷ ms)
      × ((dequeue_messages now size r).0 ≡ selected size (m ∷ ms))
dequeue-blocked now size r m ms e h = (
  nothing (sent_off size r) _ (dequeue-remains now size r) (rw e (sent_off-long size m ms h)) ∙ e,
  dequeue-selected now size r ∙ ap (selected size) e,
)
  where
    nothing :
        (xs ys : List QueueMessage)
        → xs ++ ys ≡ r.enqueued_messages
        → xs ≡ []
        → ys ≡ r.enqueued_messages
    nothing xs ys p q = rw q at p

All-take {ℓ κ} : {A : Type ℓ} (P : A → Type κ) (n : ℕ) (xs : List A) → All P xs → All P (take n xs)
All-take P zero xs h = tt
All-take P (suc n) [] h = tt
All-take P (suc n) (x ∷ xs) h = (h.0, All-take P n xs h.1)

-- A property of all waiting messages is one of all that are handed out.
pub dequeue-All {κ} :
    (P : QueueMessage → Type κ) (now : Time) (size : ℕ) (r : ReceiverBasedQueue)
    → All P r.enqueued_messages
    → All P (dequeue_messages now size r).0
unfolding dequeue_messages
dequeue-All P now size r h = elim (Bool-cases (leb (length r.enqueued_messages) size)) [
  | inl e ↦ rw e h
  | inr e ↦ rw e (All-take P size r.enqueued_messages h)
]
