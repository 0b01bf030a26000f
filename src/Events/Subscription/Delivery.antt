-- ===== src/Events/Subscription/Delivery.antt =====
-- internal/runtime/events/hub.go: what a subscriber's queue keeps and what it drops.
use simiclaw.Base.{
  ℕ, suc, ◌≤◌, ◌<◌, ◌≡◌, refl, Bool, true, false, List, [], ◌∷◌, ◌++◌, arith, length, length-append,
  keep_if, keep_if-append, keep_if_idem, All, All-append, All-keep_if, leb, if◌then◌else◌, ◌⊎◌, inl,
  inr, Bool-cases, ltb, sym, ap, ◌∙◌,
}
use mathlib.Core.List.{append-nil, append_assoc}
use mathlib.Core.Path.{◌≡⟨◌⟩◌, ◌∎, ap₂}
use simiclaw.Model.{RuntimeEvent}
use simiclaw.Events.Subscription.{
  QueuedEvent, Subscription, firm, enqueue, close, Round, next_round,
}

-- The events that must not be lost.
abbrev pub firm_pending : Subscription → List QueuedEvent
firm_pending s = keep_if firm s.pending

abbrev pub offered : RuntimeEvent → Bool → List QueuedEvent
offered event droppable = if droppable then [] else record { event = event; droppable = false } ∷ []

-- On an open subscription an event that may not be dropped is queued behind all earlier such
-- events, and none of these is lost; an event that may be dropped does not change them. The result
-- says whether the event was queued: an event is refused only when it may be dropped and the queue
-- is full, or when the subscription is closed.
pub enqueue-firm_pending :
    (event : RuntimeEvent) (droppable : Bool) (s : Subscription)
    → s.closed ≡ false
    → (firm_pending (enqueue event droppable s).0 ≡ firm_pending s ++ offered event droppable)
      × ((enqueue event droppable s).1
          ≡ (if droppable then ltb (length s.pending) s.max_queued else true))
unfolding enqueue
enqueue-firm_pending event true s open_ = ground (
  arith,
  keep_if-append firm s.pending (record { event = event; droppable = true } ∷ []),
  append-nil (keep_if firm s.pending),
)
enqueue-firm_pending event false s open_ = ground (
  arith,
  keep_if-append firm s.pending (record { event = event; droppable = false } ∷ []),
  keep_if-append firm (keep_if firm s.pending) (record { event = event; droppable = false } ∷ []),
  keep_if_idem firm s.pending,
)

-- Only events that may not be dropped take a queue past its limit.
abbrev pub IsBounded : Subscription → Type 0
IsBounded s = (length s.pending ≤ s.max_queued) ⊎ All (λ q. firm q ≡ true) s.pending

Bounded-push :
    (q : QueuedEvent) (xs : List QueuedEvent) (max : ℕ)
    → length xs < max
    → length (xs ++ q ∷ []) ≤ max
Bounded-push q xs max h = omega (arith, length-append xs (q ∷ []))

pub enqueue-IsBounded :
    (event : RuntimeEvent) (droppable : Bool) (s : Subscription)
    → IsBounded s
    → IsBounded (enqueue event droppable s).0
unfolding enqueue
enqueue-IsBounded event true s b = elim (Bool-cases s.closed) [
  | inl c ↦ rw (c, enqueue) b
  | inr c ↦ elim (Bool-cases (leb s.max_queued (length s.pending))) [
    | inl full ↦ rw (c, full, enqueue) b
    | inr room ↦ rw (c, room, enqueue) (inl (Bounded-push _ s.pending s.max_queued (ground arith)))
  ]
]
enqueue-IsBounded event false s b = elim (Bool-cases s.closed) [
  | inl c ↦ rw (c, enqueue) b
  | inr c ↦ elim (Bool-cases (leb s.max_queued (length s.pending))) [
    | inl full ↦
        rw (c, full, enqueue)
          (inr (All-append _ (keep_if firm s.pending) _ (All-keep_if firm s.pending) (refl, tt)))
    | inr room ↦ rw (c, room, enqueue) (inl (Bounded-push _ s.pending s.max_queued (ground arith)))
  ]
]

-- What a round of `Next` leaves behind.
abbrev rest_of : Subscription → Round → Subscription
rest_of s (Round.got event t) = t
rest_of s Round.ended = s
rest_of s Round.waits = s

next_round-IsBounded :
    (s : Subscription) (xs : List QueuedEvent)
    → s.pending ≡ xs
    → IsBounded s
    → IsBounded (rest_of s (next_round s))
unfolding next_round
next_round-IsBounded s [] e b = ground arith
next_round-IsBounded s (q ∷ xs) e b =
    rw (e, next_round) (bounded_tail q xs s.max_queued (rw e at b))
  where
    bounded_tail :
        (q : QueuedEvent) (xs : List QueuedEvent) (max : ℕ)
        → (suc (length xs) ≤ max) ⊎ All (λ q. firm q ≡ true) (q ∷ xs)
        → (length xs ≤ max) ⊎ All (λ q. firm q ≡ true) xs
    bounded_tail q xs max (inl h) = inl (omega arith)
    bounded_tail q xs max (inr h) = inr h.1

-- A history of a subscription: the hub queues and closes, the reader takes.
pub data Call : Type 0 where
  enqueues : RuntimeEvent → Bool → Call
  closes : Call
  takes : Call

abbrev pub act : Call → Subscription → Subscription
act (enqueues event droppable) s = (enqueue event droppable s).0
act closes s = close s
act takes s = rest_of s (next_round s)

pub run : Subscription → List Call → Subscription
run s [] = s
run s (c ∷ cs) = run (act c s) cs

-- The reader's event, with the mark that it had in the queue.
abbrev got_by : List QueuedEvent → Round → List QueuedEvent
got_by (q ∷ rest) (Round.got event t) = record q { event = event } ∷ []
got_by _ _ = []

abbrev taken : Call → Subscription → List QueuedEvent
taken takes s = got_by s.pending (next_round s)
taken _ s = []

-- All that the reader got, in order.
pub received : Subscription → List Call → List QueuedEvent
received s [] = []
received s (c ∷ cs) = taken c s ++ received (act c s) cs

abbrev offer : Bool → Call → List QueuedEvent
offer false (enqueues event droppable) = offered event droppable
offer _ _ = []

abbrev closed_by : Bool → Call → Bool
closed_by b closes = true
closed_by b _ = b

-- The events that may not be dropped and that were offered before the close, in order.
pub offers : Bool → List Call → List QueuedEvent
offers closed [] = []
offers closed (c ∷ cs) = offer closed c ++ offers (closed_by closed c) cs

act-closed : (c : Call) (s : Subscription) → (act c s).closed ≡ closed_by s.closed c
unfolding enqueue close next_round
act-closed (enqueues event droppable) s = ground arith
act-closed closes s = ground arith
act-closed takes s = ground arith

enqueue_closed :
    (event : RuntimeEvent) (droppable : Bool) (s : Subscription)
    → s.closed ≡ true
    → (enqueue event droppable s).0 ≡ s
unfolding enqueue
enqueue_closed event droppable s c = ground arith

enqueues-firm :
    (event : RuntimeEvent) (droppable : Bool) (s : Subscription) (b : Bool)
    → s.closed ≡ b
    → firm_pending (enqueue event droppable s).0
      ≡ firm_pending s ++ offer b (enqueues event droppable)
enqueues-firm event droppable s true c =
    ap firm_pending (enqueue_closed event droppable s c) ∙ sym (append-nil (firm_pending s))
enqueues-firm event droppable s false c = (enqueue-firm_pending event droppable s c).0

takes-firm :
    (s : Subscription) (xs : List QueuedEvent) (b : Bool)
    → s.pending ≡ xs
    → keep_if firm (taken takes s) ++ firm_pending (act takes s) ≡ firm_pending s ++ offer b takes
unfolding next_round
takes-firm s [] b e = ground (arith, append-nil (firm_pending s))
takes-firm s (q ∷ xs) b e = ground (arith, append-nil (firm_pending s))

act-firm :
    (c : Call) (s : Subscription)
    → keep_if firm (taken c s) ++ firm_pending (act c s) ≡ firm_pending s ++ offer s.closed c
act-firm (enqueues event droppable) s = enqueues-firm event droppable s s.closed refl
act-firm closes s = unfold close in ground (arith, append-nil (firm_pending s))
act-firm takes s = takes-firm s s.pending s.closed refl

-- The reader gets every event that may not be dropped and was offered while the subscription was
-- open: what it got and what is still queued are, these events alone, what was queued at first
-- followed by what was offered, each once and in order.
pub received-offers :
    (s : Subscription) (cs : List Call)
    → keep_if firm (received s cs) ++ firm_pending (run s cs) ≡ firm_pending s ++ offers s.closed cs
unfolding received run offers
received-offers s [] = sym (append-nil (firm_pending s))
received-offers s (c ∷ cs) =
    let before = keep_if firm (taken c s) in
    let t = act c s in
    keep_if firm (taken c s ++ received t cs) ++ firm_pending (run t cs)
    ≡⟨ ap (λ l. l ++ firm_pending (run t cs)) (keep_if-append firm (taken c s) (received t cs)) ⟩
      (before ++ keep_if firm (received t cs)) ++ firm_pending (run t cs)
    ≡⟨ append_assoc before (keep_if firm (received t cs)) (firm_pending (run t cs)) ⟩
      before ++ (keep_if firm (received t cs) ++ firm_pending (run t cs))
    ≡⟨ ap (λ l. before ++ l) (received-offers t cs) ⟩
      before ++ (firm_pending t ++ offers t.closed cs)
    ≡⟨ sym (append_assoc before (firm_pending t) (offers t.closed cs)) ⟩
      (before ++ firm_pending t) ++ offers t.closed cs
    ≡⟨ ap₂ (λ l b. l ++ offers b cs) (act-firm c s) (act-closed c s) ⟩
      (firm_pending s ++ offer s.closed c) ++ offers (closed_by s.closed c) cs
    ≡⟨ append_assoc (firm_pending s) (offer s.closed c) (offers (closed_by s.closed c) cs) ⟩
      firm_pending s ++ offers s.closed (c ∷ cs) ∎

act-IsBounded : (c : Call) (s : Subscription) → IsBounded s → IsBounded (act c s)
act-IsBounded (enqueues event droppable) s b = enqueue-IsBounded event droppable s b
act-IsBounded closes s b = unfold close in ground arith
act-IsBounded takes s b = next_round-IsBounded s s.pending refl b

-- In every history a queue stands at or below its limit, or holds no event that may be dropped.
pub run-IsBounded : (s : Subscription) (cs : List Call) → IsBounded s → IsBounded (run s cs)
unfolding run
run-IsBounded s [] b = b
run-IsBounded s (c ∷ cs) b = run-IsBounded (act c s) cs (act-IsBounded c s b)
