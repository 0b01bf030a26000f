-- ===== src/Events/Subscription.antt =====
-- internal/runtime/events/hub.go: a subscriber's queue.
pub mod Delivery
pub mod Wakeup
use simiclaw.Base.{
  ℕ, String, Bool, true, false, not, List, [], ◌∷◌, ◌++◌, length, keep_if, leb, if◌then◌else◌,
}
use simiclaw.Model.{RuntimeEvent}

pub record QueuedEvent : Type 0 where
  pub event : RuntimeEvent
  pub droppable : Bool

-- `notify` is a channel of capacity one: whether it holds a token.
pub record Subscription : Type 0 where
  pub pending : List QueuedEvent
  pub notify : Bool
  pub closed : Bool
  pub event_id : String
  pub max_queued : ℕ

abbrev pub firm : QueuedEvent → Bool
firm q = not q.droppable

push : QueuedEvent → List QueuedEvent → Subscription → Subscription
push q pending s = record s { pending = pending ++ q ∷ []; notify = true }

unfoldable pub enqueue : RuntimeEvent → Bool → Subscription → Subscription × Bool
unfolding push
enqueue event droppable s =
    let q : QueuedEvent = record { event = event; droppable = droppable } in
    if s.closed
    then (s, false)
    else if leb s.max_queued (length s.pending)
    then (if droppable then (s, false) else (push q (keep_if firm s.pending) s, true))
    else (push q s.pending s, true)

unfoldable pub close : Subscription → Subscription
close s = if s.closed then s else record s { closed = true; notify = true }

-- One round of the loop of `Next` under the lock.
pub data Round : Type 0 where
  got : RuntimeEvent → Subscription → Round
  ended : Round
  waits : Round

take_first : List QueuedEvent → Subscription → Round
take_first (q ∷ rest) s = Round.got q.event (record s { pending = rest })
take_first [] s = if s.closed then Round.ended else Round.waits

unfoldable pub next_round : Subscription → Round
unfolding take_first
next_round s = take_first s.pending s
