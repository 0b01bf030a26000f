-- ===== src/Events/Subscription/Wakeup.antt =====
-- internal/runtime/events/hub.go: a reader that waits on `notify` is woken.
use simiclaw.Base.{◌≡◌, refl, Bool, true, false, [], arith, ◌⊎◌, ◌≢◌, List, ◌∷◌, sym}
use mathlib.Core.Path.{subst}
use simiclaw.Model.{RuntimeEvent}
use simiclaw.Events.Subscription.{QueuedEvent, Subscription, enqueue, close, Round, next_round}

-- Between two rounds of `Next`, after the unlock that leads to the `select`, or returned for good.
pub data Reader : Type 0 where
  looking waiting done : Reader

pub record State : Type 0 where
  pub sub : Subscription
  pub reader : Reader

abbrev pub after_round : Subscription → Round → State
after_round s (Round.got event t) = record { sub = t; reader = Reader.looking }
after_round s Round.ended = record { sub = s; reader = Reader.done }
after_round s Round.waits = record { sub = s; reader = Reader.waiting }

-- The hub and the reader in any interleaving.
pub data Step (v w : State) : Type 0 where
  enqueues :
      (event : RuntimeEvent) (droppable : Bool)
      → w ≡ record v { sub = (enqueue event droppable v.sub).0 }
      → Step v w
  closes : w ≡ record v { sub = close v.sub } → Step v w
  looks : v.reader ≡ Reader.looking → w ≡ after_round v.sub (next_round v.sub) → Step v w
  wakes :
      v.reader ≡ Reader.waiting
      → v.sub.notify ≡ true
      → w ≡ record v { sub = record (v.sub) { notify = false }; reader = Reader.looking }
      → Step v w

pub data Reach (v : State) : State → Type 0 where
  here : Reach v v
  next : {w u : State} → Reach v w → Step w u → Reach v u

abbrev HasNews : Subscription → Type 0
HasNews s = (s.pending ≢ []) ⊎ (s.closed ≡ true)

abbrev IsAwake : State → Type 0
IsAwake v =
    v.reader ≡ Reader.waiting
    → (v.sub.notify ≡ true) ⊎ ((v.sub.pending ≡ []) × (v.sub.closed ≡ false))

enqueue-notify :
    (event : RuntimeEvent) (droppable : Bool) (s : Subscription)
    → ((enqueue event droppable s).0 ≡ s) ⊎ ((enqueue event droppable s).0.notify ≡ true)
unfolding enqueue
enqueue-notify event droppable s = ground arith

round-IsAwake :
    (s : Subscription) (xs : List QueuedEvent)
    → s.pending ≡ xs
    → IsAwake (after_round s (next_round s))
unfolding next_round
round-IsAwake s [] e = ground arith
round-IsAwake s (q ∷ xs) e = ground arith

Step-IsAwake : (v w : State) → Step v w → IsAwake v → IsAwake w
Step-IsAwake v w (enqueues event droppable e) a =
    ground (arith, enqueue-notify event droppable v.sub)
Step-IsAwake v w (closes e) a = unfold close in ground arith
Step-IsAwake v w (looks r e) a = subst IsAwake (sym e) (round-IsAwake v.sub v.sub.pending refl)
Step-IsAwake v w (wakes r n e) a = ground arith

Reach-IsAwake : (v w : State) → Reach v w → IsAwake v → IsAwake w
Reach-IsAwake v w here a = a
Reach-IsAwake v w (next {w = u} r st) a = Step-IsAwake u w st (Reach-IsAwake v u r a)

-- No wake-up is lost: from a reader that is not waiting yet, in every state that the hub and the
-- reader reach in any interleaving, a reader that waits while an event is queued or the subscription
-- is closed finds a token in `notify`, and so can take its next step.
pub waiting_reader_wakes :
    (v w : State)
    → v.reader ≡ Reader.looking
    → Reach v w
    → w.reader ≡ Reader.waiting
    → HasNews w.sub
    → (u : State) × Step w u × (u.reader ≡ Reader.looking)
waiting_reader_wakes v w start r waits news =
    let a : IsAwake w = Reach-IsAwake v w r (λ e. cc) in
    let n : w.sub.notify ≡ true = ground (arith, a waits) in
    (
      record w { sub = record (w.sub) { notify = false }; reader = Reader.looking },
      wakes waits n refl,
      refl,
    )
