-- ===== src/Events/Hub/Terminal.antt =====
-- internal/runtime/events/hub.go: how an event reaches the subscribers, and the terminal event.
use simiclaw.Base.{
  ℕ, ◌≡◌, refl, ap, ◌∙◌, Bool, true, false, Option, none, some, List, [], ◌∷◌, ◌++◌, arith, ◌==◌,
  if◌then◌else◌, ◌⊎◌, inl, inr, Bool-cases,
}
use simiclaw.Base.Text.{is_empty}
use simiclaw.Base.Dict.{get, get-put_self}
use simiclaw.Model.{RuntimeEvent}
use simiclaw.Events.Subscription.{Subscription, enqueue, close}
use simiclaw.Events.Subscription.Delivery.{firm_pending, enqueue-firm_pending}
use simiclaw.Events.Hub.{
  EventState, Hub, update, deliver, dispatch, populate, publish_new, publish_found, publish_event,
  prune, ensure, store, with_pointer, policy_for_kind,
}

abbrev pub has_pointer : ℕ → List ℕ → Bool
has_pointer p [] = false
has_pointer p (q ∷ qs) = if q == p then true else has_pointer p qs

-- A set: no pointer twice.
abbrev pub IsDistinct : List ℕ → Type 0
IsDistinct [] = Unit
IsDistinct (p ∷ ps) = (has_pointer p ps ≡ false) × IsDistinct ps

with_pointer-has_pointer :
    (p q : ℕ) (ps : List ℕ)
    → has_pointer q (with_pointer p ps) ≡ (if p == q then true else has_pointer q ps)
with_pointer-has_pointer p q [] = refl
with_pointer-has_pointer p q (r ∷ ps) = ground (arith, with_pointer-has_pointer p q ps)

pub with_pointer-IsDistinct : (p : ℕ) (ps : List ℕ) → IsDistinct ps → IsDistinct (with_pointer p ps)
with_pointer-IsDistinct p [] d = (refl, tt)
with_pointer-IsDistinct p (r ∷ ps) d =
    ground (arith, with_pointer-has_pointer p r ps, with_pointer-IsDistinct p ps d.1)

-- `dispatch` hands the event once to each subscriber of a set of them, and leaves every other
-- subscription as it is.
pub dispatch_lem :
    (ps : List ℕ) (e : RuntimeEvent) (terminal droppable : Bool) (subs : ℕ → Subscription) (q : ℕ)
    → IsDistinct ps
    → dispatch ps e terminal droppable subs q
      ≡ (if has_pointer q ps then deliver e terminal droppable (subs q) else subs q)
unfolding dispatch
dispatch_lem [] e terminal droppable subs q d = refl
dispatch_lem (p ∷ ps) e terminal droppable subs q d = ground (
  arith,
  dispatch_lem ps e terminal droppable (update subs p (deliver e terminal droppable (subs p))) q
      d.1,
  d.0,
)

deliver_terminal :
    (e : RuntimeEvent) (droppable : Bool) (s : Subscription)
    → s.closed ≡ false
    → ((deliver e true droppable s).closed ≡ true)
      × (firm_pending (deliver e true droppable s)
          ≡ firm_pending s ++ record { event = e; droppable = false } ∷ [])
unfolding deliver close
deliver_terminal e droppable s c =
    let f = (enqueue-firm_pending e false s c).0 in
    let o : (enqueue e false s).0.closed ≡ false = unfold enqueue in ground arith in
    ground (arith, f, o)

-- The event as it is published, with its time and number.
abbrev pub published : EventState → RuntimeEvent → ℕ → RuntimeEvent
published s event now = (populate s event now).1

found_none :
    (h : Hub) (s : EventState) (o : Option RuntimeEvent) (event : RuntimeEvent) (terminal : Bool)
    (now : ℕ)
    → o ≡ none
    → publish_found h s o event terminal now ≡ publish_new h s event terminal now
found_none h s o event terminal now e = rw e

publish_event_first :
    (h : Hub) (event : RuntimeEvent) (now : ℕ)
    → is_empty event.event_id ≡ false
    → (ensure (prune now h) event.event_id now).terminal ≡ none
    → publish_event h event true now
      ≡ publish_new (prune now h) (ensure (prune now h) event.event_id now) event true now
unfolding publish_event
publish_event_first h event now named fresh = rw named (found_none _ _ _ event true now fresh)

populate-event_id :
    (s : EventState) (event : RuntimeEvent) (now : ℕ)
    → (published s event now).event_id ≡ event.event_id
unfolding populate
populate-event_id s event now = ground arith

prune-subs : (now : ℕ) (h : Hub) → (prune now h).subs ≡ h.subs
unfolding prune
prune-subs now h = refl

-- What the first terminal event of an id leaves: its entry, and the subscription of any pointer.
abbrev Leaves : Hub → EventState → RuntimeEvent → ℕ → Hub × RuntimeEvent → Type 0
Leaves h s event q r =
    (t : EventState) × (get event.event_id r.0.events ≡ some t)
    × (t.terminal ≡ some r.1)
    × (t.subscribers ≡ [])
    × (has_pointer q s.subscribers ≡ true
        → ((r.0.subs q).closed ≡ true)
          × (firm_pending (r.0.subs q)
              ≡ firm_pending (h.subs q) ++ record { event = r.1; droppable = false } ∷ []))
    × (has_pointer q s.subscribers ≡ false → r.0.subs q ≡ h.subs q)

dispatched :
    (s : EventState) (e : RuntimeEvent) (droppable : Bool) (subs : ℕ → Subscription) (q : ℕ)
    → IsDistinct s.subscribers
    → (b : Bool) → has_pointer q s.subscribers ≡ b
    → dispatch s.subscribers e true droppable subs q
      ≡ (if b then deliver e true droppable (subs q) else subs q)
dispatched s e droppable subs q d b h =
    dispatch_lem s.subscribers e true droppable subs q d
    ∙ ap (λ c. if c then deliver e true droppable (subs q) else subs q) h

publish_new_terminal :
    (h : Hub) (s : EventState) (event : RuntimeEvent) (now q : ℕ)
    → IsDistinct s.subscribers
    → (h.subs q).closed ≡ false
    → Leaves h s event q (publish_new h s event true now)
unfolding publish_new
publish_new_terminal h s event now q distinct open_ = (
  record (populate s event now).0 {
    updated_at = now;
    history = s.history;
    terminal = some e;
    subscribers = [];
  },
  rw (populate-event_id s event now) (get-put_self event.event_id _ h.events),
  refl,
  refl,
  λ member.
      let same = dispatched s e droppable h.subs q distinct true member in
      let sent = deliver_terminal e droppable (h.subs q) open_ in
      (ap (λ (u : Subscription). u.closed) same ∙ sent.0, ap firm_pending same ∙ sent.1),
  λ other. dispatched s e droppable h.subs q distinct false other,
)
  where
    e : RuntimeEvent
    e = published s event now

    droppable : Bool
    droppable = (policy_for_kind e.kind).queue_droppable

-- The first terminal event of an id: it is kept as the terminal one, with no subscribers left. A
-- subscription that was open is either among the subscribers, and then it is closed, with the event
-- behind all that it still has to read and may not lose, or not among them, and then it is just as
-- it was before.
pub publish_terminal_first :
    (h : Hub) (event : RuntimeEvent) (now : ℕ) (q : ℕ)
    → is_empty event.event_id ≡ false
    → (ensure (prune now h) event.event_id now).terminal ≡ none
    → IsDistinct (ensure (prune now h) event.event_id now).subscribers
    → (h.subs q).closed ≡ false
    → let s = ensure (prune now h) event.event_id now in
      let r = publish_event h event true now in
      (t : EventState) × (get event.event_id r.0.events ≡ some t)
      × (t.terminal ≡ some r.1)
      × (t.subscribers ≡ [])
      × (((has_pointer q s.subscribers ≡ true)
            × ((r.0.subs q).closed ≡ true)
            × (firm_pending (r.0.subs q)
                ≡ firm_pending (h.subs q) ++ record { event = r.1; droppable = false } ∷ []))
          ⊎ ((has_pointer q s.subscribers ≡ false) × (r.0.subs q ≡ h.subs q)))
unfolding prune
publish_terminal_first h event now q named fresh distinct open_ =
    rw (publish_event_first h event now named fresh) (
      let (t, found, kept, gone, member, other) =
        publish_new_terminal (prune now h) _ event now q distinct open_ in
      (
        t,
        found,
        kept,
        gone,
        elim (Bool-cases (has_pointer q (ensure (prune now h) event.event_id now).subscribers)) [
          | inl m ↦ inl (m, (member m).0, (member m).1)
          | inr o ↦ inr (o, other o)
        ],
      ))

found_some :
    (h : Hub) (s : EventState) (o : Option RuntimeEvent) (event first : RuntimeEvent) (now : ℕ)
    → o ≡ some first
    → publish_found h s o event true now ≡ (store event.event_id s h, first)
found_some h s o event first now e = rw e

-- Any later terminal event of the id, as long as the entry is kept, gets the first one back, and
-- changes neither the entry nor a subscription.
pub publish_terminal_again :
    (h : Hub) (event : RuntimeEvent) (now : ℕ) (s : EventState) (first : RuntimeEvent)
    → is_empty event.event_id ≡ false
    → get event.event_id (prune now h).events ≡ some s
    → s.terminal ≡ some first
    → let r = publish_event h event true now in
      (r.1 ≡ first) × (get event.event_id r.0.events ≡ some s) × (r.0.subs ≡ h.subs)
unfolding publish_event
publish_terminal_again h event now s first named found cached =
    let e = found_some (prune now h) s s.terminal event first now cached in
    rw (named, found)
      (
        ap (λ r. r.1) e,
        ap (λ r. get event.event_id r.0.events) e
            ∙ get-put_self event.event_id s (prune now h).events,
        ap (λ r. r.0.subs) e ∙ prune-subs now h,
      )
