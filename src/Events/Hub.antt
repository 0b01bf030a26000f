-- ===== src/Events/Hub.antt =====
-- internal/runtime/events/hub.go: the hub. A pointer to a subscription is its index in `subs`; a
-- pointer that may be nil is an `Option`. Each method holds the mutex from start to end, so that it
-- is one step; the clock's readings are arguments. Sequence numbers do not wrap.
pub mod History
pub mod Sequence
pub mod Terminal
use Prim.Native.Nat.{pred}
use simiclaw.Base.{
  ℕ, suc, ◌+◌, ◌-◌, ◌*◌, String, Bool, true, false, not, ◌&&◌, ◌||◌, Option, none, some, List, [],
  ◌∷◌, ◌++◌, map, length, drop, ltb, leb, ◌==◌, if◌then◌else◌,
}
use simiclaw.Base.Text.{is_empty}
use simiclaw.Base.Time.{second}
use simiclaw.Base.Dict.{get, put, retain}
use simiclaw.Model.{
  RuntimeEvent, RuntimeEventKind, claimed, executing, finalize_started, reasoning_delta, text_delta,
  is_terminal,
}
use simiclaw.Events.Subscription.{QueuedEvent, Subscription, enqueue, close}

pub record PublishPolicy : Type 0 where
  pub queue_droppable : Bool
  pub replay_droppable : Bool

-- `subscribers` is a set of pointers; no method depends on its order.
pub record EventState : Type 0 where
  pub next_sequence : ℕ
  pub subscribers : List ℕ
  pub history : List QueuedEvent
  pub terminal : Option RuntimeEvent
  pub updated_at : ℕ

pub record Hub : Type 0 where
  pub events : List (String × EventState)
  pub subs : ℕ → Subscription
  pub next_sub : ℕ
  pub terminal_retention : ℕ
  pub max_queued : ℕ
  pub max_replay : ℕ

abbrev new_subscription : ℕ → Subscription
new_subscription max = record {
  pending = [];
  notify = false;
  closed = false;
  event_id = "";
  max_queued = max;
}

pub new_hub : Hub
new_hub = record {
  events = [];
  subs = λ p. new_subscription 64;
  next_sub = 0;
  terminal_retention = 600 * second;
  max_queued = 64;
  max_replay = 2048;
}

abbrev pub update : (ℕ → Subscription) → ℕ → Subscription → ℕ → Subscription
update subs p s q = if p == q then s else subs q

unfoldable pub reserve : Hub → Hub × ℕ
reserve h = (
  record h {
    subs = update h.subs h.next_sub (new_subscription h.max_queued);
    next_sub = suc h.next_sub;
  },
  h.next_sub,
)

abbrev pub is_nil : {A : Type 0} → List A → Bool
is_nil [] = true
is_nil (x ∷ xs) = false

abbrev pub is_none : {A : Type 0} → Option A → Bool
is_none none = true
is_none (some a) = false

-- The loop of `pruneLocked` keeps an entry by this test.
abbrev pub stays : ℕ → ℕ → String → EventState → Bool
stays retention now id s =
    is_none s.terminal || not (is_nil s.subscribers) || not (ltb (s.updated_at + retention) now)

unfoldable pub prune : ℕ → Hub → Hub
prune now h = record h { events = retain (stays h.terminal_retention now) h.events }

abbrev pub fresh_state : ℕ → EventState
fresh_state now = record {
  next_sequence = 2;
  subscribers = [];
  history = [];
  terminal = none;
  updated_at = now;
}

-- The state that `ensureEventLocked` returns. Each caller stores it back.
abbrev pub or_fresh : Option EventState → ℕ → EventState
or_fresh none now = fresh_state now
or_fresh (some s) now = s

abbrev pub ensure : Hub → String → ℕ → EventState
ensure h id now = or_fresh (get id h.events) now

abbrev pub store : String → EventState → Hub → Hub
store id s h = record h { events = put id s h.events }

abbrev pub policy_for_kind : RuntimeEventKind → PublishPolicy
policy_for_kind claimed = record { queue_droppable = true; replay_droppable = false }
policy_for_kind executing = record { queue_droppable = true; replay_droppable = false }
policy_for_kind finalize_started = record { queue_droppable = true; replay_droppable = false }
policy_for_kind reasoning_delta = record { queue_droppable = true; replay_droppable = true }
policy_for_kind text_delta = record { queue_droppable = true; replay_droppable = true }
policy_for_kind _ = record { queue_droppable = false; replay_droppable = false }

unfoldable pub stamp_time : RuntimeEvent → ℕ → RuntimeEvent
stamp_time e now = if e.occurred_at == 0 then record e { occurred_at = now } else e

unfoldable pub populate : EventState → RuntimeEvent → ℕ → EventState × RuntimeEvent
unfolding stamp_time
populate s e now =
    if e.sequence == 0
    then (
      record s { next_sequence = suc s.next_sequence },
      record (stamp_time e now) { sequence = s.next_sequence },
    )
    else (s, stamp_time e now)

-- The `for` loop of `appendHistory`; `filtered` grows at its end.
filter_loop : ℕ → List QueuedEvent → List QueuedEvent → List QueuedEvent
filter_loop max filtered [] = filtered
filter_loop max filtered (q ∷ rest) =
    filter_loop max
      (if ltb (length filtered) max || not q.droppable then filtered ++ q ∷ [] else filtered) rest

abbrev cut : ℕ → List QueuedEvent → List QueuedEvent
cut max filtered =
    if leb (length filtered) max then filtered else drop (length filtered - max) filtered

unfoldable pub append_history : List QueuedEvent → QueuedEvent → ℕ → List QueuedEvent
unfolding filter_loop
append_history history item max =
    let grown = history ++ item ∷ [] in
    if max == 0 || leb (length grown) max then grown else cut max (filter_loop max [] grown)

abbrev terminal_list : Option RuntimeEvent → List RuntimeEvent
terminal_list none = []
terminal_list (some e) = e ∷ []

unfoldable pub replay : EventState → List RuntimeEvent
replay s = map (λ q. q.event) s.history ++ terminal_list s.terminal

-- One subscriber's part of `dispatch`.
unfoldable pub deliver : RuntimeEvent → Bool → Bool → Subscription → Subscription
deliver e terminal queue_droppable s =
    if terminal then close (enqueue e false s).0 else (enqueue e queue_droppable s).0

unfoldable pub dispatch :
    List ℕ → RuntimeEvent → Bool → Bool → (ℕ → Subscription) → ℕ → Subscription
dispatch [] e terminal queue_droppable subs = subs
dispatch (p ∷ ps) e terminal queue_droppable subs =
    dispatch ps e terminal queue_droppable
      (update subs p (deliver e terminal queue_droppable (subs p)))

-- From `state.populate` to the end of `publish`, on the state that `ensureEventLocked` gave.
unfoldable pub publish_new : Hub → EventState → RuntimeEvent → Bool → ℕ → Hub × RuntimeEvent
publish_new h s event terminal now =
    let (s₁, e) = populate s event now in
    let policy = policy_for_kind e.kind in
    let item : QueuedEvent = record { event = e; droppable = policy.replay_droppable } in
    let subs = dispatch s.subscribers e terminal policy.queue_droppable h.subs in
    let s₂ : EventState = record s₁ {
      updated_at = now;
      history = if terminal then s.history else append_history s.history item h.max_replay;
      terminal = if terminal then some e else s.terminal;
      subscribers = if terminal then [] else s.subscribers;
    } in
    (store e.event_id s₂ (record h { subs = subs }), e)

-- A terminal event is published once: a later one gets the first back.
abbrev pub publish_found :
    Hub → EventState → Option RuntimeEvent → RuntimeEvent → Bool → ℕ → Hub × RuntimeEvent
publish_found h s (some cached) event true now = (store event.event_id s h, cached)
publish_found h s _ event terminal now = publish_new h s event terminal now

unfoldable pub publish_event : Hub → RuntimeEvent → Bool → ℕ → Hub × RuntimeEvent
publish_event h event terminal now =
    let h₁ = prune now h in
    let s = ensure h₁ event.event_id now in
    if is_empty event.event_id then (h, event) else publish_found h₁ s s.terminal event terminal now

unfoldable pub publish : Hub → RuntimeEvent → ℕ → Hub
publish h event now = (publish_event h event (is_terminal event.kind) now).0

unfoldable pub publish_terminal : Hub → RuntimeEvent → ℕ → Hub × RuntimeEvent
publish_terminal h event now = publish_event h event true now

-- The set `subscribers` with one pointer added or deleted.
abbrev pub with_pointer : ℕ → List ℕ → List ℕ
with_pointer p [] = p ∷ []
with_pointer p (q ∷ qs) = if p == q then q ∷ qs else q ∷ with_pointer p qs

abbrev pub without_pointer : ℕ → List ℕ → List ℕ
without_pointer p [] = []
without_pointer p (q ∷ qs) = if p == q then without_pointer p qs else q ∷ without_pointer p qs

unfoldable pub attach : Hub → Option ℕ → String → ℕ → Hub × List RuntimeEvent
attach h none id now = (h, [])
attach h (some p) id now =
    let h₁ = prune now h in
    let s = ensure h₁ id now in
    let s₁ : EventState = record s {
      subscribers = if is_none s.terminal then with_pointer p s.subscribers else s.subscribers;
      updated_at = now;
    } in
    let named : Subscription = record (h.subs p) { event_id = id } in
    (store id s₁ (record h₁ { subs = update h.subs p named }), replay s)

-- The part of `Release` under `if state, ok := …`; `now` and `later` are its two clock readings.
abbrev pub detach : Hub → ℕ → String → Option EventState → ℕ → ℕ → Hub
detach h p id none now later = h
detach h p id (some s) now later =
    let s₁ : EventState = record s {
      subscribers = without_pointer p s.subscribers;
      updated_at = now;
    } in
    let h₁ = store id s₁ h in
    if is_nil s₁.subscribers && not (is_none s₁.terminal) then prune later h₁ else h₁

abbrev pub close_sub : ℕ → Hub → Hub
close_sub p h = record h { subs = update h.subs p (close (h.subs p)) }

unfoldable pub release : Hub → Option ℕ → ℕ → ℕ → Hub
release h none now later = h
release h (some p) now later =
    let id = (h.subs p).event_id in
    close_sub p (if is_empty id then h else detach h p id (get id h.events) now later)
