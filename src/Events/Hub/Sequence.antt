-- ===== src/Events/Hub/Sequence.antt =====
-- internal/runtime/events/hub.go: sequence numbers grow along every history.
use simiclaw.Base.{
  ℕ, zero, suc, ◌≤◌, ◌<◌, ◌≡◌, refl, String, Bool, true, false, Option, none, some, List, [], ◌∷◌,
  ◌++◌, arith, length, drop, ltb, if◌then◌else◌, if_both, All, All-append, All-drop,
}
use simiclaw.Base.Text.{is_empty}
use simiclaw.Base.Dict.{get, AllValues, AllValues-put, AllValues-retain, AllValues-get}
use simiclaw.Model.{RuntimeEvent}
use simiclaw.Events.Subscription.{QueuedEvent}
use simiclaw.Events.Hub.{
  EventState, Hub, populate, stamp_time, policy_for_kind, append_history, publish_new,
  publish_found, publish_event, publish, publish_terminal, prune, ensure, or_fresh, store, attach,
  detach, release, reserve, new_hub, without_pointer,
}
use simiclaw.Events.Hub.History.{append_history_lem, append_history-le}

-- Sequence numbers grow strictly from one event to the next.
abbrev pub IsIncreasing : List QueuedEvent → Type 0
IsIncreasing [] = Unit
IsIncreasing (x ∷ xs) = All (λ y. x.event.sequence < y.event.sequence) xs × IsIncreasing xs

abbrev pub Below : ℕ → List QueuedEvent → Type 0
Below n = All (λ q. q.event.sequence < n)

pub record IsOrdered (max : ℕ) (s : EventState) : Type 0 where
  pub increasing : IsIncreasing s.history
  pub below : Below s.next_sequence s.history
  pub short : length s.history ≤ max
  pub from_two : 2 ≤ s.next_sequence

Below-mono : (m n : ℕ) (xs : List QueuedEvent) → m ≤ n → Below m xs → Below n xs
Below-mono m n [] h b = tt
Below-mono m n (x ∷ xs) h b = (omega (arith, b.0), Below-mono m n xs h b.1)

IsIncreasing-append :
    (xs : List QueuedEvent) (q : QueuedEvent)
    → IsIncreasing xs
    → Below q.event.sequence xs
    → IsIncreasing (xs ++ q ∷ [])
IsIncreasing-append [] q i b = (tt, tt)
IsIncreasing-append (x ∷ xs) q i b =
    (All-append _ xs (q ∷ []) i.0 (b.0, tt), IsIncreasing-append xs q i.1 b.1)

IsIncreasing-drop : (n : ℕ) (xs : List QueuedEvent) → IsIncreasing xs → IsIncreasing (drop n xs)
IsIncreasing-drop zero xs i = i
IsIncreasing-drop (suc n) [] i = i
IsIncreasing-drop (suc n) (x ∷ xs) i = IsIncreasing-drop n xs i.1

-- In order, and all below the next number.
abbrev Ordered : ℕ → List QueuedEvent → Type 0
Ordered n xs = IsIncreasing xs × Below n xs

Ordered-append :
    (xs : List QueuedEvent) (q : QueuedEvent)
    → Ordered q.event.sequence xs
    → Ordered (suc q.event.sequence) (xs ++ q ∷ [])
Ordered-append xs q o = (
  IsIncreasing-append xs q o.0 o.1,
  All-append _ xs (q ∷ []) (Below-mono _ _ xs (omega arith) o.1) (omega arith, tt),
)

-- An event with the next number keeps a history in order.
append_history-Ordered :
    (xs : List QueuedEvent) (q : QueuedEvent) (max : ℕ)
    → 0 < max
    → length xs ≤ max
    → Ordered q.event.sequence xs
    → Ordered (suc q.event.sequence) (append_history xs q max)
append_history-Ordered xs q max p h o = rw (append_history_lem xs q max p h) (
    if_both (Ordered (suc q.event.sequence)) (ltb (length xs) max) _
      (if q.droppable then xs else drop 1 xs ++ q ∷ []) (Ordered-append xs q o)
      (if_both (Ordered (suc q.event.sequence)) q.droppable _ _
        (o.0, Below-mono _ _ xs (omega arith) o.1)
        (Ordered-append (drop 1 xs) q (IsIncreasing-drop 1 xs o.0, All-drop _ 1 xs o.1))))

-- An event without a number gets the next one.
populate_zero :
    (s : EventState) (event : RuntimeEvent) (now : ℕ)
    → event.sequence ≡ 0
    → populate s event now ≡ (
      record s { next_sequence = suc s.next_sequence },
      record (stamp_time event now) { sequence = s.next_sequence },
    )
unfolding populate
populate_zero s event now e = ground arith

publish_new-IsOrdered :
    (h : Hub) (s : EventState) (event : RuntimeEvent) (terminal : Bool) (now : ℕ)
    → 0 < h.max_replay
    → event.sequence ≡ 0
    → IsOrdered h.max_replay s
    → AllValues (IsOrdered h.max_replay) h.events
    → AllValues (IsOrdered h.max_replay) (publish_new h s event terminal now).0.events
unfolding publish_new
publish_new-IsOrdered h s event true now p e o all =
    rw (populate_zero s event now e, publish_new)
      (AllValues-put _ _ _ h.events
        (record {
          increasing = o.increasing;
          below = Below-mono s.next_sequence _ s.history (omega arith) o.below;
          short = o.short;
          from_two = omega arith;
        })
        all)
publish_new-IsOrdered h s event false now p e o all =
    let numbered : RuntimeEvent = record (stamp_time event now) { sequence = s.next_sequence } in
    let item : QueuedEvent = record {
      event = numbered;
      droppable = (policy_for_kind numbered.kind).replay_droppable;
    } in
    let kept =
      append_history-Ordered s.history item h.max_replay p o.short (o.increasing, o.below) in
    rw (populate_zero s event now e, publish_new)
      (AllValues-put _ _ _ h.events
        (record {
          increasing = kept.0;
          below = kept.1;
          short = append_history-le s.history item h.max_replay p o.short;
          from_two = omega arith;
        })
        all)

-- The histories that the hub keeps are in order, and their length is at most `max_replay`.
pub record IsValid (h : Hub) : Type 0 where
  pub replays : 0 < h.max_replay
  pub ordered : AllValues (IsOrdered h.max_replay) h.events

prune-IsValid : (now : ℕ) (h : Hub) → IsValid h → IsValid (prune now h)
unfolding prune
prune-IsValid now h v = record {
  replays = v.replays;
  ordered = AllValues-retain _ _ h.events v.ordered;
}

or_fresh-IsOrdered :
    (max : ℕ) (id : String) (m : List (String × EventState)) (o : Option EventState) (now : ℕ)
    → AllValues (IsOrdered max) m
    → get id m ≡ o
    → IsOrdered max (or_fresh o now)
or_fresh-IsOrdered max id m none now all e = record {
  increasing = tt;
  below = tt;
  short = omega arith;
  from_two = omega arith;
}
or_fresh-IsOrdered max id m (some s) now all e = AllValues-get _ id s m all e

ensure-IsOrdered :
    (h : Hub) (id : String) (now : ℕ) → IsValid h → IsOrdered h.max_replay (ensure h id now)
ensure-IsOrdered h id now v = or_fresh-IsOrdered _ id h.events (get id h.events) now v.ordered refl

store-IsValid :
    (id : String) (s : EventState) (h : Hub)
    → IsOrdered h.max_replay s
    → IsValid h
    → IsValid (store id s h)
store-IsValid id s h o v = record {
  replays = v.replays;
  ordered = AllValues-put _ id s h.events o v.ordered;
}

publish_new-IsValid :
    (h : Hub) (s : EventState) (event : RuntimeEvent) (terminal : Bool) (now : ℕ)
    → event.sequence ≡ 0
    → IsOrdered h.max_replay s
    → IsValid h
    → IsValid (publish_new h s event terminal now).0
publish_new-IsValid h s event terminal now e o v = record {
  replays = unfold publish_new in v.replays;
  ordered =
      unfold publish_new in publish_new-IsOrdered h s event terminal now v.replays e o v.ordered;
}

publish_event-IsValid :
    (h : Hub) (event : RuntimeEvent) (terminal : Bool) (now : ℕ)
    → event.sequence ≡ 0
    → IsValid h
    → IsValid (publish_event h event terminal now).0
unfolding publish_event
publish_event-IsValid h event terminal now e v =
    if_both (λ (r : Hub × RuntimeEvent). IsValid r.0) (is_empty event.event_id) _ _ v
      (found (ensure h₁ event.event_id now).terminal terminal)
  where
    h₁ : Hub
    h₁ = prune now h

    v₁ : IsValid h₁
    v₁ = prune-IsValid now h v

    o₁ : IsOrdered h₁.max_replay (ensure h₁ event.event_id now)
    o₁ = ensure-IsOrdered h₁ event.event_id now v₁

    found :
        (t : Option RuntimeEvent) (terminal : Bool)
        → IsValid (publish_found h₁ (ensure h₁ event.event_id now) t event terminal now).0
    found none terminal = publish_new-IsValid h₁ _ event terminal now e o₁ v₁
    found (some t) true = store-IsValid event.event_id _ h₁ o₁ v₁
    found (some t) false = publish_new-IsValid h₁ _ event false now e o₁ v₁

attach-IsValid :
    (h : Hub) (p : Option ℕ) (id : String) (now : ℕ) → IsValid h → IsValid (attach h p id now).0
unfolding attach
attach-IsValid h none id now v = v
attach-IsValid h (some p) id now v =
    let o = ensure-IsOrdered (prune now h) id now (prune-IsValid now h v) in
    store-IsValid id _ _
      (record {
        increasing = o.increasing;
        below = o.below;
        short = o.short;
        from_two = o.from_two;
      })
      (record {
        replays = (prune-IsValid now h v).replays;
        ordered = (prune-IsValid now h v).ordered;
      })

detach-IsValid :
    (h : Hub) (p : ℕ) (id : String) (o : Option EventState) (now later : ℕ)
    → get id h.events ≡ o
    → IsValid h
    → IsValid (detach h p id o now later)
detach-IsValid h p id none now later e v = v
detach-IsValid h p id (some s) now later e v =
    let o = AllValues-get _ id s h.events v.ordered e in
    let stored =
      store-IsValid id
        (record s { subscribers = without_pointer p s.subscribers; updated_at = now }) h
        (record {
          increasing = o.increasing;
          below = o.below;
          short = o.short;
          from_two = o.from_two;
        })
        v in
    if_both IsValid _ _ _ (prune-IsValid later _ stored) stored

release-IsValid :
    (h : Hub) (p : Option ℕ) (now later : ℕ) → IsValid h → IsValid (release h p now later)
unfolding release
release-IsValid h none now later v = v
release-IsValid h (some p) now later v =
    let w =
      if_both IsValid (is_empty (h.subs p).event_id) _ _ v
        (detach-IsValid h p _ _ now later refl v) in
    record { replays = w.replays; ordered = w.ordered }

-- The calls of the hub's methods, in which the events that are published carry no number, as the
-- program's own do.
pub data Call : Type 0 where
  reserves : Call
  releases : Option ℕ → ℕ → ℕ → Call
  attaches : Option ℕ → String → ℕ → Call
  publishes : (event : RuntimeEvent) → event.sequence ≡ 0 → ℕ → Call
  publishes_terminal : (event : RuntimeEvent) → event.sequence ≡ 0 → ℕ → Call

pub step : Hub → Call → Hub
step h reserves = (reserve h).0
step h (releases p now later) = release h p now later
step h (attaches p id now) = (attach h p id now).0
step h (publishes event e now) = publish h event now
step h (publishes_terminal event e now) = (publish_terminal h event now).0

pub run : Hub → List Call → Hub
run h [] = h
run h (c ∷ cs) = run (step h c) cs

-- Every method of the hub keeps each history within `max_replay` and in the order of its sequence
-- numbers, each number used once and below the next one, whatever is published without a number.
pub step-IsValid : (h : Hub) (c : Call) → IsValid h → IsValid (step h c)
unfolding step publish publish_terminal
step-IsValid h reserves v = unfold reserve in (record { replays = v.replays; ordered = v.ordered })
step-IsValid h (releases p now later) v = release-IsValid h p now later v
step-IsValid h (attaches p id now) v = attach-IsValid h p id now v
step-IsValid h (publishes event e now) v = publish_event-IsValid h event _ now e v
step-IsValid h (publishes_terminal event e now) v = publish_event-IsValid h event true now e v

run-IsValid : (cs : List Call) (h : Hub) → IsValid h → IsValid (run h cs)
unfolding run
run-IsValid [] h v = v
run-IsValid (c ∷ cs) h v = run-IsValid cs (step h c) (step-IsValid h c v)

-- After any calls of the methods of a new hub in which the events that are published carry no sequence
-- number (`Call` has this condition), each history that it keeps is at most `max_replay` long and in the
-- order of its sequence numbers, each number used once and below the next one, whatever the clock reads.
pub run-new_hub-IsValid : (cs : List Call) → IsValid (run new_hub cs)
run-new_hub-IsValid cs =
    run-IsValid cs new_hub (unfold new_hub in (record { replays = omega arith; ordered = tt }))
