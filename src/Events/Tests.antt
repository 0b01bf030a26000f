-- ===== src/Events/Tests.antt =====
-- internal/runtime/events/hub.go: the hub on small inputs.
use simiclaw.Base.{
  ◌≡◌, ◌⊎◌, refl, true, false, none, some, List, [], ◌∷◌, ◌++◌, arith, keep_if, inl,
}
use simiclaw.Base.Dict.{get, put, retain}
use simiclaw.Model.{
  WorkItem, is_terminal, RuntimeEventKind, claimed, text_delta, completed, failed, Fields,
  RuntimeEvent,
}
use simiclaw.Events.Subscription.{QueuedEvent, Subscription, firm, enqueue, next_round}
use simiclaw.Events.Subscription.Delivery.{
  firm_pending, offers, received, Call, enqueues, closes, takes, run, received-offers,
}
use simiclaw.Events.Subscription.Wakeup.{State, Step, Reach, waiting_reader_wakes, after_round}
use simiclaw.Events.Subscription.Wakeup as W
use simiclaw.Events.Hub.{
  EventState, Hub, new_hub, prune, ensure, append_history, publish_event, append_history,
}
use simiclaw.Events.Hub.{attach}
use simiclaw.Events.Observer.{TerminalReplaySource, contains_terminal, observe}
use simiclaw.Events.Observer.Ending.{observe-contains_terminal}
use simiclaw.Base.Result.{ok}
use simiclaw.Events.Hub.History.{append_history_lem}
use simiclaw.Events.Hub.Sequence.{IsValid, step, step-IsValid, run-new_hub-IsValid}
use simiclaw.Events.Hub.Sequence as Sequence
use simiclaw.Events.Hub.Terminal.{has_pointer, publish_terminal_first}

abbrev no_work : WorkItem
no_work = record {
  event_id = "e";
  session_key = "";
  lane_key = "";
  source = "";
  channel = "";
  metadata = [];
}

abbrev sample : RuntimeEventKind → RuntimeEvent
sample kind = record {
  kind = kind;
  work = no_work;
  event_id = "e";
  sequence = 0;
  run_id = "r";
  session_key = "";
  session_id = "";
  status = "";
  delta = "";
  tool_call_id = "";
  tool_name = "";
  args = Fields.end;
  result = Fields.end;
  truncated = false;
  message = "";
  occurred_at = 7;
  metadata = [];
  error = none;
  event_record = none;
}

abbrev soft : QueuedEvent
soft = record { event = sample text_delta; droppable = true }

abbrev hard : QueuedEvent
hard = record { event = sample claimed; droppable = false }

-- A full queue of one event that may be dropped.
abbrev full_queue : Subscription
full_queue = record {
  pending = soft ∷ [];
  notify = true;
  closed = false;
  event_id = "e";
  max_queued = 1;
}

abbrev calls : List Call
calls = enqueues (sample completed) false ∷ takes ∷ closes ∷ enqueues (sample failed) false ∷ []

received-offers_example :
    keep_if firm (received full_queue calls) ++ firm_pending (run full_queue calls)
    ≡ firm_pending full_queue ++ offers false calls
received-offers_example = received-offers full_queue calls

abbrev ready : State
ready = record { sub = full_queue; reader = W.Reader.looking }

append_history_lem_example : append_history (hard ∷ soft ∷ []) hard 2 ≡ soft ∷ hard ∷ []
append_history_lem_example =
    append_history_lem (hard ∷ soft ∷ []) hard 2 (omega arith) (omega arith)

-- A hub with one subscriber of an event.
abbrev one_state : EventState
one_state = record {
  next_sequence = 2;
  subscribers = 0 ∷ [];
  history = [];
  terminal = none;
  updated_at = 5;
}

abbrev one_subscriber : Hub
one_subscriber = record {
  events = ("e", one_state) ∷ [];
  subs = λ p. full_queue;
  next_sub = 1;
  terminal_retention = 600;
  max_queued = 1;
  max_replay = 2;
}

publish_terminal_first_example :
    let s = ensure (prune 6 one_subscriber) "e" 6 in
    let r = publish_event one_subscriber (sample completed) true 6 in
    (t : EventState) × (get "e" r.0.events ≡ some t)
    × (t.terminal ≡ some r.1)
    × (t.subscribers ≡ [])
    × (((has_pointer 0 s.subscribers ≡ true)
          × ((r.0.subs 0).closed ≡ true)
          × (firm_pending (r.0.subs 0)
              ≡ firm_pending full_queue ++ record { event = r.1; droppable = false } ∷ []))
        ⊎ ((has_pointer 0 s.subscribers ≡ false) × (r.0.subs 0 ≡ full_queue)))
unfolding prune get retain
publish_terminal_first_example =
    publish_terminal_first one_subscriber (sample completed) 6 0 refl refl (refl, tt) refl

abbrev ended_state : EventState
ended_state = record one_state { terminal = some (sample failed); subscribers = [] }

abbrev ended_hub : Hub
ended_hub = record one_subscriber { events = ("e", ended_state) ∷ [] }

one_subscriber-IsValid : IsValid one_subscriber
one_subscriber-IsValid = record {
  replays = omega arith;
  ordered =
      (record { increasing = tt; below = tt; short = omega arith; from_two = omega arith }, tt);
}

step-IsValid_example :
    IsValid (step one_subscriber (Sequence.Call.publishes (sample claimed) refl 5))
step-IsValid_example =
    step-IsValid one_subscriber (Sequence.Call.publishes (sample claimed) refl 5)
      one_subscriber-IsValid

run-new_hub-IsValid_example : IsValid (
    Sequence.run new_hub (
      Sequence.Call.reserves
      ∷ Sequence.Call.attaches (some 0) "e" 4
      ∷ Sequence.Call.publishes (sample claimed) refl 5
      ∷ []))
run-new_hub-IsValid_example = run-new_hub-IsValid (
    Sequence.Call.reserves
    ∷ Sequence.Call.attaches (some 0) "e" 4
    ∷ Sequence.Call.publishes (sample claimed) refl 5
    ∷ [])

-- A reader that went to wait before an event came.
abbrev empty_queue : Subscription
empty_queue = record {
  pending = [];
  notify = false;
  closed = false;
  event_id = "e";
  max_queued = 1;
}

abbrev looking_state : State
looking_state = record { sub = empty_queue; reader = W.Reader.looking }

abbrev waiting_state : State
waiting_state = record { sub = empty_queue; reader = W.Reader.waiting }

abbrev woken_state : State
woken_state = record {
  sub = (enqueue (sample completed) false empty_queue).0;
  reader = W.Reader.waiting;
}

woken : Reach looking_state woken_state
unfolding next_round enqueue
woken =
    W.Reach.next {w = waiting_state}
      (W.Reach.next {w = looking_state} W.Reach.here (W.Step.looks refl refl))
      (W.Step.enqueues (sample completed) false refl)

waiting_reader_wakes_example : (u : State) × Step woken_state u × (u.reader ≡ W.Reader.looking)
unfolding enqueue
waiting_reader_wakes_example =
    waiting_reader_wakes looking_state woken_state refl woken refl (inl (λ e. cc))

abbrev stored_end : TerminalReplaySource
stored_end id = ok (some (sample completed))

-- An entry that the hub no longer has: the store still gives the end.
observe-contains_terminal_example :
    contains_terminal (observe (some stored_end) (λ h. h) one_subscriber 0 "gone" 6 7).1 ≡ true
unfolding attach put is_terminal prune retain get
observe-contains_terminal_example =
    observe-contains_terminal stored_end (λ h. h) one_subscriber 0 "gone" 6 7 (sample completed)
      refl refl (refl, (refl, tt))
