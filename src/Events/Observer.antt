-- ===== src/Events/Observer.antt =====
-- internal/runtime/events/observe.go: a stream's observer, which reads the terminal event from the
-- store when the hub has none. A pointer to a subscription is its index, as in the hub.
pub mod Ending
use simiclaw.Base.{
  ℕ, String, Bool, true, false, Option, none, some, List, [], ◌∷◌, ◌++◌, if◌then◌else◌,
}
use simiclaw.Base.Result.{Result, ok, err}
use simiclaw.Model.{RuntimeEvent, is_terminal}
use simiclaw.Events.Hub.{Hub, reserve, attach, release, publish_terminal}

-- TerminalReplaySource
abbrev pub TerminalReplaySource : Type 0
TerminalReplaySource = String → Result String (Option RuntimeEvent)

unfoldable pub contains_terminal : List RuntimeEvent → Bool
unfolding is_terminal
contains_terminal [] = false
contains_terminal (e ∷ es) = if is_terminal e.kind then true else contains_terminal es

abbrev pub with_terminal : List RuntimeEvent → Hub × RuntimeEvent → Hub × List RuntimeEvent
with_terminal events (h, e) = (h, events ++ e ∷ [])

abbrev pub looked_up :
    Result String (Option RuntimeEvent) → List RuntimeEvent → Hub → ℕ → Hub × List RuntimeEvent
looked_up (err e) events h now = (h, events)
looked_up (ok none) events h now = (h, events)
looked_up (ok (some e)) events h now = with_terminal events (publish_terminal h e now)

-- Attach after the hub's own Attach. `meanwhile` is what others do to the hub while the source is read.
abbrev pub from_source :
    Option TerminalReplaySource
    → (Hub → Hub)
    → String
    → ℕ
    → Hub × List RuntimeEvent
    → Hub × List RuntimeEvent
from_source none meanwhile id now (h, events) = (h, events)
from_source (some source) meanwhile id now (h, events) =
    if contains_terminal events then (h, events) else looked_up (source id) events (meanwhile h) now

-- Attach of observerSubscription; `now` and `later` are its clock readings.
unfoldable pub observe :
    Option TerminalReplaySource → (Hub → Hub) → Hub → ℕ → String → ℕ → ℕ → Hub × List RuntimeEvent
unfolding attach contains_terminal publish_terminal
observe source meanwhile h p id now later =
    from_source source meanwhile id later (attach h (some p) id now)
