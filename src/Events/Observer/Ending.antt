-- ===== src/Events/Observer/Ending.antt =====
-- internal/runtime/events/observe.go: how the replay of an observer ends.
use simiclaw.Base.{
  ℕ, ◌≡◌, ap, ◌∙◌, String, Bool, true, false, Option, none, some, List, [], ◌∷◌, ◌++◌, inl, inr,
  if◌then◌else◌, arith, Bool-cases, Option-cases,
}
use simiclaw.Base.Result.{ok}
use simiclaw.Base.Text.{is_empty}
use simiclaw.Base.Dict.{get, AllValues, AllValues-get, AllValues-retain}
use simiclaw.Model.{RuntimeEvent, is_terminal}
use simiclaw.Events.Hub.{
  EventState, Hub, attach, or_fresh, prune, ensure, populate, stamp_time, publish_new,
  publish_found, publish_event, publish_terminal,
}
use simiclaw.Events.Observer.{TerminalReplaySource, contains_terminal, looked_up, observe}

abbrev pub ends : Option RuntimeEvent → Bool
ends none = true
ends (some e) = is_terminal e.kind

-- What is kept as a terminal event is one.
abbrev pub KeepsEnds : Hub → Type 0
KeepsEnds h = AllValues (λ s. ends s.terminal ≡ true) h.events

contains_terminal-last :
    (es : List RuntimeEvent) (e : RuntimeEvent)
    → is_terminal e.kind ≡ true
    → contains_terminal (es ++ e ∷ []) ≡ true
unfolding contains_terminal
contains_terminal-last [] e t = ground (arith, t)
contains_terminal-last (x ∷ es) e t = ground (arith, contains_terminal-last es e t)

populate-kind : (s : EventState) (e : RuntimeEvent) (now : ℕ) → (populate s e now).1.kind ≡ e.kind
unfolding populate stamp_time
populate-kind s e now = ground arith

publish_found-terminal :
    (h : Hub) (s : EventState) (o : Option RuntimeEvent) (e : RuntimeEvent) (now : ℕ)
    → ends o ≡ true
    → is_terminal e.kind ≡ true
    → is_terminal (publish_found h s o e true now).1.kind ≡ true
unfolding publish_new
publish_found-terminal h s (some c) e now k t = k
publish_found-terminal h s none e now k t = ap is_terminal (populate-kind s e now) ∙ t

ensure-ends :
    (h : Hub) (id : String) (now : ℕ) → KeepsEnds h → ends (ensure h id now).terminal ≡ true
ensure-ends h id now k = elim (Option-cases (get id h.events)) [
  | inl none_there ↦ ap (λ o. ends (or_fresh o now).terminal) none_there
  | inr (s, there) ↦
      ap (λ o. ends (or_fresh o now).terminal) there
      ∙ AllValues-get (λ s. ends s.terminal ≡ true) id s h.events k there
]

pruned : (now : ℕ) (h : Hub) → KeepsEnds h → KeepsEnds (prune now h)
unfolding prune
pruned now h k = AllValues-retain (λ s. ends s.terminal ≡ true) _ h.events k

publish_terminal-kind :
    (h : Hub) (e : RuntimeEvent) (now : ℕ)
    → KeepsEnds h
    → is_terminal e.kind ≡ true
    → is_terminal (publish_terminal h e now).1.kind ≡ true
unfolding publish_terminal publish_event
publish_terminal-kind h e now k t = cases (is_empty e.event_id)
  where
    s : EventState
    s = ensure (prune now h) e.event_id now

    cases :
        (b : Bool)
        → is_terminal
            (if b then (h, e) else publish_found (prune now h) s s.terminal e true now).1.kind
          ≡ true
    cases true = t
    cases false =
        publish_found-terminal (prune now h) s s.terminal e now
          (ensure-ends (prune now h) e.event_id now (pruned now h k)) t

-- When the store has a terminal event, what an observer is given as it attaches contains a terminal
-- event, whatever the hub still holds and whatever others do to it in the meantime, as long as the hub
-- keeps only terminal events as terminal.
pub observe-contains_terminal :
    (source : TerminalReplaySource) (meanwhile : Hub → Hub) (h : Hub) (p : ℕ) (id : String)
    (now later : ℕ) (e : RuntimeEvent)
    → source id ≡ ok (some e)
    → is_terminal e.kind ≡ true
    → KeepsEnds (meanwhile (attach h (some p) id now).0)
    → contains_terminal (observe (some source) meanwhile h p id now later).1 ≡ true
unfolding observe
observe-contains_terminal source meanwhile h p id now later e stored t keeps =
    elim (Bool-cases (contains_terminal events)) [
      | inl c ↦
          ap
            (λ b.
              contains_terminal
                (if b then (h₁, events) else looked_up (source id) events h₂ later).1)
            c
          ∙ c
      | inr c ↦
          ap
            (λ b.
              contains_terminal
                (if b then (h₁, events) else looked_up (source id) events h₂ later).1)
            c
          ∙ ap (λ r. contains_terminal (looked_up r events h₂ later).1) stored
          ∙ contains_terminal-last events (publish_terminal h₂ e later).1
              (publish_terminal-kind h₂ e later keeps t)
    ]
  where
    h₁ : Hub
    h₁ = (attach h (some p) id now).0

    h₂ : Hub
    h₂ = meanwhile h₁

    events : List RuntimeEvent
    events = (attach h (some p) id now).1
