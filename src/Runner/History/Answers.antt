-- ===== src/Runner/History/Answers.antt =====
-- internal/runner/history_transform.go: which tool messages the model is shown.
use simiclaw.Base.{
  ◌≡◌, ap, inl, inr, String, true, false, not, ◌||◌, ◌&&◌, List, [], ◌∷◌, ◌==ˢ◌, if◌then◌else◌,
  arith, eq_iff, Bool-cases,
}
use simiclaw.Runner.Model.{HistoryMessage, ModelMessage}
use simiclaw.Runner.History.{
  is_blank_text, is_skipped, is_pending, removed, with_calls, no_calls, assistant_step,
  assistant_message, plain_message, tool_step, history_step, appended, chat_from,
}

-- Each tool message answers a call of an assistant's message before it that no other one answered.
abbrev pub Answered : List String → List ModelMessage → Type 0
Answered open_calls [] = Unit
Answered open_calls (m ∷ ms) =
    if m.role ==ˢ "tool"
    then (is_pending m.tool_call_id open_calls ≡ true)
      × Answered (removed m.tool_call_id open_calls) ms
    else Answered (with_calls m.tool_calls open_calls) ms

assistant_no_tool : (role : String) → (role ==ˢ "assistant") ≡ true → (role ==ˢ "tool") ≡ false
assistant_no_tool role h = ap (λ r. r ==ˢ "tool") ((eq_iff role "assistant").0 h)

-- A message that is not a tool's: its calls are open for the rest.
Answered-other :
    (pending : List String) (m : ModelMessage) (rest : List ModelMessage)
    → (m.role ==ˢ "tool") ≡ false
    → Answered (with_calls m.tool_calls pending) rest
    → Answered pending (m ∷ rest)
Answered-other pending m rest e h = rw e h

Answered-tool :
    (pending : List String) (m : ModelMessage) (rest : List ModelMessage)
    → (m.role ==ˢ "tool") ≡ true
    → is_pending m.tool_call_id pending ≡ true
    → Answered (removed m.tool_call_id pending) rest
    → Answered pending (m ∷ rest)
Answered-tool pending m rest e p h = rw e (p, h)

assistant_step-Answered :
    (pending : List String) (m : HistoryMessage) (rest : List ModelMessage)
    → (m.role ==ˢ "assistant") ≡ true
    → Answered (assistant_step pending m).1 rest
    → Answered pending (appended (assistant_step pending m).0 rest)
assistant_step-Answered pending m rest a =
    elim (Bool-cases (is_blank_text m.content && no_calls m.tool_calls)) [
      | inl e ↦ rw e (λ h. h)
      | inr e ↦
          rw e
            (λ h. Answered-other pending (assistant_message m) rest (assistant_no_tool m.role a) h)
    ]

tool_step-Answered :
    (pending : List String) (m : HistoryMessage) (rest : List ModelMessage)
    → (m.role ==ˢ "tool") ≡ true
    → Answered (tool_step pending m).1 rest
    → Answered pending (appended (tool_step pending m).0 rest)
tool_step-Answered pending m rest t =
    elim (Bool-cases (is_blank_text m.tool_call_id || not (is_pending m.tool_call_id pending))) [
      | inl e ↦ rw e (λ h. h)
      | inr e ↦ rw e (λ h. Answered-tool pending (plain_message m) rest t (ground (arith, e)) h)
    ]

history_step-Answered :
    (pending : List String) (m : HistoryMessage) (rest : List ModelMessage)
    → Answered (history_step pending m).1 rest
    → Answered pending (appended (history_step pending m).0 rest)
history_step-Answered pending m rest = elim (Bool-cases (is_skipped m)) [
  | inl e ↦ rw e (λ h. h)
  | inr e ↦ rw e (elim (Bool-cases (m.role ==ˢ "assistant")) [
    | inl a ↦ rw a (assistant_step-Answered pending m rest a)
    | inr a ↦ rw a (elim (Bool-cases (m.role ==ˢ "tool")) [
      | inl t ↦ rw t (tool_step-Answered pending m rest t)
      | inr t ↦ rw t (λ h. Answered-other pending (plain_message m) rest t h)
    ])
  ])
]

-- What the model is shown of a history, however it was cut: no tool message without its call.
pub history_to_chat_messages-Answered :
    (pending : List String) (history : List HistoryMessage)
    → Answered pending (chat_from pending history)
unfolding chat_from
history_to_chat_messages-Answered pending [] = tt
history_to_chat_messages-Answered pending (m ∷ ms) =
    history_step-Answered pending m _
      (history_to_chat_messages-Answered (history_step pending m).1 ms)
