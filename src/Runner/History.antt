-- ===== src/Runner/History.antt =====
-- internal/runner/history_transform.go: the stored history as messages for the model.
pub mod Answers
use simiclaw.Base.{
  String, Bool, true, false, not, ◌||◌, ◌&&◌, Option, none, some, List, [], ◌∷◌, ◌++◌, ◌==ˢ◌,
  if◌then◌else◌,
}
use simiclaw.Base.Text.{is_empty, trim_space}
use simiclaw.Model.{ToolCall}
use simiclaw.Runner.Model.{HistoryMessage, ModelMessage, field_of, text_of}

abbrev pub is_blank_text : String → Bool
is_blank_text s = is_empty (trim_space s)

-- shouldSkipPromptHistoryPayloadType
abbrev pub should_skip : String → Bool
should_skip type = type ==ˢ "cron_fire" || type ==ˢ "new_session"

abbrev pub is_skipped : HistoryMessage → Bool
is_skipped m = should_skip (text_of (field_of "payload_type" m.meta))

-- The map `pendingToolCalls`, as the list of its keys.
abbrev pub is_pending : String → List String → Bool
is_pending id [] = false
is_pending id (p ∷ ps) = if p ==ˢ id then true else is_pending id ps

abbrev pub removed : String → List String → List String
removed id [] = []
removed id (p ∷ ps) = if p ==ˢ id then removed id ps else p ∷ removed id ps

abbrev pub with_calls : List ToolCall → List String → List String
with_calls [] pending = pending
with_calls (c ∷ cs) pending =
    with_calls cs (if is_blank_text c.tool_call_id then pending else c.tool_call_id ∷ pending)

abbrev pub no_calls : List ToolCall → Bool
no_calls [] = true
no_calls (c ∷ cs) = false

abbrev pub assistant_message : HistoryMessage → ModelMessage
assistant_message m = record {
  role = m.role;
  content = m.content;
  tool_call_id = "";
  tool_calls = m.tool_calls;
}

-- One round of the loop: the message that it appends, and the pending calls after it.
abbrev pub assistant_step : List String → HistoryMessage → Option ModelMessage × List String
assistant_step pending m =
    if is_blank_text m.content && no_calls m.tool_calls
    then (none, pending)
    else (some (assistant_message m), with_calls m.tool_calls pending)

abbrev pub plain_message : HistoryMessage → ModelMessage
plain_message m = record {
  role = m.role;
  content = m.content;
  tool_call_id = m.tool_call_id;
  tool_calls = [];
}

abbrev pub tool_step : List String → HistoryMessage → Option ModelMessage × List String
tool_step pending m =
    if is_blank_text m.tool_call_id || not (is_pending m.tool_call_id pending)
    then (none, pending)
    else (some (plain_message m), removed m.tool_call_id pending)

abbrev pub history_step : List String → HistoryMessage → Option ModelMessage × List String
history_step pending m =
    if is_skipped m
    then (none, pending)
    else if m.role ==ˢ "assistant"
    then assistant_step pending m
    else if m.role ==ˢ "tool"
    then tool_step pending m
    else (some (plain_message m), pending)

abbrev pub appended : Option ModelMessage → List ModelMessage → List ModelMessage
appended none ms = ms
appended (some m) ms = m ∷ ms

unfoldable pub chat_from : List String → List HistoryMessage → List ModelMessage
unfolding field_of trim_space
chat_from pending [] = []
chat_from pending (m ∷ ms) =
    let step = history_step pending m in appended step.0 (chat_from step.1 ms)

-- historyToChatMessages
abbrev pub history_to_chat_messages : List HistoryMessage → List ModelMessage
history_to_chat_messages history = chat_from [] history
