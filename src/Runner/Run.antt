-- ===== src/Runner/Run.antt =====
-- internal/runner: runner.go and memory_executor.go, the run of an event by the plan of its payload.
use Prim.Native.String.{◌++◌ as append}
use simiclaw.Base.{
  ℕ, String, Bool, true, false, Option, none, some, List, [], ◌∷◌, ◌==ˢ◌, if◌then◌else◌,
}
use simiclaw.Base.Text.{is_empty, trim_space}
use simiclaw.Model.{normal, Fields, Value}
use simiclaw.Model.Run.{InternalEvent}
use simiclaw.Runtime.Payload.{
  Plan, Registry, ExecutionKind, MemoryWriteTarget, nowhere, daily, curated, memory_write,
  resolve_plan,
}
use simiclaw.Runner.Model.{OutputMessage}
use simiclaw.Runner.Tools.{Env, LlmRunOptions}
use simiclaw.Runner.Output.{RunOutput, no_output, execute_llm}

-- A call of the memory writer: WriteDaily or WriteCurated. Its error is dropped.
pub data MemoryWrite : Type 0 where
  write_daily : String → String → MemoryWrite
  write_curated : String → MemoryWrite

abbrev fields_of : List (String × String) → Fields
fields_of [] = Fields.end
fields_of ((k, v) ∷ rest) = Fields.key k (Value.text v) (fields_of rest)

abbrev pub options_of : Plan → LlmRunOptions
options_of plan = record {
  run_mode = plan.run_mode;
  suppress_output = plan.suppress_output;
  user_visible = plan.user_visible;
  tool_visible = plan.tool_visible;
  final_assistant_visible = plan.final_assistant_visible;
  message_meta = fields_of plan.message_meta;
  allowed_tools = plan.allowed_tools;
}

abbrev plain : String → String → Bool → Fields → OutputMessage
plain role content visible meta = record {
  role = role;
  content = content;
  visible = visible;
  tool_calls = [];
  tool_call_id = "";
  tool_name = "";
  tool_args = Fields.end;
  tool_result = Fields.end;
  meta = meta;
}

abbrev new_session_reply : String
new_session_reply = "已开始新会话。"

-- runNewSession
abbrev pub run_new_session : InternalEvent → RunOutput
run_new_session event =
    let meta = Fields.key "payload_type" (Value.text event.payload.type) Fields.end in
    record (no_output (some normal) (
      plain "user" (trim_space event.payload.text) true meta
      ∷ plain "assistant" new_session_reply true meta
      ∷ [])) { assistant_reply = new_session_reply; output_text = new_session_reply }

abbrev pub note_of : InternalEvent → String
note_of event =
    let note = trim_space event.payload.text in if is_empty note then event.payload.type else note

abbrev memory_writes : MemoryWriteTarget → InternalEvent → List MemoryWrite
memory_writes nowhere event = []
memory_writes daily event = write_daily (append "system:" event.payload.type) (note_of event) ∷ []
memory_writes curated event = write_curated (note_of event) ∷ []

-- Execute of memoryRunExecutor.
abbrev pub execute_memory : InternalEvent → Plan → RunOutput
execute_memory event plan =
    record (no_output (some plan.run_mode)
      (plain "system" (note_of event) false (fields_of plan.message_meta) ∷ [])) {
        suppress_output = plan.suppress_output;
        output_text = note_of event;
      }

-- What a run comes to: its output, its error, and what it wrote to memory.
abbrev pub Ran : Type 0
Ran = RunOutput × Option String × List MemoryWrite

abbrev pub by_kind : ExecutionKind → Env → InternalEvent → ℕ → Plan → Ran
by_kind memory_write env event max_tool_rounds plan =
    (execute_memory event plan, none, memory_writes plan.memory_write_target event)
by_kind _ env event max_tool_rounds plan =
    let (output, error) = execute_llm env event (options_of plan) max_tool_rounds in
    (output, error, [])

-- runWithPlan
abbrev pub run_with_plan : Env → InternalEvent → ℕ → Plan → Ran
run_with_plan env event max_tool_rounds plan = by_kind plan.kind env event max_tool_rounds plan

abbrev with_payloads : Env → InternalEvent → ℕ → Option Registry → Ran
with_payloads env event max_tool_rounds none =
    (no_output none [], some "payload registry unavailable", [])
with_payloads env event max_tool_rounds (some payloads) =
    run_with_plan env event max_tool_rounds (resolve_plan payloads event.payload.type)

-- Run of ProviderRunner.
unfoldable pub run : Env → Option Registry → InternalEvent → ℕ → Ran
unfolding execute_llm resolve_plan trim_space
run env payloads event max_tool_rounds =
    if event.payload.type ==ˢ "new_session"
    then (run_new_session event, none, [])
    else with_payloads env event max_tool_rounds payloads
