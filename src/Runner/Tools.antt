-- ===== src/Runner/Tools.antt =====
-- internal/runner/tool_executor.go: a call of a tool and what a run records of it. The stream's
-- callbacks and the logs are left out.
use Prim.Native.String.{◌++◌ as append}
use simiclaw.Base.{
  ℕ, suc, String, Bool, not, Option, none, some, List, [], ◌∷◌, ◌++◌, length, if◌then◌else◌,
}
use simiclaw.Base.Result.{Result}
use simiclaw.Base.Text.{quoted, trim_space, equal_fold}
use simiclaw.Base.Decimal.{decimal}
use simiclaw.Base.Dict.{put}
use simiclaw.Model.{RunMode, Fields, ToolCall, ErrorBlock}
use simiclaw.Model.Run.{InternalEvent}
use simiclaw.Runner.Model.{
  HistoryMessage, ModelMessage, Usage, ModelResult, ToolResult, OutputMessage,
}
use simiclaw.Runner.Policy.{
  tool_allowed, is_cron_fire, cron_fire_tool_policy_error, count_of, tool_risk, forbidden,
}

pub record LlmRunOptions : Type 0 where
  pub run_mode : RunMode
  pub suppress_output : Bool
  pub user_visible : Bool
  pub tool_visible : Bool
  pub final_assistant_visible : Bool
  pub message_meta : Fields
  pub allowed_tools : List String

-- What a run depends on: the model at each round, the tools at each call, the text that JSON gives, the
-- system prompt, the resolution of the model, and the history that is loaded.
pub record Env : Type 0 where
  pub stream_chat : ℕ → List ModelMessage → Result String ModelResult
  pub invoke : ℕ → String → Fields → ToolResult
  pub encode : Fields → String
  pub system_prompt : String
  pub resolved : Result String (Unit {0})
  pub history : Result String (List HistoryMessage)

pub record ToolExecution : Type 0 where
  pub tool_call_id : String
  pub name : String
  pub args : Fields
  pub result : Fields
  pub error : Option ErrorBlock

-- Without its id.
pub record Action : Type 0 where
  pub action_index : ℕ
  pub action_idempotency_key : String
  pub risk : String
  pub tool_name : String

-- The variables of the loop, and the calls of the catalog's Invoke so far, the last one first.
pub record State : Type 0 where
  pub chat : List ModelMessage
  pub messages : List OutputMessage
  pub counts : List (String × ℕ)
  pub executions : List ToolExecution
  pub actions : List Action
  pub usage : Usage
  pub tool_rounds : ℕ
  pub invoked : List (String × Fields)

abbrev pub refused : ErrorBlock → ToolResult
refused e = record { output = Fields.end; error = some e }

abbrev not_allowed : String → String → ErrorBlock
not_allowed name type =
    forbidden
      (append "tool " (append (quoted name) (append " is not allowed for payload_type=" type)))

-- tools.Invoke
abbrev pub invoke_tool : Env → ToolCall → State → ToolResult × State
invoke_tool env call st = (
  env.invoke (length st.invoked) call.name call.args,
  record st { invoked = (call.name, call.args) ∷ st.invoked },
)

abbrev pub counted : String → ToolResult × State → ToolResult × State
counted name (r, st) =
    (r, record st { counts = put name (suc (count_of name st.counts)) st.counts })

abbrev pub unless_refused : Option ErrorBlock → Env → ToolCall → State → ToolResult × State
unless_refused (some e) env call st = (refused e, st)
unless_refused none env call st = counted call.name (invoke_tool env call st)

-- The method `call`.
unfoldable pub call_tool :
    Env → InternalEvent → LlmRunOptions → ToolCall → State → ToolResult × State
unfolding cron_fire_tool_policy_error put equal_fold trim_space
call_tool env event opts call st =
    if not (tool_allowed call.name opts.allowed_tools)
    then (refused (not_allowed call.name event.payload.type), st)
    else if is_cron_fire event.payload.type
    then unless_refused (cron_fire_tool_policy_error call st.counts) env call st
    else invoke_tool env call st

-- toolResultString
abbrev pub tool_result_string : Env → ToolResult → String
tool_result_string env r = elim r.error [
  | some e ↦ append e.code (append ": " e.message)
  | none ↦ elim r.output [ Fields.end ↦ "{}" | fields ↦ env.encode fields ]
]

-- A tool's message, as it is recorded and as it is shown to the model.
abbrev pub tool_output : Env → LlmRunOptions → ToolCall → ToolResult → OutputMessage
tool_output env opts call r = record {
  role = "tool";
  content = tool_result_string env r;
  visible = opts.tool_visible;
  tool_calls = [];
  tool_call_id = call.tool_call_id;
  tool_name = call.name;
  tool_args = call.args;
  tool_result = r.output;
  meta = opts.message_meta;
}

abbrev pub tool_chat : Env → ToolCall → ToolResult → ModelMessage
tool_chat env call r = record {
  role = "tool";
  content = tool_result_string env r;
  tool_call_id = call.tool_call_id;
  tool_calls = [];
}

abbrev tool_execution : ToolCall → ToolResult → ToolExecution
tool_execution call r = record {
  tool_call_id = call.tool_call_id;
  name = call.name;
  args = call.args;
  result = r.output;
  error = r.error;
}

abbrev action_of : InternalEvent → ToolCall → ℕ → Action
action_of event call index = record {
  action_index = index;
  action_idempotency_key = append event.event_id (append ":" (decimal index));
  risk = tool_risk call.name;
  tool_name = call.name;
}

-- What the loop records of a tool's result.
abbrev pub tool_recorded :
    Env → InternalEvent → LlmRunOptions → ToolCall → ToolResult × State → State
tool_recorded env event opts call (r, st) = record st {
  executions = st.executions ++ tool_execution call r ∷ [];
  actions = st.actions ++ action_of event call (length st.actions) ∷ [];
  messages = st.messages ++ tool_output env opts call r ∷ [];
  chat = st.chat ++ tool_chat env call r ∷ [];
}

abbrev pub tool_step : Env → InternalEvent → LlmRunOptions → ToolCall → State → State
tool_step env event opts call st =
    tool_recorded env event opts call (call_tool env event opts call st)

-- The loop over the calls of one result.
unfoldable pub tool_steps : Env → InternalEvent → LlmRunOptions → List ToolCall → State → State
unfolding call_tool
tool_steps env event opts [] st = st
tool_steps env event opts (call ∷ calls) st =
    tool_steps env event opts calls (tool_step env event opts call st)
