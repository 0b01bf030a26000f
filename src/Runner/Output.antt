-- ===== src/Runner/Output.antt =====
-- internal/runner/agent_executor.go: what a run of the loop gives to the kernel.
use simiclaw.Base.{ℕ, String, Bool, false, Option, none, some, List, [], ◌∷◌, ◌++◌, if◌then◌else◌}
use simiclaw.Base.Result.{Result, ok, err}
use simiclaw.Base.Text.{is_empty}
use simiclaw.Model.{RunMode, Fields, ToolCall}
use simiclaw.Model.Run.{InternalEvent}
use simiclaw.Runner.Model.{HistoryMessage, Usage, OutputMessage}
use simiclaw.Runner.Tools.{LlmRunOptions, Env, State}
use simiclaw.Runner.Loop.{run_loop, Ended, provider_failed, replied}

-- RunOutput, with the columns of its trace that are stored but its latency and diagnostics. `run_mode`
-- may be empty.
pub record RunOutput : Type 0 where
  pub run_mode : Option RunMode
  pub messages : List OutputMessage
  pub assistant_reply : String
  pub suppress_output : Bool
  pub tool_calls : List ToolCall
  pub provider : String
  pub model : String
  pub usage : Usage
  pub finish_reason : String
  pub raw_finish_reason : String
  pub provider_request_id : String
  pub output_text : String

abbrev pub no_output : Option RunMode → List OutputMessage → RunOutput
no_output mode messages = record {
  run_mode = mode;
  messages = messages;
  assistant_reply = "";
  suppress_output = false;
  tool_calls = [];
  provider = "";
  model = "";
  usage = record { prompt_tokens = 0; completion_tokens = 0; total_tokens = 0 };
  finish_reason = "";
  raw_finish_reason = "";
  provider_request_id = "";
  output_text = "";
}

abbrev pub reply_message : LlmRunOptions → String → OutputMessage
reply_message opts reply = record {
  role = "assistant";
  content = reply;
  visible = opts.final_assistant_visible;
  tool_calls = [];
  tool_call_id = "";
  tool_name = "";
  tool_args = Fields.end;
  tool_result = Fields.end;
  meta = opts.message_meta;
}

-- An empty reply is not recorded. (`if reply == ""` before it sets the same text again.)
abbrev pub with_reply : LlmRunOptions → String → List OutputMessage → List OutputMessage
with_reply opts reply messages =
    if is_empty reply then messages else messages ++ reply_message opts reply ∷ []

abbrev pub output_of : LlmRunOptions → State × Ended → RunOutput × Option String
output_of opts (st, provider_failed e) = (no_output (some opts.run_mode) st.messages, some e)
output_of opts (st, replied last reply) = (
  record {
    run_mode = some opts.run_mode;
    messages = with_reply opts reply st.messages;
    assistant_reply = if opts.suppress_output then "" else reply;
    suppress_output = opts.suppress_output;
    tool_calls = last.tool_calls;
    provider = last.provider;
    model = last.model;
    usage = st.usage;
    finish_reason = last.finish_reason;
    raw_finish_reason = last.raw_finish_reason;
    provider_request_id = last.provider_request_id;
    output_text = reply;
  },
  none,
)

abbrev pub with_history :
    Env
    → InternalEvent
    → LlmRunOptions
    → ℕ
    → Result String (List HistoryMessage)
    → RunOutput × Option String
with_history env event opts max_tool_rounds (err e) = (no_output (some opts.run_mode) [], some e)
with_history env event opts max_tool_rounds (ok history) =
    output_of opts (run_loop env event opts history max_tool_rounds)

abbrev pub with_model :
    Env → InternalEvent → LlmRunOptions → ℕ → Result String (Unit {0}) → RunOutput × Option String
with_model env event opts max_tool_rounds (err e) = (no_output (some opts.run_mode) [], some e)
with_model env event opts max_tool_rounds (ok u) =
    with_history env event opts max_tool_rounds env.history

-- Execute of llmAgentExecutor.
unfoldable pub execute_llm : Env → InternalEvent → LlmRunOptions → ℕ → RunOutput × Option String
unfolding run_loop
execute_llm env event opts max_tool_rounds = with_model env event opts max_tool_rounds env.resolved
