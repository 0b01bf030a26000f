-- ===== src/Runner/Loop.antt =====
-- internal/runner/agent_executor.go: the loop between the model and the tools. The stream's callbacks
-- and the logs are left out.
pub mod Budget
pub mod Replay
use Prim.Native.String.{◌++◌ as append}
use simiclaw.Base.{
  ◌≡◌, refl, ap, ℕ, zero, suc, ◌+◌, String, Bool, true, false, not, Option, none, some, List, [],
  ◌∷◌, ◌++◌, length, ◌==ˢ◌, if◌then◌else◌,
}
use simiclaw.Base.Result.{Result, ok, err}
use simiclaw.Base.Text.{quoted, is_empty, trim_space, equal_fold}
use simiclaw.Base.Decimal.{decimal}
use simiclaw.Base.Dict.{put}
use simiclaw.Model.{RunMode, Fields, ToolCall, ErrorBlock}
use simiclaw.Model.Run.{InternalEvent}
use simiclaw.Runner.Model.{
  HistoryMessage, ModelMessage, Usage, ModelResult, ToolResult, OutputMessage,
}
use simiclaw.Runner.History.{no_calls, history_to_chat_messages, chat_from}
use simiclaw.Runner.Policy.{
  tool_allowed, is_cron_fire, cron_fire_tool_policy_error, count_of, tool_risk, forbidden,
}
use simiclaw.Runner.Tools.{tool_steps, LlmRunOptions, Env, State}

abbrev pub add_usage : Usage → Usage → Usage
add_usage u v = record {
  prompt_tokens = u.prompt_tokens + v.prompt_tokens;
  completion_tokens = u.completion_tokens + v.completion_tokens;
  total_tokens = u.total_tokens + v.total_tokens;
}

abbrev pub with_usage : ModelResult → State → State
with_usage last st = record st { usage = add_usage st.usage last.usage }

-- The assistant's message with its calls, as it is recorded and as it is shown to the model.
abbrev pub assistant_output : LlmRunOptions → ModelResult → OutputMessage
assistant_output opts last = record {
  role = "assistant";
  content = trim_space last.text;
  visible = false;
  tool_calls = last.tool_calls;
  tool_call_id = "";
  tool_name = "";
  tool_args = Fields.end;
  tool_result = Fields.end;
  meta = opts.message_meta;
}

abbrev pub assistant_chat : ModelResult → ModelMessage
assistant_chat last = record {
  role = "assistant";
  content = trim_space last.text;
  tool_call_id = "";
  tool_calls = last.tool_calls;
}

abbrev pub assistant_recorded : LlmRunOptions → ModelResult → State → State
assistant_recorded opts last st = record st {
  tool_rounds = suc st.tool_rounds;
  messages = st.messages ++ assistant_output opts last ∷ [];
  chat = st.chat ++ assistant_chat last ∷ [];
}

-- One round with tools.
abbrev pub tool_round : Env → InternalEvent → LlmRunOptions → ModelResult → State → State
tool_round env event opts last st =
    tool_steps env event opts last.tool_calls (assistant_recorded opts last (with_usage last st))

-- How the loop ends: with the model's error, or with its last result and the reply.
pub data Ended : Type 0 where
  provider_failed : String → Ended
  replied : ModelResult → String → Ended

-- maxToolRoundsReply
abbrev rounds_exhausted : String
rounds_exhausted = "工具调用轮次已达上限。"

abbrev reply_of_text : String → String
reply_of_text reply = if is_empty reply then rounds_exhausted else reply

abbrev pub max_tool_rounds_reply : ModelResult → String
max_tool_rounds_reply last = elim last.tool_calls [
  | [] ↦ reply_of_text (trim_space last.text)
  | call ∷ calls ↦ rounds_exhausted
]

abbrev pub ended_with : ModelResult → String → State → State × Ended
ended_with last reply st = (with_usage last st, replied last reply)

-- What the loop does with the model's answer: `more` is what it does with a result that has calls.
abbrev pub called :
    ModelResult → List ToolCall → (ModelResult → State × Ended) → State → State × Ended
called last [] more st = ended_with last (trim_space last.text) st
called last (call ∷ calls) more st = more last

abbrev pub answer :
    Result String ModelResult → (ModelResult → State × Ended) → State → State × Ended
answer (err e) more st = (st, provider_failed e)
answer (ok last) more st = called last last.tool_calls more st

-- `for round := 0; round <= maxToolRounds; round++`; the first number is that of the rounds left.
unfoldable pub rounds : Env → InternalEvent → LlmRunOptions → ℕ → ℕ → State → State × Ended
unfolding tool_steps
rounds env event opts zero round st =
    answer (env.stream_chat round st.chat) (λ last. ended_with last (max_tool_rounds_reply last) st)
      st
rounds env event opts (suc left) round st =
    answer (env.stream_chat round st.chat)
      (λ last. rounds env event opts left (suc round) (tool_round env event opts last st)) st

abbrev pub user_message : InternalEvent → LlmRunOptions → OutputMessage
user_message event opts = record {
  role = "user";
  content = trim_space event.payload.text;
  visible = opts.user_visible;
  tool_calls = [];
  tool_call_id = "";
  tool_name = "";
  tool_args = Fields.end;
  tool_result = Fields.end;
  meta = opts.message_meta;
}

-- The method `Assemble`: the messages before the user's.
abbrev pub prompt_messages : Env → List HistoryMessage → List ModelMessage
prompt_messages env history =
    record { role = "system"; content = env.system_prompt; tool_call_id = ""; tool_calls = [] }
    ∷ history_to_chat_messages history

abbrev pub start_state : Env → InternalEvent → LlmRunOptions → List HistoryMessage → State
start_state env event opts history = record {
  chat =
      prompt_messages env history
      ++ record {
        role = "user";
        content = trim_space event.payload.text;
        tool_call_id = "";
        tool_calls = [];
      }
        ∷ [];
  messages = user_message event opts ∷ [];
  counts = [];
  executions = [];
  actions = [];
  usage = record { prompt_tokens = 0; completion_tokens = 0; total_tokens = 0 };
  tool_rounds = 0;
  invoked = [];
}

-- The loop of `Execute`.
unfoldable pub run_loop :
    Env → InternalEvent → LlmRunOptions → List HistoryMessage → ℕ → State × Ended
unfolding rounds chat_from trim_space
run_loop env event opts history max_tool_rounds =
    rounds env event opts max_tool_rounds 0 (start_state env event opts history)

-- To prove a property of how the loop goes on from the model's answer.
pub answer_cases :
    (Q : State × Ended → Type 0) (r : Result String ModelResult)
    (more : ModelResult → State × Ended) (st : State)
    → ((e : String) → Q (st, provider_failed e))
    → ((last : ModelResult) (reply : String) → Q (ended_with last reply st))
    → ((last : ModelResult) → r ≡ ok last → no_calls last.tool_calls ≡ false → Q (more last))
    → Q (answer r more st)
answer_cases Q (err e) more st f g h = f e
answer_cases Q (ok last) more st f g h = split last.tool_calls refl
  where
    split : (calls : List ToolCall) → last.tool_calls ≡ calls → Q (called last calls more st)
    split [] e = g last (trim_space last.text)
    split (call ∷ calls) e = h last refl (ap no_calls e)
