-- ===== src/Runtime/Adapter.antt =====
-- internal/runtime: kernel_adapter.go and delivery_intent.go, the runner as the kernel's executor.
pub mod Delivery
pub mod Silent
mod Tests
use simiclaw.Base.{
  ℕ, zero, suc, String, Bool, true, false, ◌||◌, Option, none, some, List, [], ◌∷◌, ◌==ˢ◌,
  if◌then◌else◌,
}
use simiclaw.Base.Result.{Result, ok, err}
use simiclaw.Base.Text.{is_empty, trim_space}
use simiclaw.Base.Integer.{parse_int, format_int}
use simiclaw.Base.Dict.{get}
use simiclaw.Model.{RunMode}
use simiclaw.Model.Run.{InternalEvent, ClaimContext, StoredMessage, DeliveryIntent, ExecutionResult}
use simiclaw.Runtime.Payload.{Registry}
use simiclaw.Runtime.Kernel.{Execution, returned}
use simiclaw.Runner.Model.{OutputMessage}
use simiclaw.Runner.Output.{RunOutput}
use simiclaw.Runner.Run as Run
use simiclaw.Runner.Tools

abbrev pub missing_chat : String
missing_chat = "telegram event missing payload.extra.telegram_chat_id"

abbrev pub or_empty : Option String → String
or_empty none = ""
or_empty (some s) = s

abbrev pub formatted : Option ℕ → Result String String
formatted none = err "invalid payload.extra.telegram_chat_id"
formatted (some chat_id) = ok (format_int chat_id)

-- telegramTargetID
unfoldable pub telegram_target_id : InternalEvent → Result String String
unfolding get parse_int format_int trim_space
telegram_target_id event =
    let raw = trim_space (or_empty (get "telegram_chat_id" event.payload.extra)) in
    if is_empty raw then err missing_chat else formatted (parse_int raw)

abbrev pub plain_intent : String → DeliveryIntent
plain_intent reply = record { channel = ""; target_id = ""; body = reply; metadata = [] }

abbrev pub to_telegram : String → Result String String → Result String (Option DeliveryIntent)
to_telegram reply (err e) = err e
to_telegram reply (ok chat_id) =
    ok (some (record (plain_intent reply) { channel = "telegram"; target_id = chat_id }))

-- Resolve of deliveryIntentResolver.
unfoldable pub resolve_delivery : InternalEvent → String → Result String (Option DeliveryIntent)
unfolding telegram_target_id trim_space
resolve_delivery event reply =
    if is_empty (trim_space reply)
    then ok none
    else if event.source ==ˢ "telegram"
    then to_telegram reply (telegram_target_id event)
    else ok (some (plain_intent reply))

abbrev stored : OutputMessage → StoredMessage
stored m = record {
  message_id = "";
  session_key = "";
  session_id = "";
  run_id = "";
  role = m.role;
  content = m.content;
  visible = m.visible;
  tool_calls = m.tool_calls;
  tool_call_id = m.tool_call_id;
  tool_name = m.tool_name;
  tool_args = m.tool_args;
  tool_result = m.tool_result;
  meta = m.meta;
  created_at = 0;
}

abbrev stored_all : List OutputMessage → List StoredMessage
stored_all [] = []
stored_all (m ∷ ms) = stored m ∷ stored_all ms

abbrev or_claimed : Option RunMode → RunMode → RunMode
or_claimed none mode = mode
or_claimed (some m) mode = m

-- The result before the delivery is resolved. The run's latency and diagnostics are left out.
abbrev pub base_result : ClaimContext → RunOutput → ExecutionResult
base_result claim output = record {
  run_mode = some (or_claimed output.run_mode claim.run_mode);
  assistant_reply = output.assistant_reply;
  output_messages = stored_all output.messages;
  tool_calls = output.tool_calls;
  diagnostics = [];
  delivery = none;
  suppress_output = output.suppress_output;
  provider = output.provider;
  model = output.model;
  prompt_tokens = output.usage.prompt_tokens;
  completion_tokens = output.usage.completion_tokens;
  total_tokens = output.usage.total_tokens;
  latency_ms = 0;
  finish_reason = output.finish_reason;
  raw_finish_reason = output.raw_finish_reason;
  provider_request_id = output.provider_request_id;
  output_text = output.output_text;
  error = none;
}

abbrev with_intent :
    ExecutionResult → Result String (Option DeliveryIntent) → ExecutionResult × Option String
with_intent result (err e) = (record result { assistant_reply = "" }, some e)
with_intent result (ok intent) = (record result { delivery = intent }, none)

-- Translate
unfoldable pub translate : ClaimContext → RunOutput → ExecutionResult × Option String
unfolding resolve_delivery trim_space
translate claim output =
    if output.suppress_output || is_empty (trim_space output.assistant_reply)
    then (base_result claim output, none)
    else with_intent (base_result claim output)
        (resolve_delivery claim.event output.assistant_reply)

-- firstExecutionError
abbrev pub first_error : Option String → Option String → Option String
first_error none translate_error = translate_error
first_error (some e) translate_error = some e

-- normalizeMaxToolRounds
abbrev normalize_max_tool_rounds : ℕ → ℕ
normalize_max_tool_rounds zero = 4
normalize_max_tool_rounds (suc n) = suc n

-- Execute of runnerExecutor.
unfoldable pub execute_run :
    (ClaimContext → Tools.Env) → Option Registry → ℕ → ClaimContext → Execution
unfolding Run.run translate
execute_run env payloads max_rounds claim =
    let (output, run_error, writes) =
      Run.run (env claim) payloads claim.event (normalize_max_tool_rounds max_rounds) in
    let (result, translate_error) = translate claim output in
    returned result (first_error run_error translate_error)
