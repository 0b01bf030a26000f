-- ===== src/Runner/Tests.antt =====
-- internal/runner on a small run: one round with a tool, then the reply.
use mathlib.Core.Path.{subst}
use simiclaw.Base.{
  ◌≢◌, ◌==ˢ◌, arith, eq_iff, ℕ, suc, zero, ◌≤◌, ◌≡◌, refl, String, true, false, none, List, [], ◌∷◌,
  ◌++◌, map, ◌⊎◌, inl, inr,
}
use simiclaw.Base.Result.{Result, ok}
use simiclaw.Base.Text.{trim_space, equal_fold}
use simiclaw.Base.Dict.{get, put}
use simiclaw.Base.Path.{clean}
use simiclaw.Model.{Fields, Value, Values, ToolCall, normal}
use simiclaw.Model.Run.{InternalEvent}
use simiclaw.Runner.Model.{HistoryMessage, ModelMessage, ModelResult, field_of}
use simiclaw.Runner.History.{chat_from, history_to_chat_messages}
use simiclaw.Runner.History.Answers.{Answered, history_to_chat_messages-Answered}
use simiclaw.Runner.Policy.{cron_fire_tool_policy_error}
use simiclaw.Runner.Display.{Any, Entries, sanitize_display_map, redacted, sanitize_display_value}
use simiclaw.Runner.Display.Redacted.{Others, Clean, sanitize_display_value-Clean}
use simiclaw.Runner.Tools.{Env, LlmRunOptions, call_tool, tool_steps}
use simiclaw.Runner.Loop.{rounds, run_loop, prompt_messages}
use simiclaw.Runner.Loop.Budget.{times, run_loop-budget}
use simiclaw.Runner.Loop.Replay.{WellFormed, as_history, run_loop-replay}

abbrev event : InternalEvent
event = record {
  event_id = "evt_1";
  source = "cron";
  tenant_id = "local";
  scopes = [];
  conversation = record {
    conversation_id = "c";
    thread_id = "";
    channel_type = "dm";
    participant_id = "p";
  };
  session_key = "s";
  idempotency_key = "k";
  timestamp = 5;
  payload = record {
    type = "cron_fire";
    text = "go";
    mentions = [];
    attachments = [];
    native = "";
    native_ref = "";
    extra = [];
  };
  active_session_id = "ses";
}

abbrev search : String → ToolCall
search id = record { tool_call_id = id; name = "memory_search"; args = Fields.end }

abbrev said : String → List ToolCall → ModelResult
said text calls = record {
  text = text;
  tool_calls = calls;
  finish_reason = "";
  raw_finish_reason = "";
  usage = record { prompt_tokens = 1; completion_tokens = 2; total_tokens = 3 };
  provider = "fake";
  model = "m";
  provider_request_id = "";
}

-- It searches twice in the first round.
abbrev model : ℕ → List ModelMessage → Result String ModelResult
model zero chat = ok (said "" (search "a" ∷ search "b" ∷ []))
model (suc n) chat = ok (said "done" [])

abbrev env : Env
env = record {
  stream_chat = model;
  invoke = λ n name args. record {
    output = Fields.key "hits" (Value.text "none") Fields.end;
    error = none;
  };
  encode = λ fields. "{..}";
  system_prompt = "You are";
  resolved = ok tt;
  history = ok [];
}

abbrev opts : LlmRunOptions
opts = record {
  run_mode = normal;
  suppress_output = false;
  user_visible = true;
  tool_visible = false;
  final_assistant_visible = true;
  message_meta = Fields.end;
  allowed_tools = "memory_search" ∷ [];
}

-- The second search is over the budget.
one_search : (run_loop env event opts [] 4).0.invoked ≡ ("memory_search", Fields.end) ∷ []
unfolding run_loop rounds tool_steps call_tool cron_fire_tool_policy_error chat_from field_of
    equal_fold trim_space get put clean
one_search = refl

run_loop-budget_example : times "memory_search" (run_loop env event opts [] 4).0.invoked ≤ 1
unfolding trim_space equal_fold get
run_loop-budget_example = run_loop-budget "memory_search" 1 env event opts [] 4 refl refl

differ : (s t : String) → (s ==ˢ t) ≡ false → s ≢ t
differ s t h e = ground (arith, h, eq_iff s t, e)

two_searches-WellFormed : WellFormed (search "a" ∷ search "b" ∷ [])
unfolding trim_space
two_searches-WellFormed = ((refl, (refl, tt)), ((differ "a" "b" refl, tt), (tt, tt)))

same_calls :
    (r s : ModelResult)
    → Path (Result String ModelResult) (ok r) (ok s)
    → WellFormed r.tool_calls
    → WellFormed s.tool_calls
same_calls r s h = subst (λ (l : ModelResult). WellFormed l.tool_calls) {x = r} {y = s} (cc)

model-WellFormed :
    (round : ℕ) (chat : List ModelMessage) (last : ModelResult)
    → model round chat ≡ ok last
    → WellFormed last.tool_calls
model-WellFormed zero chat last h = same_calls _ last h two_searches-WellFormed
model-WellFormed (suc n) chat last h = same_calls _ last h (tt, tt)

run_loop-replay_example :
    (run_loop env event opts [] 4).0.chat
    ≡ prompt_messages env []
      ++ history_to_chat_messages (map as_history (run_loop env event opts [] 4).0.messages)
unfolding field_of
run_loop-replay_example = run_loop-replay env event opts [] 4 refl model-WellFormed

abbrev message : String → List ToolCall → String → HistoryMessage
message role calls id = record {
  role = role;
  content = "x";
  tool_calls = calls;
  tool_call_id = id;
  tool_name = "";
  meta = Fields.end;
}

-- A window of the history that begins with an answer, which is left out.
abbrev cut : List HistoryMessage
cut = message "tool" [] "z" ∷ message "assistant" (search "a" ∷ []) "" ∷ message "tool" [] "a" ∷ []

history_to_chat_messages-Answered_example : Answered [] (chat_from [] cut)
history_to_chat_messages-Answered_example = history_to_chat_messages-Answered [] cut

-- The hits of memory_search, a slice of structs.
abbrev hits : Value
hits =
    Value.array
      (Values.also (Value.object (Fields.key "token" (Value.text "s3") Fields.end)) Values.stop)

-- A token in a result, beside them.
abbrev with_token : Any
with_token =
    Any.object
      (Entries.entry "api_key" (Any.text "s3") (Entries.entry "hits" (Any.other hits) Entries.end))

abbrev Known : Value → Type 0
Known w = (w ≡ Value.boolean true) ⊎ (w ≡ hits)

sanitize_display_value-Clean_example : Clean Known 4 (sanitize_display_value 4 "" with_token).0
unfolding Others
sanitize_display_value-Clean_example =
    sanitize_display_value-Clean Known 4 "" with_token (inl refl) (tt, (inr refl, tt))

-- A value of another type is shown whole.
shown_test :
    sanitize_display_map (
      Entries.entry "Auth_Token"
        (Any.other (Value.number "7"))
        (Entries.entry "hits" (Any.other hits) Entries.end))
    ≡ (
      Any.object
          (Entries.entry "Auth_Token" redacted (Entries.entry "hits" (Any.other hits) Entries.end)),
      false,
    )
unfolding sanitize_display_map
shown_test = refl
