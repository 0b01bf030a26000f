-- ===== src/Runtime/Adapter/Tests.antt =====
-- internal/runtime: the delivery of a reply, and a run without one.
use simiclaw.Base.{◌==◌, if◌then◌else◌, ℕ, ◌≡◌, refl, String, false, none, some, List, [], ◌∷◌}
use simiclaw.Base.Result.{ok}
use simiclaw.Base.Text.{trim_space}
use simiclaw.Base.Integer.{parse_int, format_int}
use simiclaw.Base.Dict.{get}
use simiclaw.Model.{Fields, no_reply}
use simiclaw.Model.Run.{InternalEvent, ClaimContext, ClaimedOutbox, DeliveryIntent}
use simiclaw.Store.Claim.{run_mode_for}
use simiclaw.Store.Finalize.{has_delivery}
use simiclaw.Outbound.Sender.{TelegramTextSender, telegram_send}
use simiclaw.Runtime.Payload.{builtin_registry}
use simiclaw.Runtime.Kernel.{Env, returned, empty_result, command}
use simiclaw.Runner.Tools
use simiclaw.Runtime.Adapter.{execute_run, resolve_delivery, telegram_target_id, plain_intent}
use simiclaw.Runtime.Adapter.Delivery.{chat_text, resolve_delivery-telegram_send}
use simiclaw.Runtime.Adapter.Silent.{command-silent}

abbrev event_of : String → List (String × String) → InternalEvent
event_of type extra = record {
  event_id = "evt_1";
  source = "telegram";
  tenant_id = "local";
  scopes = [];
  conversation = record {
    conversation_id = "c";
    thread_id = "";
    channel_type = "dm";
    participant_id = "p";
  };
  session_key = "s";
  idempotency_key = "k";
  timestamp = 5;
  payload = record {
    type = type;
    text = "hi";
    mentions = [];
    attachments = [];
    native = "";
    native_ref = "";
    extra = extra;
  };
  active_session_id = "ses";
}

abbrev from_chat : InternalEvent
from_chat = event_of "message" (("telegram_chat_id", " 42") ∷ [])

abbrev msg : ClaimedOutbox
msg = record {
  outbox_id = "out_1";
  event_id = "evt_1";
  session_key = "s";
  channel = "telegram";
  target_id = "42";
  body = "hello";
  attempt_count = 0;
  created_at = 5;
}

-- Telegram's client, which fails for every chat but one.
abbrev only_42 : TelegramTextSender
only_42 chat text = if chat == 42 then none else some "no such chat"

abbrev to_42 : DeliveryIntent
to_42 = record (plain_intent "hello") { channel = "telegram"; target_id = "42" }

resolve_delivery-telegram_send_example :
    (chat : ℕ) × (parse_int (chat_text from_chat) ≡ some chat)
    × (to_42.channel ≡ "telegram")
    × (telegram_send only_42 msg ≡ only_42 chat "hello")
unfolding resolve_delivery telegram_target_id parse_int format_int trim_space get
resolve_delivery-telegram_send_example =
    resolve_delivery-telegram_send from_chat "hello" to_42 only_42 msg refl refl refl refl

abbrev claim_of : String → ClaimContext
claim_of type = record {
  work = record {
    event_id = "evt_1";
    session_key = "s";
    lane_key = "";
    source = "telegram";
    channel = "";
    metadata = [];
  };
  event = event_of type [];
  run_id = "run_1";
  run_mode = no_reply;
  session_key = "s";
  session_id = "ses";
  source = "telegram";
  channel = "";
  metadata = [];
}

abbrev env : Env
env = record {
  claimed_at = 7;
  finalized_at = 8;
  failed_at = 9;
  counter = 0;
  executor = λ c. returned empty_result none;
  progress = λ c. [];
  meanwhile = λ d. d;
  view = λ d id. none;
  describe = λ e. "error";
}

-- A model that would reply.
abbrev runner : ClaimContext → Tools.Env
runner claim = record {
  stream_chat = λ n chat. ok (record {
    text = "hello";
    tool_calls = [];
    finish_reason = "";
    raw_finish_reason = "";
    usage = record { prompt_tokens = 1; completion_tokens = 2; total_tokens = 3 };
    provider = "fake";
    model = "m";
    provider_request_id = "";
  });
  invoke = λ n name args. record { output = Fields.end; error = none };
  encode = λ fields. "{..}";
  system_prompt = "You are";
  resolved = ok tt;
  history = ok [];
}

cron_no_reply : run_mode_for (claim_of "cron_fire").event.payload.type ≡ no_reply
cron_no_reply = refl

command-silent_example :
    has_delivery (
      command
        (record env { executor = execute_run runner (some builtin_registry) 4 })
        (claim_of "cron_fire"))
    ≡ false
command-silent_example = command-silent runner 4 env (claim_of "cron_fire") cron_no_reply
