-- ===== src/Model/Run.antt =====
-- pkg/model/types.go and internal/runtime/model/types.go: a claimed event, its run and its messages.
use simiclaw.Base.{ℕ, String, Bool, Option, List}
use simiclaw.Model.{
  Conversation, EventPayload, RunMode, RunStatus, EventStatus, WorkItem, ToolCall, Fields,
  ErrorBlock,
}

pub record InternalEvent : Type 0 where
  pub event_id : String
  pub source : String
  pub tenant_id : String
  pub scopes : List String
  pub conversation : Conversation
  pub session_key : String
  pub idempotency_key : String
  pub timestamp : ℕ
  pub payload : EventPayload
  pub active_session_id : String

pub record ClaimContext : Type 0 where
  pub work : WorkItem
  pub event : InternalEvent
  pub run_id : String
  pub run_mode : RunMode
  pub session_key : String
  pub session_id : String
  pub source : String
  pub channel : String
  pub metadata : List (String × String)

pub record StoredMessage : Type 0 where
  pub message_id : String
  pub session_key : String
  pub session_id : String
  pub run_id : String
  pub role : String
  pub content : String
  pub visible : Bool
  pub tool_calls : List ToolCall
  pub tool_call_id : String
  pub tool_name : String
  pub tool_args : Fields
  pub tool_result : Fields
  pub meta : Fields
  pub created_at : ℕ

-- RunFinalize, also called FinalizeCommand.
pub record FinalizeCommand : Type 0 where
  pub run_id : String
  pub event_id : String
  pub session_key : String
  pub session_id : String
  pub run_mode : RunMode
  pub run_status : RunStatus
  pub event_status : EventStatus
  pub provider : String
  pub model : String
  pub prompt_tokens : ℕ
  pub completion_tokens : ℕ
  pub total_tokens : ℕ
  pub latency_ms : ℕ
  pub finish_reason : String
  pub raw_finish_reason : String
  pub provider_request_id : String
  pub output_text : String
  pub tool_calls : List ToolCall
  pub diagnostics : List (String × String)
  pub error : Option ErrorBlock
  pub assistant_reply : String
  pub messages : List StoredMessage
  pub outbox_channel : String
  pub outbox_target_id : String
  pub outbox_body : String
  pub now : ℕ

pub record DeliveryIntent : Type 0 where
  pub channel : String
  pub target_id : String
  pub body : String
  pub metadata : List (String × String)

-- `run_mode` may be empty.
pub record ExecutionResult : Type 0 where
  pub run_mode : Option RunMode
  pub assistant_reply : String
  pub output_messages : List StoredMessage
  pub tool_calls : List ToolCall
  pub diagnostics : List (String × String)
  pub delivery : Option DeliveryIntent
  pub suppress_output : Bool
  pub provider : String
  pub model : String
  pub prompt_tokens : ℕ
  pub completion_tokens : ℕ
  pub total_tokens : ℕ
  pub latency_ms : ℕ
  pub finish_reason : String
  pub raw_finish_reason : String
  pub provider_request_id : String
  pub output_text : String
  pub error : Option ErrorBlock

pub record ClaimedOutbox : Type 0 where
  pub outbox_id : String
  pub event_id : String
  pub session_key : String
  pub channel : String
  pub target_id : String
  pub body : String
  pub attempt_count : ℕ
  pub created_at : ℕ
