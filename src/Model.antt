-- ===== src/Model.antt =====
-- pkg/model/types.go and internal/runtime/model/types.go: the data that the parts exchange.
pub mod Run
use simiclaw.Base.{ℕ, String, Bool, true, false, Option, List}

pub data EventStatus : Type 0 where
  received queued processing processed suppressed failed : EventStatus

pub data RunStatus : Type 0 where
  started completed failed : RunStatus

pub data OutboxStatus : Type 0 where
  pending sending sent retry_wait dead : OutboxStatus

pub data RunMode : Type 0 where
  normal no_reply : RunMode

pub data ScheduledJobKind : Type 0 where
  cron delayed retry : ScheduledJobKind

pub data ScheduledJobStatus : Type 0 where
  active paused : ScheduledJobStatus

pub record Conversation : Type 0 where
  pub conversation_id : String
  pub thread_id : String
  pub channel_type : String
  pub participant_id : String

pub record Attachment : Type 0 where
  pub attachment_id : String
  pub filename : String
  pub mime : String
  pub size : ℕ

-- `native` is raw JSON text.
pub record EventPayload : Type 0 where
  pub type : String
  pub text : String
  pub mentions : List String
  pub attachments : List Attachment
  pub native : String
  pub native_ref : String
  pub extra : List (String × String)

-- The values of a `map[string]any` that comes from JSON.
mutual
  pub data Fields : Type 0 where
    end : Fields
    key : String → Value → Fields → Fields

  pub data Value : Type 0 where
    object : Fields → Value
    array : Values → Value
    text number : String → Value
    boolean : Bool → Value
    null : Value

  pub data Values : Type 0 where
    stop : Values
    also : Value → Values → Values

pub record ErrorBlock : Type 0 where
  pub code : String
  pub message : String
  pub details : Fields

pub record ToolCall : Type 0 where
  pub tool_call_id : String
  pub name : String
  pub args : Fields

pub record WorkItem : Type 0 where
  pub event_id : String
  pub session_key : String
  pub lane_key : String
  pub source : String
  pub channel : String
  pub metadata : List (String × String)

pub data RuntimeEventKind : Type 0 where
  claimed executing reasoning_delta text_delta tool_started : RuntimeEventKind
  tool_finished finalize_started completed failed : RuntimeEventKind

pub record EventRecord : Type 0 where
  pub event_id : String
  pub status : EventStatus
  pub outbox_status : Option OutboxStatus
  pub session_key : String
  pub session_id : String
  pub run_id : String
  pub run_mode : RunMode
  pub assistant_reply : String
  pub outbox_id : String
  pub processing_lease : String
  pub received_at : ℕ
  pub created_at : ℕ
  pub updated_at : ℕ
  pub payload_hash : String
  pub provider : String
  pub model : String
  pub provider_request_id : String
  pub error : Option ErrorBlock

pub record RuntimeEvent : Type 0 where
  pub kind : RuntimeEventKind
  pub work : WorkItem
  pub event_id : String
  pub sequence : ℕ
  pub run_id : String
  pub session_key : String
  pub session_id : String
  pub status : String
  pub delta : String
  pub tool_call_id : String
  pub tool_name : String
  pub args : Fields
  pub result : Fields
  pub truncated : Bool
  pub message : String
  pub occurred_at : ℕ
  pub metadata : List (String × String)
  pub error : Option ErrorBlock
  pub event_record : Option EventRecord

unfoldable pub is_terminal : RuntimeEventKind → Bool
is_terminal RuntimeEventKind.completed = true
is_terminal RuntimeEventKind.failed = true
is_terminal _ = false
