-- ===== src/Store/Tables.antt =====
-- internal/store/schema.sql: a record for each row, in the order of the columns.
use simiclaw.Base.{ℕ, String, Bool, Option, List, []}
use simiclaw.Base.Time.{Stamp}
use simiclaw.Model.{
  EventStatus, RunStatus, OutboxStatus, RunMode, Conversation, EventPayload, Fields, ToolCall,
  ScheduledJobKind, ScheduledJobStatus,
}

pub record SessionRow : Type 0 where
  pub session_key : String
  pub active_session_id : String
  pub conversation_id : String
  pub channel_type : String
  pub participant_id : String
  pub dm_scope : String
  pub message_count : ℕ
  pub prompt_tokens_total : ℕ
  pub completion_tokens_total : ℕ
  pub total_tokens_total : ℕ
  pub last_model : String
  pub last_run_id : String
  pub last_activity_at : Stamp
  pub created_at : Stamp
  pub updated_at : Stamp

pub record ScopeRow : Type 0 where
  pub tenant_id : String
  pub conversation_id : String
  pub channel_type : String
  pub participant_id : String
  pub dm_scope : String
  pub updated_at : Stamp

pub record MessageRow : Type 0 where
  pub message_id : String
  pub session_key : String
  pub session_id : String
  pub run_id : String
  pub role : String
  pub content : String
  pub visible : Bool
  pub tool_call_id : String
  pub tool_name : String
  pub tool_args : Fields
  pub tool_result : Fields
  pub meta : Fields
  pub tool_calls : List ToolCall
  pub created_at : Stamp

pub record RunRow : Type 0 where
  pub run_id : String
  pub event_id : String
  pub session_key : String
  pub session_id : String
  pub run_mode : RunMode
  pub status : RunStatus
  pub provider : String
  pub model : String
  pub prompt_tokens : ℕ
  pub completion_tokens : ℕ
  pub total_tokens : ℕ
  pub latency_ms : ℕ
  pub finish_reason : String
  pub raw_finish_reason : String
  pub provider_request_id : String
  pub output_text : String
  pub tool_calls : List ToolCall
  pub diagnostics : List (String × String)
  pub error_code : String
  pub error_message : String
  pub started_at : Stamp
  pub finished_at : Stamp

-- `outbox_status` may be empty.
pub record EventRow : Type 0 where
  pub event_id : String
  pub source : String
  pub tenant_id : String
  pub conversation_id : String
  pub channel_type : String
  pub participant_id : String
  pub session_key : String
  pub session_id : String
  pub idempotency_key : String
  pub payload_type : String
  pub payload_text : String
  pub payload : EventPayload
  pub payload_hash : String
  pub status : EventStatus
  pub run_id : String
  pub run_mode : RunMode
  pub assistant_reply : String
  pub outbox_id : String
  pub outbox_status : Option OutboxStatus
  pub processing_started_at : Stamp
  pub provider : String
  pub model : String
  pub provider_request_id : String
  pub error_code : String
  pub error_message : String
  pub created_at : Stamp
  pub updated_at : Stamp

pub record KeyRow : Type 0 where
  pub key : String
  pub event_id : String
  pub payload_hash : String
  pub session_key : String
  pub session_id : String
  pub created_at : Stamp

pub record OutboxRow : Type 0 where
  pub outbox_id : String
  pub event_id : String
  pub session_key : String
  pub channel : String
  pub target_id : String
  pub body : String
  pub status : OutboxStatus
  pub next_attempt_at : Stamp
  pub locked_at : Stamp
  pub lock_owner : String
  pub attempt_count : ℕ
  pub last_error : String
  pub created_at : Stamp
  pub updated_at : Stamp
  pub sent_at : Stamp

pub record HeartbeatRow : Type 0 where
  pub worker_name : String
  pub beat_at : Stamp
  pub status : String
  pub details : String

pub record ScheduledJobPayload : Type 0 where
  pub source : String
  pub tenant_id : String
  pub conversation : Conversation
  pub payload : EventPayload
  pub interval_seconds : ℕ

pub record JobRow : Type 0 where
  pub job_id : String
  pub name : String
  pub kind : ScheduledJobKind
  pub status : ScheduledJobStatus
  pub payload : ScheduledJobPayload
  pub next_run_at : Stamp
  pub locked_at : Stamp
  pub lock_owner : String
  pub attempt_count : ℕ
  pub last_error : String
  pub created_at : Stamp
  pub updated_at : Stamp

pub record Db : Type 0 where
  pub sessions : List SessionRow
  pub scopes : List ScopeRow
  pub messages : List MessageRow
  pub runs : List RunRow
  pub events : List EventRow
  pub keys : List KeyRow
  pub outbox : List OutboxRow
  pub heartbeats : List HeartbeatRow
  pub jobs : List JobRow

abbrev pub empty_db : Db
empty_db = record {
  sessions = [];
  scopes = [];
  messages = [];
  runs = [];
  events = [];
  keys = [];
  outbox = [];
  heartbeats = [];
  jobs = [];
}
