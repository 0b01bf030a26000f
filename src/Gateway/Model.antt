-- ===== src/Gateway/Model.antt =====
-- internal/gateway/model/types.go and internal/gateway/contracts.go.
use simiclaw.Base.{ℕ, String, Bool, List}
use simiclaw.Model.{Conversation, EventPayload, RunMode}

-- A metadata map, where nil is the empty one.
abbrev pub Metadata : Type 0
Metadata = List (String × String)

pub record NormalizedIngress : Type 0 where
  pub source : String
  pub conversation : Conversation
  pub session_key_hint : String
  pub idempotency_key : String
  pub timestamp : ℕ
  pub dm_scope : String
  pub payload : EventPayload
  pub metadata : Metadata

pub record BindingContext : Type 0 where
  pub tenant_id : String
  pub session_key : String
  pub session_id : String
  pub scope : String
  pub conversation : Conversation
  pub metadata : Metadata

pub record RouteDecision : Type 0 where
  pub run_mode : RunMode
  pub payload_type : String
  pub suppress_output : Bool
  pub metadata : Metadata

pub record PersistRequest : Type 0 where
  pub source : String
  pub conversation : Conversation
  pub payload : EventPayload
  pub idempotency_key : String
  pub dm_scope : String

pub record PersistResult : Type 0 where
  pub event_id : String
  pub session_key : String
  pub session_id : String
  pub received_at : ℕ
  pub payload_hash : String
  pub duplicate : Bool
  pub existing_event_id : String
