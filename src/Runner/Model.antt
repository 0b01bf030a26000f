-- ===== src/Runner/Model.antt =====
-- internal/runner/runner.go, internal/runner/model and internal/runtime/kernel/contracts.go: the data of
-- a run. A nil map is an empty one.
use simiclaw.Base.{ℕ, String, Bool, Option, none, some, List, ◌==ˢ◌, if◌then◌else◌}
use simiclaw.Model.{Fields, Value, ToolCall, ErrorBlock}

pub record HistoryMessage : Type 0 where
  pub role : String
  pub content : String
  pub tool_calls : List ToolCall
  pub tool_call_id : String
  pub tool_name : String
  pub meta : Fields

pub record ModelMessage : Type 0 where
  pub role : String
  pub content : String
  pub tool_call_id : String
  pub tool_calls : List ToolCall

pub record Usage : Type 0 where
  pub prompt_tokens : ℕ
  pub completion_tokens : ℕ
  pub total_tokens : ℕ

pub record ModelResult : Type 0 where
  pub text : String
  pub tool_calls : List ToolCall
  pub finish_reason : String
  pub raw_finish_reason : String
  pub usage : Usage
  pub provider : String
  pub model : String
  pub provider_request_id : String

pub record ToolResult : Type 0 where
  pub output : Fields
  pub error : Option ErrorBlock

pub record OutputMessage : Type 0 where
  pub role : String
  pub content : String
  pub visible : Bool
  pub tool_calls : List ToolCall
  pub tool_call_id : String
  pub tool_name : String
  pub tool_args : Fields
  pub tool_result : Fields
  pub meta : Fields

-- m[key]
unfoldable pub field_of : String → Fields → Option Value
field_of k Fields.end = none
field_of k (Fields.key j v rest) = if j ==ˢ k then some v else field_of k rest

-- A type assertion to `string`, which gives the empty text where it fails.
abbrev pub text_of : Option Value → String
text_of (some (Value.text s)) = s
text_of _ = ""
