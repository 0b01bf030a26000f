-- ===== src/Runtime/Payload.antt =====
-- internal/runtime/payload: the plan for each type of payload.
pub mod Agreement
use simiclaw.Base.{String, Bool, true, false, Option, none, some, List, [], ◌∷◌}
use simiclaw.Base.Dict.{get, put}
use simiclaw.Model.{RunMode, normal, no_reply}

pub data ExecutionKind : Type 0 where
  interactive memory_write suppressed_llm : ExecutionKind

pub data MemoryWriteTarget : Type 0 where
  nowhere daily curated : MemoryWriteTarget

-- Nil maps are empty lists. A plan's maps are copied before they are given out, which a value is.
pub record Plan : Type 0 where
  pub run_mode : RunMode
  pub kind : ExecutionKind
  pub suppress_output : Bool
  pub suppress_stream : Bool
  pub user_visible : Bool
  pub tool_visible : Bool
  pub final_assistant_visible : Bool
  pub allowed_tools : List String
  pub message_meta : List (String × String)
  pub memory_write_target : MemoryWriteTarget

pub record Handler : Type 0 where
  pub payload_type : String
  pub plan : Plan

abbrev pub Registry : Type 0
Registry = List (String × Handler)

abbrev pub new_registry : Registry
new_registry = []

-- Register
unfoldable pub register : Handler → Registry → Registry
unfolding put
register handler registry = put handler.payload_type handler registry

abbrev pub interactive_plan : Plan
interactive_plan = record {
  run_mode = normal;
  kind = interactive;
  suppress_output = false;
  suppress_stream = false;
  user_visible = true;
  tool_visible = true;
  final_assistant_visible = true;
  allowed_tools = [];
  message_meta = [];
  memory_write_target = nowhere;
}

abbrev pub plan_of : Option Handler → Plan
plan_of none = interactive_plan
plan_of (some handler) = handler.plan

-- Resolve
unfoldable pub resolve_plan : Registry → String → Plan
unfolding get
resolve_plan registry payload_type = plan_of (get payload_type registry)

abbrev pub message_handler : Handler
message_handler = record { payload_type = "message"; plan = interactive_plan }

-- What the plans without a reply share.
abbrev silent_plan : ExecutionKind → String → List String → MemoryWriteTarget → Plan
silent_plan kind payload_type tools target = record {
  run_mode = no_reply;
  kind = kind;
  suppress_output = true;
  suppress_stream = true;
  user_visible = false;
  tool_visible = false;
  final_assistant_visible = false;
  allowed_tools = tools;
  message_meta = ("payload_type", payload_type) ∷ [];
  memory_write_target = target;
}

abbrev pub memory_flush_handler : Handler
memory_flush_handler = record {
  payload_type = "memory_flush";
  plan = silent_plan memory_write "memory_flush" [] daily;
}

abbrev pub compaction_handler : Handler
compaction_handler = record {
  payload_type = "compaction";
  plan = silent_plan memory_write "compaction" [] curated;
}

abbrev pub cron_fire_handler : Handler
cron_fire_handler = record {
  payload_type = "cron_fire";
  plan =
      silent_plan suppressed_llm "cron_fire" ("memory_search" ∷ "memory_get" ∷ "context_get" ∷ [])
        nowhere;
}

-- RegisterBuiltins
unfoldable pub register_builtins : Registry → Registry
unfolding register
register_builtins registry = register cron_fire_handler (
    register compaction_handler (register memory_flush_handler (register message_handler registry)))

-- NewBuiltinRegistry
abbrev pub builtin_registry : Registry
builtin_registry = register_builtins new_registry
