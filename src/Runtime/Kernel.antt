-- ===== src/Runtime/Kernel.antt =====
-- internal/runtime/kernel: service.go, claim.go and finalize.go.
pub mod Finalizing
pub mod Processing
use Prim.Native.String.{◌++◌ as append}
use simiclaw.Base.{
  ℕ, zero, suc, ◌+◌, ◌-◌, String, Bool, true, false, Option, none, some, List, [], ◌∷◌, ◌++◌,
  if◌then◌else◌,
}
use simiclaw.Base.Result.{Result, ok, err}
use simiclaw.Base.Decimal.{decimal}
use simiclaw.Model.{
  EventStatus, processed, suppressed, RunStatus, RunMode, WorkItem, ErrorBlock, Fields,
  RuntimeEventKind, claimed, executing, finalize_started, EventRecord, RuntimeEvent,
}
use simiclaw.Model.Run.{
  ClaimContext, StoredMessage, FinalizeCommand, DeliveryIntent, ExecutionResult,
}
use simiclaw.Store.Tables.{Db}
use simiclaw.Store.Sql.{
  DbError, epoch, with_writer_tx, no_mutation, idempotency_conflict, constraint,
}
use simiclaw.Store.Claim.{claim_work}
use simiclaw.Store.Finalize.{finalize}

-- `<prefix>%d_%d` of a time's UnixNano and a number.
abbrev pub numbered : String → ℕ → ℕ → String
numbered prefix now n = append prefix (append (decimal (now - epoch)) (append "_" (decimal n)))

-- What an executor does with a claim: it returns, maybe with an error, or it panics.
pub data Execution : Type 0 where
  returned : ExecutionResult → Option String → Execution
  panicked : String → Execution

abbrev pub empty_result : ExecutionResult
empty_result = record {
  run_mode = none;
  assistant_reply = "";
  output_messages = [];
  tool_calls = [];
  diagnostics = [];
  delivery = none;
  suppress_output = false;
  provider = "";
  model = "";
  prompt_tokens = 0;
  completion_tokens = 0;
  total_tokens = 0;
  latency_ms = 0;
  finish_reason = "";
  raw_finish_reason = "";
  provider_request_id = "";
  output_text = "";
  error = none;
}

abbrev or_mode : Option RunMode → RunMode → RunMode
or_mode none mode = mode
or_mode (some m) mode = m

abbrev with_mode : ClaimContext → ExecutionResult → ExecutionResult
with_mode claim r = record r { run_mode = some (or_mode r.run_mode claim.run_mode) }

-- execute
abbrev pub execute : ClaimContext → Execution → ExecutionResult × Option String
execute claim (returned r e) = (with_mode claim r, e)
execute claim (panicked text) = (with_mode claim empty_result, some (append "runner panic: " text))

-- storedMessages; the counter goes up by one for each message.
unfoldable pub stored_messages : ℕ → ℕ → ClaimContext → List StoredMessage → List StoredMessage
stored_messages now counter claim [] = []
stored_messages now counter claim (m ∷ ms) =
    record m {
      message_id = numbered "msg_" now (suc counter);
      session_key = claim.session_key;
      session_id = claim.session_id;
      run_id = claim.run_id;
      created_at = now;
    }
    ∷ stored_messages now (suc counter) claim ms

-- The command before the branches of `buildFinalize`.
abbrev base_finalize : ℕ → ℕ → ClaimContext → ExecutionResult → FinalizeCommand
base_finalize now counter claim result = record {
  run_id = claim.run_id;
  event_id = claim.event.event_id;
  session_key = claim.session_key;
  session_id = claim.session_id;
  run_mode = or_mode result.run_mode claim.run_mode;
  run_status = RunStatus.completed;
  event_status = processed;
  provider = result.provider;
  model = result.model;
  prompt_tokens = result.prompt_tokens;
  completion_tokens = result.completion_tokens;
  total_tokens = result.total_tokens;
  latency_ms = result.latency_ms;
  finish_reason = result.finish_reason;
  raw_finish_reason = result.raw_finish_reason;
  provider_request_id = result.provider_request_id;
  output_text = result.output_text;
  tool_calls = result.tool_calls;
  diagnostics = result.diagnostics;
  error = none;
  assistant_reply = "";
  messages = stored_messages now counter claim result.output_messages;
  outbox_channel = "";
  outbox_target_id = "";
  outbox_body = "";
  now = now;
}

abbrev internal_error : String → ErrorBlock
internal_error text = record { code = "INTERNAL"; message = text; details = Fields.end }

abbrev with_delivery : Option DeliveryIntent → FinalizeCommand → FinalizeCommand
with_delivery none cmd = cmd
with_delivery (some d) cmd = record cmd {
  outbox_channel = d.channel;
  outbox_target_id = d.target_id;
  outbox_body = d.body;
}

abbrev with_reply : Bool → ExecutionResult → FinalizeCommand → FinalizeCommand
with_reply true result cmd = record cmd { event_status = suppressed }
with_reply false result cmd =
    with_delivery result.delivery (record cmd { assistant_reply = result.assistant_reply })

abbrev with_outcome : Option String → ExecutionResult → FinalizeCommand → FinalizeCommand
with_outcome (some text) result cmd = record cmd {
  run_status = RunStatus.failed;
  event_status = EventStatus.failed;
  error = some (internal_error text);
}
with_outcome none result cmd = with_reply result.suppress_output result cmd

-- buildFinalize
unfoldable pub build_finalize :
    ℕ → ℕ → ClaimContext → ExecutionResult → Option String → FinalizeCommand
unfolding stored_messages
build_finalize now counter claim result run_error =
    with_outcome run_error result (base_finalize now counter claim result)

abbrev status_text : EventStatus → String
status_text EventStatus.received = "received"
status_text EventStatus.queued = "queued"
status_text EventStatus.processing = "processing"
status_text EventStatus.processed = "processed"
status_text EventStatus.suppressed = "suppressed"
status_text EventStatus.failed = "failed"

abbrev pub runtime_event : RuntimeEventKind → ClaimContext → String → String → ℕ → RuntimeEvent
runtime_event kind claim status message now = record {
  kind = kind;
  work = claim.work;
  event_id = claim.event.event_id;
  sequence = 0;
  run_id = claim.run_id;
  session_key = claim.session_key;
  session_id = claim.session_id;
  status = status;
  delta = "";
  tool_call_id = "";
  tool_name = "";
  args = Fields.end;
  result = Fields.end;
  truncated = false;
  message = message;
  occurred_at = now;
  metadata = [];
  error = none;
  event_record = none;
}

abbrev final_kind : EventStatus → RuntimeEventKind
final_kind EventStatus.failed = RuntimeEventKind.failed
final_kind _ = RuntimeEventKind.completed

abbrev pub final_event : ClaimContext → FinalizeCommand → Option EventRecord → RuntimeEvent
final_event claim cmd rec =
    record (runtime_event (final_kind cmd.event_status) claim "" (status_text cmd.event_status)
      cmd.now) { error = cmd.error; event_record = rec }

abbrev pub lost_event : ClaimContext → String → ℕ → RuntimeEvent
lost_event claim text now =
    record (runtime_event RuntimeEventKind.failed claim "" "finalize failed" now) {
      error = some (internal_error text);
    }

-- What `Process` depends on: the readings of the clock, the counter of ids, the executor with the
-- events it publishes itself, the writes that other parts make while it runs, the event
-- view and the texts of the database's errors.
pub record Env : Type 0 where
  pub claimed_at : ℕ
  pub finalized_at : ℕ
  pub failed_at : ℕ
  pub counter : ℕ
  pub executor : ClaimContext → Execution
  pub progress : ClaimContext → List RuntimeEvent
  pub meanwhile : Db → Db
  pub view : Db → String → Option EventRecord
  pub describe : DbError → String

pub record Processed : Type 0 where
  pub published : List RuntimeEvent
  pub outcome : Result DbError Bool
  pub db : Db

-- The events up to the finalize.
abbrev pub started_events : Env → ClaimContext → List RuntimeEvent
started_events env claim =
    runtime_event claimed claim "processing" "claimed" env.claimed_at
      ∷ runtime_event executing claim "processing" "running" env.claimed_at
      ∷ env.progress claim
    ++ runtime_event finalize_started claim "processing" "finalizing" env.finalized_at ∷ []

-- What `Process` does once `Finalize` returned.
abbrev pub finalized :
    Env → ClaimContext → FinalizeCommand → Result DbError (Unit {0}) × Db → Processed
finalized env claim cmd (ok u, db) = record {
  published =
      started_events env claim ++ final_event claim cmd (env.view db claim.event.event_id) ∷ [];
  outcome = ok true;
  db = db;
}
finalized env claim cmd (err e, db) = record {
  published = started_events env claim ++ lost_event claim (env.describe e) env.failed_at ∷ [];
  outcome = err e;
  db = db;
}

-- The command that `Process` finalizes a claim with. The run's id took one number of the counter.
abbrev pub command : Env → ClaimContext → FinalizeCommand
command env claim =
    let (result, run_error) = execute claim (env.executor claim) in
    build_finalize env.finalized_at (suc env.counter) claim result run_error

abbrev pub claimed_work : Env → Result DbError (Option ClaimContext) × Db → Processed
claimed_work env (err e, db) = record { published = []; outcome = err e; db = db }
claimed_work env (ok none, db) = record { published = []; outcome = ok false; db = db }
claimed_work env (ok (some claim), db) =
    finalized env claim (command env claim)
      (with_writer_tx (finalize (command env claim)) (env.meanwhile db))

abbrev pub run_id_of : Env → String
run_id_of env = numbered "run_" env.claimed_at (suc env.counter)

-- Process. The outcome says whether the work was claimed.
unfoldable pub process : Env → WorkItem → Db → Processed
unfolding claim_work finalize build_finalize
process env work db = claimed_work env (claim_work work (run_id_of env) env.claimed_at db)
