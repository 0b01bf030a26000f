-- ===== src/Runtime/Tests.antt =====
-- internal/runtime: one event through the kernel, and the payload registry.
use simiclaw.Base.{◌⊎◌, length, arith}
use simiclaw.Store.Claim.Listed.{is_of}
use simiclaw.Runtime.EventLoop.{new_event_loop, repump}
use simiclaw.Runtime.EventLoop.Repump.{repump-queued}
use simiclaw.Runtime.EventLoop.Again.{idle, process-again}
use simiclaw.Base.{◌≡◌, refl, true, none, some, [], ◌∷◌, ◌++◌, keep_if}
use simiclaw.Base.Decimal.{decimal}
use simiclaw.Base.Result.{ok}
use simiclaw.Base.Text.{trim_space}
use simiclaw.Base.Time.{at, blank}
use simiclaw.Lanes.Key.{resolve}
use simiclaw.Model.{WorkItem, EventPayload, queued, normal, RuntimeEvent}
use simiclaw.Model.Run.{ClaimContext, ExecutionResult}
use simiclaw.Store.Tables.{Db, EventRow, empty_db}
use simiclaw.Store.Sql.{find_where, exists_where, update_where}
use simiclaw.Store.Sessions.{recompute_session_aggregate}
use simiclaw.Store.Claim.{claim_work, claim_event, claim_tx, claim_context, insert_run}
use simiclaw.Store.Finalize.{finalize, insert_messages, insert_outbox, deliver_if, has_delivery}
use simiclaw.Runtime.Kernel.{
  Env, returned, empty_result, run_id_of, started_events, process, build_finalize, stored_messages,
}
use simiclaw.Runtime.Kernel.Finalizing.{Consistent, build_finalize-Consistent}
use simiclaw.Runtime.Kernel.Processing.{ends, Settled, process-one_terminal, process-Settled}

abbrev payload : EventPayload
payload = record {
  type = "message";
  text = "hi";
  mentions = [];
  attachments = [];
  native = "";
  native_ref = "";
  extra = [];
}

abbrev row : EventRow
row = record {
  event_id = "evt_5";
  source = "cli";
  tenant_id = "t";
  conversation_id = "c";
  channel_type = "dm";
  participant_id = "u";
  session_key = "sk";
  session_id = "ses_5";
  idempotency_key = "k";
  payload_type = "message";
  payload_text = "hi";
  payload = payload;
  payload_hash = "h";
  status = queued;
  run_id = "";
  run_mode = normal;
  assistant_reply = "";
  outbox_id = "";
  outbox_status = none;
  processing_started_at = blank;
  provider = "";
  model = "";
  provider_request_id = "";
  error_code = "";
  error_message = "";
  created_at = at 5;
  updated_at = at 5;
}

abbrev db : Db
db = record empty_db { events = row ∷ [] }

abbrev work : WorkItem
work = record {
  event_id = "evt_5";
  session_key = "sk";
  lane_key = "";
  source = "";
  channel = "";
  metadata = [];
}

abbrev replies : ExecutionResult
replies = record empty_result {
  assistant_reply = "hello";
  delivery = some (record { channel = ""; target_id = ""; body = "hello"; metadata = [] });
}

abbrev env : Env
env = record {
  claimed_at = 7;
  finalized_at = 8;
  failed_at = 9;
  counter = 0;
  executor = λ c. returned replies none;
  progress = λ c. [];
  meanwhile = λ d. d;
  view = λ d id. none;
  describe = λ e. "error";
}

abbrev claim : ClaimContext
claim = claim_context work (run_id_of env) row

abbrev claimed_db : Db
claimed_db = (claim_work work (run_id_of env) 7 db).1

claimed : claim_work work (run_id_of env) env.claimed_at db ≡ (ok (some claim), claimed_db)
unfolding claim_work claim_event claim_tx insert_run find_where exists_where update_where resolve
    trim_space decimal
claimed = refl

build_finalize-Consistent_example : Consistent none replies (build_finalize 8 1 claim replies none)
build_finalize-Consistent_example = build_finalize-Consistent 8 1 claim replies none

process-one_terminal_example :
    (e : RuntimeEvent) × ((process env work db).published ≡ started_events env claim ++ e ∷ [])
    × (keep_if ends (process env work db).published ≡ e ∷ [])
process-one_terminal_example = process-one_terminal env work db claimed_db claim claimed refl

succeeds : (process env work db).outcome ≡ ok true
unfolding process finalize build_finalize stored_messages insert_messages insert_outbox deliver_if
    has_delivery recompute_session_aggregate claim_work claim_event claim_tx insert_run find_where
    exists_where update_where resolve trim_space decimal
succeeds = refl

process-Settled_example : Settled claim (process env work db).db
process-Settled_example = process-Settled env work db claimed_db claim claimed succeeds

repump-queued_example :
    (length (repump db (new_event_loop 2)).queue ≡ 2)
    ⊎ (exists_where (is_of "evt_5") (repump db (new_event_loop 2)).queue ≡ true)
unfolding exists_where
repump-queued_example = repump-queued db (new_event_loop 2) "evt_5" (omega arith) (omega arith) refl

process-again_example : process env work (process env work db).db ≡ idle (process env work db).db
process-again_example = process-again env env work work db claimed_db claim claimed succeeds refl
