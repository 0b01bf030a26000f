-- ===== src/Store/Tests.antt =====
-- internal/store: the transactions on small tables.
use simiclaw.Base.{map, ◌++◌, arith}
use simiclaw.Runner.Model.{field_of}
use simiclaw.Query.{reversed}
use simiclaw.Query.History.{load_prompt_history, prompt_rows, session_rows}
use simiclaw.Query.History.Continued.{loaded, load_prompt_history-continued}
use simiclaw.Base.{
  ℕ, ◌+◌, ◌≡◌, ◌≢◌, refl, String, true, false, none, some, [], ◌∷◌, arith, All, total, eq_iff,
  ◌==ˢ◌, ◌*◌,
}
use simiclaw.Base.Result.{Result, ok, err}
use simiclaw.Base.Text.{trim_space}
use simiclaw.Base.Time.{
  at, blank, stamp_le, text_le, second, text_le_whole_second, bytes_le, fraction,
}
use simiclaw.Base.Decimal.{decimal}
use simiclaw.Model.{
  cron, active, Conversation, EventPayload, processed, RunStatus, normal, pending, Fields,
}
use simiclaw.Model.Run.{StoredMessage, FinalizeCommand}
use simiclaw.Gateway.Model.{PersistRequest, PersistResult}
use simiclaw.Gateway.Bindings.Scope.{normalize_scope}
use simiclaw.Store.Tables.{Db, EventRow, OutboxRow, JobRow, empty_db}
use simiclaw.Store.Sql.{
  DbError, with_writer_tx, find_where, exists_where, update_where, least_where, constraint,
  idempotency_conflict,
}
use simiclaw.Store.Sessions.{resolve_session, recompute_session_aggregate}
use simiclaw.Store.Ingest.{
  persist_event, new_event, insert_key, insert_event, persist_new, persist_found,
  upsert_conversation_dm_scope,
}
use simiclaw.Store.Ingest.Idempotency.{persist_event-again, persist_event-conflict}
use simiclaw.Store.Ingest.Collision.{persist_event-same_time}
use simiclaw.Store.Claim.{claim_event, claim_tx, insert_run}
use simiclaw.Store.Claim.Exclusive.{claim_event-again}
use simiclaw.Store.Recover.{recover_one}
use simiclaw.Store.Recover.Requeue.{recover_one-claimable}
use simiclaw.Store.Finalize.{finalize, insert_messages, deliver_if, has_delivery, insert_outbox}
use simiclaw.Store.Finalize.Outcome.{Outcome, finalize-Outcome}
use simiclaw.Store.Outbox.{
  claim_runtime_outbox, claim_due, is_due, claimed_outbox, mirror, update_outbox,
}
use simiclaw.Store.Jobs.{
  CronJobConfig, ClaimedJob, upsert_cron_jobs, claim_scheduled_job, claimed_job, locked_job,
  complete_scheduled_job, is_runnable_job, earlier_job,
}
use simiclaw.Store.Jobs.Claims.{claim_scheduled_job-again}
use simiclaw.Store.Outbox.Schedule.{Overdue, claim_runtime_outbox-live}
use simiclaw.Store.OneRun.{Step, Steps, OneRun, Steps-OneRun}

abbrev payload : EventPayload
payload = record {
  type = "message";
  text = "hi";
  mentions = [];
  attachments = [];
  native = "";
  native_ref = "";
  extra = [];
}

abbrev conv : Conversation
conv = record { conversation_id = "c"; thread_id = ""; channel_type = "dm"; participant_id = "u" }

abbrev req : String → PersistRequest
req key = record {
  source = "cli";
  conversation = conv;
  payload = payload;
  idempotency_key = key;
  dm_scope = "default";
}

-- Five nanoseconds into 1970.
abbrev now : ℕ
now = 62135596800000000005

abbrev ingest : String → Db → Result DbError (PersistResult × Db)
ingest key db = persist_event "t" "sk" (req key) "h" now db

abbrev first : PersistResult
first = record {
  event_id = "evt_5";
  session_key = "sk";
  session_id = "ses_5";
  received_at = now;
  payload_hash = "h";
  duplicate = false;
  existing_event_id = "";
}

abbrev db_of : Result DbError (PersistResult × Db) → Db
db_of (ok (r, db)) = db
db_of (err e) = empty_db

-- The tables after one event.
abbrev one_event : Db
one_event = db_of (ingest "k" empty_db)

ingested : ingest "k" empty_db ≡ ok (first, one_event)
unfolding persist_event persist_found persist_new insert_key insert_event find_where exists_where
    upsert_conversation_dm_scope resolve_session normalize_scope trim_space decimal
ingested = refl

persist_event-again_example :
    persist_event "t" "other" (req "k") "h" 9 one_event
    ≡ ok (record first { duplicate = true; existing_event_id = "evt_5" }, one_event)
persist_event-again_example =
    persist_event-again "t" "sk" "t" "other" (req "k") "h" now 9 empty_db one_event first ingested

differ : (s t : String) → (s ==ˢ t) ≡ false → s ≢ t
differ s t h e = ground (arith, h, eq_iff s t, e)

persist_event-conflict_example :
    with_writer_tx (persist_event "t" "sk" (req "k") "g" 9) one_event
    ≡ (err idempotency_conflict, one_event)
persist_event-conflict_example =
    persist_event-conflict "t" "sk" "t" "sk" (req "k") (req "k") "h" "g" now 9 empty_db one_event
      first ingested refl (differ "h" "g" refl)

persist_event-same_time_example :
    with_writer_tx (persist_event "t" "sk" (req "j") "g" now) one_event
    ≡ (err constraint, one_event)
unfolding persist_event persist_found persist_new insert_key insert_event find_where exists_where
    upsert_conversation_dm_scope resolve_session normalize_scope trim_space decimal
persist_event-same_time_example =
    persist_event-same_time "t" "sk" "t" "sk" (req "k") (req "j") "h" "g" now empty_db one_event
      first refl ingested refl

-- The event of `one_event`, and the tables after its claim.
abbrev row : EventRow
row = new_event "t" (req "k") "evt_5" "h" "sk" "ses_5" now

abbrev row_only : Db
row_only = record empty_db { events = row ∷ [] }

abbrev claimed_db : Db
claimed_db = (claim_event "evt_5" "run_1" now row_only).1

claimed : claim_event "evt_5" "run_1" now row_only ≡ (ok (some row), claimed_db)
unfolding claim_event claim_tx insert_run find_where exists_where update_where
claimed = refl

claim_event-again_example : claim_event "evt_5" "run_2" 9 claimed_db ≡ (ok none, claimed_db)
claim_event-again_example =
    claim_event-again "evt_5" "run_1" "run_2" now 9 row_only claimed_db row claimed

recover_one-claimable_example :
    (e : EventRow) × (db' : Db) × (claim_event "evt_5" "run_2" 9 (recover_one 8 claimed_db "evt_5")
      ≡ (ok (some e), db'))
unfolding claim_event claim_tx insert_run find_where exists_where update_where
recover_one-claimable_example = recover_one-claimable "evt_5" "run_2" 8 9 claimed_db refl refl refl

Steps-OneRun_example : OneRun claimed_db
unfolding total
Steps-OneRun_example =
    Steps-OneRun (Steps.go (Step.claim "evt_5" "run_1" now row_only) (Steps.stop claimed_db))
      (λ id. omega arith)

abbrev message : StoredMessage
message = record {
  message_id = "msg_1";
  session_key = "sk";
  session_id = "ses_5";
  run_id = "run_1";
  role = "user";
  content = "hi";
  visible = true;
  tool_calls = [];
  tool_call_id = "";
  tool_name = "";
  tool_args = Fields.end;
  tool_result = Fields.end;
  meta = Fields.end;
  created_at = now;
}

abbrev cmd : FinalizeCommand
cmd = record {
  run_id = "run_1";
  event_id = "evt_5";
  session_key = "sk";
  session_id = "ses_5";
  run_mode = normal;
  run_status = RunStatus.completed;
  event_status = processed;
  provider = "p";
  model = "m";
  prompt_tokens = 1;
  completion_tokens = 2;
  total_tokens = 3;
  latency_ms = 4;
  finish_reason = "stop";
  raw_finish_reason = "stop";
  provider_request_id = "";
  output_text = "hello";
  tool_calls = [];
  diagnostics = [];
  error = none;
  assistant_reply = "hello";
  messages = message ∷ [];
  outbox_channel = "";
  outbox_target_id = "";
  outbox_body = "hello";
  now = now;
}

abbrev db_after : Result DbError (Unit {0} × Db) → Db
db_after (ok (u, db)) = db
db_after (err e) = empty_db

abbrev ended_db : Db
ended_db = db_after (finalize cmd claimed_db)

ended : finalize cmd claimed_db ≡ ok (tt, ended_db)
unfolding finalize insert_messages deliver_if insert_outbox has_delivery recompute_session_aggregate
    trim_space claim_event claim_tx insert_run find_where exists_where update_where
ended = refl

finalize-Outcome_example : Outcome cmd claimed_db ended_db
finalize-Outcome_example = finalize-Outcome cmd claimed_db ended_db ended

load_prompt_history-continued_example :
    load_prompt_history ended_db "ses_5" 0
    ≡ reversed (prompt_rows 19 (session_rows claimed_db "ses_5")) ++ map loaded cmd.messages
unfolding field_of claim_event
load_prompt_history-continued_example =
    load_prompt_history-continued cmd claimed_db ended_db "ses_5" 0 ended ((refl, refl, refl), tt)
      tt (omega arith)

abbrev reply : String → ℕ → OutboxRow
reply id t = record {
  outbox_id = id;
  event_id = "evt_5";
  session_key = "sk";
  channel = "";
  target_id = "";
  body = "hello";
  status = pending;
  next_attempt_at = at t;
  locked_at = blank;
  lock_owner = "";
  attempt_count = 0;
  last_error = "";
  created_at = at 0;
  updated_at = at 0;
  sent_at = blank;
}

-- Two replies, the second one five seconds later.
abbrev two_replies : Db
two_replies = record empty_db { outbox = reply "out_1" 0 ∷ reply "out_2" 5000000000 ∷ [] }

abbrev after_one : Db
after_one = (claim_runtime_outbox "w" 0 two_replies).1

one_claimed :
    claim_runtime_outbox "w" 0 two_replies ≡ (some (claimed_outbox (reply "out_1" 0)), after_one)
unfolding claim_runtime_outbox claim_due is_due mirror update_outbox update_where least_where
    stamp_le text_le bytes_le fraction
one_claimed = refl

two_claimed : claim_runtime_outbox "w" 6000000000 after_one ≡ (
  some (claimed_outbox (reply "out_2" 5000000000)),
  (claim_runtime_outbox "w" 6000000000 after_one).1,
)
unfolding claim_runtime_outbox claim_due is_due mirror update_outbox update_where least_where
    stamp_le text_le bytes_le fraction
two_claimed = refl

abbrev later_reply : Db
later_reply = record empty_db { outbox = reply "out_2" 5000000000 ∷ [] }

none_claimed : claim_runtime_outbox "w" 0 later_reply ≡ (none, later_reply)
unfolding claim_runtime_outbox claim_due is_due least_where stamp_le text_le bytes_le fraction
none_claimed = refl

claim_runtime_outbox-live_example : All (λ o. Overdue 0 o → ⊥) later_reply.outbox
claim_runtime_outbox-live_example =
    claim_runtime_outbox-live "w" 0 later_reply later_reply none_claimed

text_le_whole_second_example : text_le (7 * second) (7 * second + 1) ≡ false
text_le_whole_second_example = text_le_whole_second 7 1 (omega arith) (omega arith)

abbrev report : CronJobConfig
report = record {
  name = "report";
  conversation_id = "c";
  channel_type = "dm";
  participant_id = "p";
  payload_type = "cron_fire";
  payload_text = "daily";
  interval = 5000000000;
}

abbrev report_job : ℕ → JobRow
report_job next = record {
  job_id = "cron:report";
  name = "report";
  kind = cron;
  status = active;
  payload = record {
    source = "cron";
    tenant_id = "local";
    conversation = record {
      conversation_id = "c";
      thread_id = "";
      channel_type = "dm";
      participant_id = "p";
    };
    payload = record {
      type = "cron_fire";
      text = "daily";
      mentions = [];
      attachments = [];
      native = "";
      native_ref = "";
      extra = [];
    };
    interval_seconds = 5;
  };
  next_run_at = at next;
  locked_at = blank;
  lock_owner = "";
  attempt_count = 0;
  last_error = "";
  created_at = at 0;
  updated_at = at 0;
}

abbrev with_report : Db
with_report = record empty_db { jobs = report_job 5000000000 ∷ [] }

report_upserted : upsert_cron_jobs "local" (report ∷ []) 0 empty_db ≡ with_report
unfolding upsert_cron_jobs exists_where
report_upserted = refl

abbrev report_taken : ClaimedJob
report_taken = claimed_job (locked_job "w" 5000000000 (report_job 5000000000))

abbrev report_locked : Db
report_locked = (claim_scheduled_job cron "w" 5000000000 with_report).1

report_claimed :
    claim_scheduled_job cron "w" 5000000000 with_report ≡ (some report_taken, report_locked)
unfolding claim_scheduled_job is_runnable_job earlier_job least_where update_where stamp_le text_le
    bytes_le fraction
report_claimed = refl

-- A completed cron job waits for its next time.
report_waits :
    (claim_scheduled_job cron "w" 6000000000
      (complete_scheduled_job report_taken 5000000000 report_locked)).0
    ≡ none
unfolding claim_scheduled_job complete_scheduled_job is_runnable_job earlier_job least_where
    update_where stamp_le text_le bytes_le fraction
report_waits = refl

claim_scheduled_job-again_example :
    (claim_scheduled_job cron "other" 5000000000 report_locked).0
    ≡ some (record report_taken { attempt_count = 2 })
claim_scheduled_job-again_example =
    claim_scheduled_job-again cron "w" "other" 5000000000 with_report report_locked report_taken
      report_claimed
