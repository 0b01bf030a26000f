-- ===== src/Runtime/Workers/Tests.antt =====
-- internal/runtime/workers on small tables.
use Prim.Native.String.{◌++◌ as append}
use simiclaw.Base.{◌≡◌, ◌*◌, refl, none, some, [], ◌∷◌, arith, All}
use simiclaw.Base.Result.{err}
use simiclaw.Base.Time.{at, blank, second, stamp_le, text_le}
use simiclaw.Model.{EventStatus, normal, cron, active}
use simiclaw.Store.Tables.{Db, EventRow, JobRow, empty_db}
use simiclaw.Store.Sql.{exists_where, least_where, update_where}
use simiclaw.Store.Jobs.{
  ClaimedJob, claim_scheduled_job, claimed_job, locked_job, is_runnable_job, earlier_job,
}
use simiclaw.Runtime.EventLoop.{new_event_loop}
use simiclaw.Runtime.Workers.{Host, EventIngestor, recovery_tick, run_scheduled_kind, kind_text}
use simiclaw.Runtime.Workers.Recovered.{InQueue, recovery_tick-queued}
use simiclaw.Runtime.Workers.Jobs.{JobReleased, run_scheduled_kind-Released}

-- In processing since the fifth second.
abbrev lost : EventRow
lost = record {
  event_id = "evt_1";
  source = "cli";
  tenant_id = "local";
  conversation_id = "c";
  channel_type = "dm";
  participant_id = "p";
  session_key = "s";
  session_id = "ses";
  idempotency_key = "k";
  payload_type = "message";
  payload_text = "hi";
  payload = record {
    type = "message";
    text = "hi";
    mentions = [];
    attachments = [];
    native = "";
    native_ref = "";
    extra = [];
  };
  payload_hash = "h";
  status = EventStatus.processing;
  run_id = "run_1";
  run_mode = normal;
  assistant_reply = "";
  outbox_id = "";
  outbox_status = none;
  processing_started_at = at (5 * second);
  provider = "";
  model = "";
  provider_request_id = "";
  error_code = "";
  error_message = "";
  created_at = at second;
  updated_at = at (5 * second);
}

abbrev lost_host : Host
lost_host = record { db = record empty_db { events = lost ∷ [] }; loop = new_event_loop 2 }

recovery_tick-queued_example : InQueue "evt_1" (recovery_tick (200 * second) lost_host).loop
unfolding exists_where stamp_le text_le
recovery_tick-queued_example =
    recovery_tick-queued (200 * second) lost_host "evt_1" (omega arith) refl

abbrev nightly : JobRow
nightly = record {
  job_id = "cron:nightly";
  name = "nightly";
  kind = cron;
  status = active;
  payload = record {
    source = "cron";
    tenant_id = "local";
    conversation = record {
      conversation_id = "c";
      thread_id = "";
      channel_type = "dm";
      participant_id = "p";
    };
    payload = record {
      type = "cron_fire";
      text = "nightly";
      mentions = [];
      attachments = [];
      native = "";
      native_ref = "";
      extra = [];
    };
    interval_seconds = 60;
  };
  next_run_at = at (5 * second);
  locked_at = blank;
  lock_owner = "";
  attempt_count = 0;
  last_error = "";
  created_at = at second;
  updated_at = at second;
}

abbrev job_db : Db
job_db = record empty_db { jobs = nightly ∷ [] }

abbrev job_host : Host
job_host = record { db = job_db; loop = new_event_loop 2 }

abbrev job : ClaimedJob
job = claimed_job (locked_job "cron-worker" (9 * second) nightly)

claimed :
    claim_scheduled_job cron (append (kind_text cron) "-worker") (9 * second) job_db
    ≡ (some job, record job_db { jobs = locked_job "cron-worker" (9 * second) nightly ∷ [] })
unfolding claim_scheduled_job is_runnable_job earlier_job least_where update_where stamp_le text_le
claimed = refl

-- An ingest that fails.
abbrev unavailable : EventIngestor
unavailable request h = (err "gateway unavailable", h)

run_scheduled_kind-Released_example :
    All
      (JobReleased "cron:nightly" cron (9 * second))
      (run_scheduled_kind (some unavailable) cron (9 * second) job_host).db.jobs
run_scheduled_kind-Released_example =
    run_scheduled_kind-Released (some unavailable) cron (9 * second) job_host job
      (record job_db { jobs = locked_job "cron-worker" (9 * second) nightly ∷ [] }) claimed
      (omega arith)
