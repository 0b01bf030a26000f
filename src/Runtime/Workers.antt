-- ===== src/Runtime/Workers.antt =====
-- internal/runtime/workers: the workers in the background, one tick of each. Between its calls a tick sees
-- no other writer; logs are left out, and a failing statement of the tables is not modelled.
pub mod Recovered
pub mod Jobs
mod Tests
use Prim.Native.String.{◌++◌ as append}
use simiclaw.Base.{
  ℕ, zero, suc, ◌+◌, ◌-◌, ◌*◌, ◌/◌, String, Bool, true, false, not, ◌&&◌, Option, none, some, List,
  [], ◌∷◌, ◌++◌, length, ◌==ˢ◌, if◌then◌else◌,
}
use simiclaw.Base.Result.{Result, ok, err}
use simiclaw.Base.Decimal.{decimal}
use simiclaw.Base.Dict.{get, put}
use simiclaw.Base.Time.{second}
use simiclaw.Model.{Conversation, EventPayload, ScheduledJobKind, cron, delayed, retry}
use simiclaw.Store.Tables.{Db}
use simiclaw.Store.Sql.{epoch}
use simiclaw.Store.Heartbeat.{beat_heartbeat}
use simiclaw.Store.Recover.{recover_expired_processing}
use simiclaw.Store.Ingest.{mark_event_queued}
use simiclaw.Store.Jobs.{
  ClaimedJob, claim_scheduled_job, complete_scheduled_job, fail_scheduled_job,
}
use simiclaw.Runtime.EventLoop.{EventLoop, try_enqueue}

-- kernel/contracts.go
pub record WorkerRole : Type 0 where
  pub name : String
  pub heartbeat_name : String
  pub poll_cadence : ℕ
  pub failure_policy : String

-- The tables and the queue.
pub record Host : Type 0 where
  pub db : Db
  pub loop : EventLoop

abbrev pub try_enqueue_to : String → Host → Host
try_enqueue_to event_id h = record h { loop = (try_enqueue event_id h.loop).1 }

abbrev pub heartbeat_role : WorkerRole
heartbeat_role = record {
  name = "heartbeat";
  heartbeat_name = "heartbeat";
  poll_cadence = 10 * second;
  failure_policy = "best-effort heartbeat updates";
}

-- A tick of HeartbeatWorker.
abbrev pub heartbeat_tick : ℕ → Host → Host
heartbeat_tick now h = record h { db = beat_heartbeat heartbeat_role.heartbeat_name now h.db }

abbrev pub processing_lease : ℕ
processing_lease = 120 * second

abbrev pub recovery_role : WorkerRole
recovery_role = record {
  name = "processing_recovery";
  heartbeat_name = "processing_sweeper";
  poll_cadence = 10 * second;
  failure_policy = "continue on recover errors and requeue best-effort";
}

-- The loop over the recovered ids, which goes on when the queue is full.
unfoldable pub enqueue_ids : List String → Host → Host
enqueue_ids [] h = h
enqueue_ids (id ∷ ids) h = enqueue_ids ids (try_enqueue_to id h)

abbrev pub recovered : List String × Db → EventLoop → Host
recovered (ids, db) loop = enqueue_ids ids (record { db = db; loop = loop })

-- tick of ProcessingRecoveryWorker.
unfoldable pub recovery_tick : ℕ → Host → Host
unfolding beat_heartbeat recover_expired_processing enqueue_ids
recovery_tick now h =
    recovered
      (recover_expired_processing (now - processing_lease) now
        (beat_heartbeat recovery_role.heartbeat_name now h.db))
      h.loop

pub record IngestRequest : Type 0 where
  pub source : String
  pub conversation : Conversation
  pub idempotency_key : String
  pub timestamp : ℕ
  pub payload : EventPayload

pub record IngestResult : Type 0 where
  pub event_id : String
  pub duplicate : Bool
  pub enqueued : Bool

-- Ingest, with its error's text.
abbrev pub EventIngestor : Type 0
EventIngestor = IngestRequest → Host → Result String IngestResult × Host

-- The text of a kind.
abbrev pub kind_text : ScheduledJobKind → String
kind_text cron = "cron"
kind_text delayed = "delayed"
kind_text retry = "retry"

abbrev pub ingest_request : ClaimedJob → ℕ → IngestRequest
ingest_request job now = record {
  source = job.payload.source;
  conversation = job.payload.conversation;
  idempotency_key = append job.job_id (append ":" (decimal ((now - epoch) / second)));
  timestamp = now;
  payload = job.payload.payload;
}

abbrev pub job_failed : ClaimedJob → String → ℕ → Host → Host
job_failed job text now h = record h {
  db = fail_scheduled_job job.job_id text (now + 30 * second) now h.db;
}

-- The fallback for an event that is stored and not queued.
abbrev pub fallback : IngestResult → ℕ → Host → Host
fallback accepted now h =
    if not accepted.duplicate && not accepted.enqueued
    then try_enqueue_to accepted.event_id
        (record h { db = mark_event_queued accepted.event_id now h.db })
    else h

abbrev pub job_accepted : ScheduledJobKind → ClaimedJob → IngestResult → ℕ → Host → Host
job_accepted kind job accepted now h =
    let queued = fallback accepted now (record h { db = complete_scheduled_job job now h.db }) in
    record queued { db = beat_heartbeat (kind_text kind) now queued.db }

abbrev pub ingested : ScheduledJobKind → ClaimedJob → ℕ → Result String IngestResult × Host → Host
ingested kind job now (err text, h) = job_failed job text now h
ingested kind job now (ok accepted, h) = job_accepted kind job accepted now h

abbrev pub with_job : Option EventIngestor → ScheduledJobKind → ℕ → ClaimedJob → Host → Host
with_job none kind now job h = job_failed job "ingest service unavailable" now h
with_job (some ingest) kind now job h = ingested kind job now (ingest (ingest_request job now) h)

abbrev pub claimed_of :
    Option EventIngestor → ScheduledJobKind → ℕ → Option ClaimedJob → Host → Host
claimed_of ingest kind now none h = h
claimed_of ingest kind now (some job) h = with_job ingest kind now job h

-- runScheduledKind
unfoldable pub run_scheduled_kind : Option EventIngestor → ScheduledJobKind → ℕ → Host → Host
unfolding claim_scheduled_job complete_scheduled_job fail_scheduled_job mark_event_queued
    beat_heartbeat decimal
run_scheduled_kind ingest kind now h =
    let (job, db) = claim_scheduled_job kind (append (kind_text kind) "-worker") now h.db in
    claimed_of ingest kind now job (record h { db = db })

abbrev pub delayed_role : WorkerRole
delayed_role = record {
  name = "scheduled_jobs_delayed";
  heartbeat_name = "delayed_jobs";
  poll_cadence = second;
  failure_policy = "retry failed jobs after cooldown and best-effort fallback enqueue";
}

abbrev pub cron_role : WorkerRole
cron_role = record {
  name = "scheduled_jobs_cron";
  heartbeat_name = "cron";
  poll_cadence = second;
  failure_policy = "retry cron ingest failures after cooldown";
}

unfoldable pub run_kinds : Option EventIngestor → List ScheduledJobKind → ℕ → Host → Host
unfolding run_scheduled_kind
run_kinds ingest [] now h = h
run_kinds ingest (kind ∷ kinds) now h =
    run_kinds ingest kinds now (run_scheduled_kind ingest kind now h)

-- A tick of ScheduledJobsWorker, which has the kinds of its constructor.
unfoldable pub scheduled_tick :
    WorkerRole → List ScheduledJobKind → Option EventIngestor → ℕ → Host → Host
unfolding run_kinds beat_heartbeat
scheduled_tick role kinds ingest now h =
    run_kinds ingest kinds now (record h { db = beat_heartbeat role.heartbeat_name now h.db })

-- NewDelayedJobsWorker and NewCronWorker
abbrev pub delayed_tick : Option EventIngestor → ℕ → Host → Host
delayed_tick ingest now h = scheduled_tick delayed_role (delayed ∷ retry ∷ []) ingest now h

abbrev pub cron_tick : Option EventIngestor → ℕ → Host → Host
cron_tick ingest now h = scheduled_tick cron_role (cron ∷ []) ingest now h

-- A worker's role and its tick.
pub record Worker : Type 0 where
  pub role : WorkerRole
  pub tick : ℕ → Host → Host

pub record Registry : Type 0 where
  pub workers : List Worker
  pub index : List (String × ℕ)

-- NewRegistry
abbrev pub new_registry : Registry
new_registry = record { workers = []; index = [] }

-- r.workers[idx] = worker, for an index in range.
abbrev set_worker : ℕ → Worker → List Worker → List Worker
set_worker i worker [] = []
set_worker zero worker (w ∷ ws) = worker ∷ ws
set_worker (suc i) worker (w ∷ ws) = w ∷ set_worker i worker ws

abbrev register_at : Option ℕ → Worker → Registry → Registry
register_at (some i) worker r = record r { workers = set_worker i worker r.workers }
register_at none worker r = record {
  workers = r.workers ++ worker ∷ [];
  index = put worker.role.name (length r.workers) r.index;
}

-- Register
unfoldable pub register : Worker → Registry → Registry
unfolding get put
register worker r = register_at (get worker.role.name r.index) worker r

-- RegisterBuiltins
abbrev pub register_builtins : Option EventIngestor → Registry → Registry
register_builtins ingest r =
    register (record { role = cron_role; tick = cron_tick ingest })
      (register (record { role = delayed_role; tick = delayed_tick ingest })
        (register (record { role = recovery_role; tick = recovery_tick })
          (register (record { role = heartbeat_role; tick = heartbeat_tick }) r)))
