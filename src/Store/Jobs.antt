-- ===== src/Store/Jobs.antt =====
-- internal/store/jobs.go: the scheduled jobs.
pub mod Claims
use Prim.Native.String.{◌++◌}
use simiclaw.Base.{
  ℕ, suc, ◌-◌, ◌*◌, ◌/◌, String, Bool, true, false, ◌&&◌, Option, none, some, List, [], ◌∷◌, ◌==ˢ◌,
  if◌then◌else◌,
}
use simiclaw.Base.Int64.{word, wrap, slt, sle, add_duration}
use simiclaw.Base.Time.{Stamp, at, blank, stamp_le, parse_time, second}
use simiclaw.Model.{ScheduledJobKind, cron, delayed, retry, ScheduledJobStatus, active, paused}
use simiclaw.Store.Tables.{Db, JobRow, ScheduledJobPayload}
use simiclaw.Store.Sql.{find_where, update_where, exists_where, least_where, text_before}

-- internal/config/config.go; the interval is a 64-bit word of nanoseconds.
pub record CronJobConfig : Type 0 where
  pub name : String
  pub conversation_id : String
  pub channel_type : String
  pub participant_id : String
  pub payload_type : String
  pub payload_text : String
  pub interval : ℕ

pub record ClaimedJob : Type 0 where
  pub job_id : String
  pub name : String
  pub kind : ScheduledJobKind
  pub status : ScheduledJobStatus
  pub payload : ScheduledJobPayload
  pub attempt_count : ℕ
  pub next_run_at : ℕ

-- Signed division, towards zero.
abbrev whole_seconds : ℕ → ℕ
whole_seconds d = if slt d 0 then wrap (word - (word - d) / second) else d / second

abbrev cron_payload : String → CronJobConfig → ScheduledJobPayload
cron_payload tenant_id job = record {
  source = "cron";
  tenant_id = tenant_id;
  conversation = record {
    conversation_id = job.conversation_id;
    thread_id = "";
    channel_type = job.channel_type;
    participant_id = job.participant_id;
  };
  payload = record {
    type = job.payload_type;
    text = job.payload_text;
    mentions = [];
    attachments = [];
    native = "";
    native_ref = "";
    extra = [];
  };
  interval_seconds = whole_seconds job.interval;
}

abbrev cron_row : String → CronJobConfig → ℕ → JobRow
cron_row tenant_id job now = record {
  job_id = "cron:" ++ job.name;
  name = job.name;
  kind = cron;
  status = active;
  payload = cron_payload tenant_id job;
  next_run_at = at (add_duration now job.interval);
  locked_at = blank;
  lock_owner = "";
  attempt_count = 0;
  last_error = "";
  created_at = at now;
  updated_at = at now;
}

abbrev pub job_is : String → JobRow → Bool
job_is id j = j.job_id ==ˢ id

-- INSERT … ON CONFLICT(job_id) DO UPDATE
abbrev put_job : JobRow → List JobRow → List JobRow
put_job row jobs =
    if exists_where (job_is row.job_id) jobs
    then update_where (job_is row.job_id)
        (λ j. record j { name = row.name; payload = row.payload; updated_at = row.updated_at }) jobs
    else row ∷ jobs

-- UpsertCronJobs
unfoldable pub upsert_cron_jobs : String → List CronJobConfig → ℕ → Db → Db
unfolding exists_where update_where
upsert_cron_jobs tenant_id [] now db = db
upsert_cron_jobs tenant_id (job ∷ rest) now db =
    upsert_cron_jobs tenant_id rest now
      (record db { jobs = put_job (cron_row tenant_id job now) db.jobs })

abbrev same_kind : ScheduledJobKind → ScheduledJobKind → Bool
same_kind cron cron = true
same_kind delayed delayed = true
same_kind retry retry = true
same_kind _ _ = false

abbrev pub is_active : ScheduledJobStatus → Bool
is_active active = true
is_active paused = false

-- kind = ? AND status = 'active' AND next_run_at <= ?
unfoldable pub is_runnable_job : ScheduledJobKind → ℕ → JobRow → Bool
unfolding stamp_le
is_runnable_job kind now j =
    same_kind j.kind kind && is_active j.status && stamp_le j.next_run_at (at now)

-- ORDER BY next_run_at ASC, job_id ASC
unfoldable pub earlier_job : JobRow → JobRow → Bool
unfolding stamp_le
earlier_job j k =
    if stamp_le j.next_run_at k.next_run_at
    then (if stamp_le k.next_run_at j.next_run_at then text_before j.job_id k.job_id else true)
    else false

abbrev pub locked_job : String → ℕ → JobRow → JobRow
locked_job owner now j = record j {
  locked_at = at now;
  lock_owner = owner;
  updated_at = at now;
  attempt_count = suc j.attempt_count;
}

abbrev pub claimed_job : JobRow → ClaimedJob
claimed_job j = record {
  job_id = j.job_id;
  name = j.name;
  kind = j.kind;
  status = j.status;
  payload = j.payload;
  attempt_count = j.attempt_count;
  next_run_at = parse_time j.next_run_at;
}

abbrev pub claim_job : String → ℕ → Option JobRow → Db → Option ClaimedJob × Db
claim_job owner now none db = (none, db)
claim_job owner now (some j) db = (
  some (claimed_job (locked_job owner now j)),
  record db { jobs = update_where (job_is j.job_id) (locked_job owner now) db.jobs },
)

-- ClaimScheduledJob
unfoldable pub claim_scheduled_job : ScheduledJobKind → String → ℕ → Db → Option ClaimedJob × Db
unfolding is_runnable_job earlier_job least_where update_where
claim_scheduled_job kind owner now db =
    claim_job owner now (least_where (is_runnable_job kind now) earlier_job db.jobs) db

abbrev pub cron_interval : ℕ → ℕ
cron_interval seconds =
    let interval = wrap (seconds * second) in if sle interval 0 then 10000000000 else interval

abbrev pub completed_job : ClaimedJob → ℕ → JobRow → JobRow
completed_job job now j = elim job.kind [
  | cron ↦ record j {
    status = job.status;
    next_run_at = at (add_duration now (cron_interval job.payload.interval_seconds));
    locked_at = blank;
    lock_owner = "";
    last_error = "";
    updated_at = at now;
  }
  | _ ↦ record j {
    status = paused;
    next_run_at = blank;
    locked_at = blank;
    lock_owner = "";
    last_error = "";
    updated_at = at now;
  }
]

-- CompleteScheduledJob
unfoldable pub complete_scheduled_job : ClaimedJob → ℕ → Db → Db
unfolding update_where
complete_scheduled_job job now db = record db {
  jobs = update_where (job_is job.job_id) (completed_job job now) db.jobs;
}

-- FailScheduledJob
unfoldable pub fail_scheduled_job : String → String → ℕ → ℕ → Db → Db
unfolding update_where
fail_scheduled_job job_id message next_run_at now db = record db {
  jobs =
      update_where (job_is job_id)
        (λ j. record j {
          locked_at = blank;
          lock_owner = "";
          last_error = message;
          next_run_at = at next_run_at;
          updated_at = at now;
        })
        db.jobs;
}
