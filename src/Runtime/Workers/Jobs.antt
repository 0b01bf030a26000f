-- ===== src/Runtime/Workers/Jobs.antt =====
-- internal/runtime/workers/scheduled_jobs.go: what becomes of a job that was claimed.
use mathlib.Core.Path.{subst}
use Prim.Native.String.{◌++◌ as append}
use simiclaw.Base.{
  ℕ, zero, suc, ◌+◌, ◌*◌, ◌≤◌, ◌<◌, ◌≡◌, refl, sym, ◌∙◌, inl, inr, String, Bool, true, false, ◌&&◌,
  not, Option, none, some, List, if◌then◌else◌, All, eq_iff, arith, Bool-cases,
}
use simiclaw.Base.Result.{Result, ok, err}
use simiclaw.Base.Int64.{half, wrap, sle, add_duration, add_duration_nonneg, sle_nonneg}
use simiclaw.Base.Time.{at, blank, stamp_le, second, text_le, text_le_sound}
use simiclaw.Model.{ScheduledJobKind, cron, delayed, retry}
use simiclaw.Store.Tables.{Db, JobRow}
use simiclaw.Store.Sql.{update_where}
use simiclaw.Store.Outbox.Queue.{All-update_where_sets}
use simiclaw.Store.Heartbeat.{beat_heartbeat}
use simiclaw.Store.Ingest.{mark_event_queued}
use simiclaw.Store.Jobs.{
  ClaimedJob, is_runnable_job, is_active, claim_scheduled_job, complete_scheduled_job,
  completed_job, cron_interval, fail_scheduled_job, job_is,
}
use simiclaw.Runtime.Workers.{
  Host, EventIngestor, IngestResult, kind_text, run_scheduled_kind, with_job, ingested, claimed_of,
  job_failed, job_accepted, fallback, try_enqueue_to, ingest_request,
}

-- The job is free, and not to be run at this time.
abbrev pub Released : ScheduledJobKind → ℕ → JobRow → Type 0
Released kind now j = (j.locked_at ≡ blank) × (is_runnable_job kind now j ≡ false)

later_not_before : (t u : ℕ) → u + second ≤ t → text_le t u ≡ false
later_not_before t u h = elim (Bool-cases (text_le t u)) [
  | inl p ↦ absurd (omega (arith, h, text_le_sound t u p))
  | inr p ↦ p
]

later-Released :
    (kind : ScheduledJobKind) (now next : ℕ) (j : JobRow)
    → j.locked_at ≡ blank
    → j.next_run_at ≡ at next
    → now + second ≤ next
    → Released kind now j
unfolding is_runnable_job stamp_le
later-Released kind now next j free e h = (free, rw e (ground (arith, later_not_before next now h)))

-- The interval after a completion, for a number of seconds that does not overflow.
interval_of : ℕ → ℕ → ℕ
interval_of zero interval = 10000000000
interval_of (suc n) interval = interval

cron_interval-eq :
    (seconds : ℕ)
    → seconds * second < half
    → cron_interval seconds ≡ interval_of seconds (seconds * second)
unfolding interval_of
cron_interval-eq zero h = refl
cron_interval-eq (suc n) h =
    let same : wrap (suc n * second) ≡ suc n * second = omega (arith, h) in
    let positive : sle (suc n * second) 0 ≡ false =
      sle_nonneg (suc n * second) 0 h (omega arith) ∙ ground arith in
    rw (same, positive) refl

interval_long :
    (seconds : ℕ)
    → seconds * second < half
    → (second ≤ cron_interval seconds) × (cron_interval seconds < half)
unfolding interval_of
interval_long seconds h = rw (cron_interval-eq seconds h) (bounds seconds h)
  where
    bounds :
        (seconds : ℕ)
        → seconds * second < half
        → (second ≤ interval_of seconds (seconds * second))
          × (interval_of seconds (seconds * second) < half)
    bounds zero h = (omega arith, omega arith)
    bounds (suc n) h = (omega arith, h)

paused-Released :
    (kind : ScheduledJobKind) (now : ℕ) (j : JobRow)
    → j.locked_at ≡ blank
    → is_active j.status ≡ false
    → Released kind now j
unfolding is_runnable_job
paused-Released kind now j free p = (free, ground (arith, p))

completed-Released :
    (kind : ScheduledJobKind) (job : ClaimedJob) (now : ℕ) (j : JobRow)
    → job.payload.interval_seconds * second < half
    → Released kind now (completed_job job now j)
completed-Released kind job now j h = cases job.kind
  where
    after : ScheduledJobKind → JobRow
    after k = completed_job (record job { kind = k }) now j

    cases : (k : ScheduledJobKind) → Released kind now (after k)
    cases cron =
        let interval = cron_interval job.payload.interval_seconds in
        let (long, small) = interval_long job.payload.interval_seconds h in
        later-Released kind now (add_duration now interval) (after cron) refl refl
          (rw (add_duration_nonneg now interval small) (omega (arith, long)))
    cases delayed = paused-Released kind now (after delayed) refl refl
    cases retry = paused-Released kind now (after retry) refl refl

-- What holds of the rows of the job.
abbrev pub JobReleased : String → ScheduledJobKind → ℕ → JobRow → Type 0
JobReleased id kind now j = j.job_id ≡ id → Released kind now j

All-Released :
    (id : String) (kind : ScheduledJobKind) (now : ℕ) (f : JobRow → JobRow) (jobs : List JobRow)
    → ((j : JobRow) → Released kind now (f j))
    → All (JobReleased id kind now) (update_where (job_is id) f jobs)
All-Released id kind now f jobs h =
    All-update_where_sets (JobReleased id kind now) (job_is id) f jobs (λ j e same. h j)
      (λ j e same. absurd (no_other j e same))
  where
    no_other : (j : JobRow) → job_is id j ≡ false → j.job_id ≡ id → ⊥
    no_other j e same = ground (arith, e, (eq_iff j.job_id id).1 same)

failed-Released :
    (job : ClaimedJob) (text : String) (kind : ScheduledJobKind) (now : ℕ) (h : Host)
    → All (JobReleased job.job_id kind now) (job_failed job text now h).db.jobs
unfolding fail_scheduled_job
failed-Released job text kind now h =
    All-Released job.job_id kind now _ h.db.jobs
      (λ j. later-Released kind now (now + 30 * second) _ refl refl (omega arith))

-- The fallback writes no job.
fallback-jobs :
    (accepted : IngestResult) (now : ℕ) (h : Host) → (fallback accepted now h).db.jobs ≡ h.db.jobs
unfolding mark_event_queued
fallback-jobs accepted now h = cases (not accepted.duplicate && not accepted.enqueued)
  where
    cases :
        (b : Bool)
        → (if b
            then try_enqueue_to accepted.event_id
                (record h { db = mark_event_queued accepted.event_id now h.db })
            else h).db.jobs
          ≡ h.db.jobs
    cases true = refl
    cases false = refl

accepted-Released :
    (kind : ScheduledJobKind) (job : ClaimedJob) (accepted : IngestResult) (now : ℕ) (h : Host)
    → job.payload.interval_seconds * second < half
    → All (JobReleased job.job_id kind now) (job_accepted kind job accepted now h).db.jobs
unfolding complete_scheduled_job beat_heartbeat
accepted-Released kind job accepted now h i =
    let done : Host = record h { db = complete_scheduled_job job now h.db } in
    subst (All (JobReleased job.job_id kind now)) (sym (fallback-jobs accepted now done)) (
      All-Released job.job_id kind now (completed_job job now) h.db.jobs
        (λ j. completed-Released kind job now j i))

with_job-Released :
    (ingest : Option EventIngestor) (kind : ScheduledJobKind) (job : ClaimedJob) (now : ℕ)
    (h : Host)
    → job.payload.interval_seconds * second < half
    → All (JobReleased job.job_id kind now) (with_job ingest kind now job h).db.jobs
with_job-Released none kind job now h i = failed-Released job _ kind now h
with_job-Released (some ingest) kind job now h i = cases (ingest (ingest_request job now) h)
  where
    cases :
        (r : Result String IngestResult × Host)
        → All (JobReleased job.job_id kind now) (ingested kind job now r).db.jobs
    cases (err text, h') = failed-Released job text kind now h'
    cases (ok accepted, h') = accepted-Released kind job accepted now h' i

-- A job that the worker claims is released again, whatever comes of its ingest: its row has no lock, and it
-- cannot be run at the time of the tick any more, if the job's interval is less than 2^63 nanoseconds.
pub run_scheduled_kind-Released :
    (ingest : Option EventIngestor) (kind : ScheduledJobKind) (now : ℕ) (h : Host)
    (job : ClaimedJob) (db : Db)
    → claim_scheduled_job kind (append (kind_text kind) "-worker") now h.db ≡ (some job, db)
    → job.payload.interval_seconds * second < half
    → All (JobReleased job.job_id kind now) (run_scheduled_kind ingest kind now h).db.jobs
unfolding run_scheduled_kind
run_scheduled_kind-Released ingest kind now h job db claimed i =
    subst
      (λ (r : Option ClaimedJob × Db).
        All (JobReleased job.job_id kind now)
          (claimed_of ingest kind now r.0 (record h { db = r.1 })).db.jobs)
      (sym claimed) (with_job-Released ingest kind job now (record h { db = db }) i)
