-- ===== src/Store/Recover.antt =====
-- internal/store/tx/recover_processing.go: an event whose processing lease ran out goes back to the queue.
pub mod Requeue
use simiclaw.Base.{ℕ, String, Bool, true, false, ◌&&◌, List, [], ◌∷◌, map, ◌==ˢ◌, if◌then◌else◌}
use simiclaw.Base.Time.{at, blank, stamp_le, or_stamp}
use simiclaw.Model.{EventStatus, queued, processing, RunStatus, failed}
use simiclaw.Store.Tables.{Db, EventRow, RunRow}
use simiclaw.Store.Sql.{update_where, select_sorted}
use simiclaw.Store.Claim.{running, older}

abbrev pub is_processing : EventStatus → Bool
is_processing processing = true
is_processing _ = false

-- COALESCE(NULLIF(processing_started_at, ''), updated_at) <= cutoff
abbrev pub is_expired : ℕ → EventRow → Bool
is_expired cutoff e =
    is_processing e.status && stamp_le (or_stamp e.processing_started_at e.updated_at) (at cutoff)

abbrev pub expired_run : ℕ → RunRow → RunRow
expired_run now r = record r {
  status = RunStatus.failed;
  error_code = "INTERNAL";
  error_message = "processing lease expired";
  finished_at = at now;
}

abbrev pub requeued : ℕ → EventRow → EventRow
requeued now e = record e {
  status = queued;
  processing_started_at = blank;
  updated_at = at now;
  error_code = "INTERNAL";
  error_message = "processing lease expired";
}

abbrev pub in_processing : String → EventRow → Bool
in_processing id e = e.event_id ==ˢ id && is_processing e.status

-- The transaction for one id.
unfoldable pub recover_one : ℕ → Db → String → Db
recover_one now db id = record db {
  runs = update_where (running id) (expired_run now) db.runs;
  events = update_where (in_processing id) (requeued now) db.events;
}

unfoldable pub recover_all : ℕ → Db → List String → Db
recover_all now db [] = db
recover_all now db (id ∷ ids) = recover_all now (recover_one now db id) ids

-- RecoverExpiredProcessing. The reading statement comes before the transactions.
unfoldable pub recover_expired_processing : ℕ → ℕ → Db → List String × Db
unfolding recover_all recover_one select_sorted update_where stamp_le
recover_expired_processing cutoff now db =
    let ids =
      map (λ (e : EventRow). e.event_id) (select_sorted (is_expired cutoff) older db.events) in
    (ids, recover_all now db ids)
