-- ===== src/Store/Outbox.antt =====
-- internal/store/tx/outbox.go: replies on their way out.
pub mod Queue
pub mod Schedule
pub mod Held
use simiclaw.Base.{
  ℕ, zero, suc, String, Bool, true, false, not, ◌&&◌, ◌||◌, Option, none, some, List, [], ◌∷◌,
  ◌==ˢ◌, if◌then◌else◌,
}
use simiclaw.Base.Time.{Stamp, at, blank, stamp_le, is_blank, parse_time}
use simiclaw.Model.{OutboxStatus, pending, sending, retry_wait, sent, dead}
use simiclaw.Model.Run.{ClaimedOutbox}
use simiclaw.Store.Tables.{Db, EventRow, OutboxRow}
use simiclaw.Store.Sql.{update_where, least_where, text_before}

abbrev pub is_sending : OutboxStatus → Bool
is_sending sending = true
is_sending _ = false

abbrev pub is_waiting : OutboxStatus → Bool
is_waiting pending = true
is_waiting retry_wait = true
is_waiting _ = false

-- UPDATE events SET outbox_status = ?, updated_at = ? WHERE event_id = ?
unfoldable pub mirror : String → OutboxStatus → ℕ → Db → Db
unfolding update_where
mirror event_id status now db = record db {
  events =
      update_where (λ (e : EventRow). e.event_id ==ˢ event_id)
        (λ e. record e { outbox_status = some status; updated_at = at now }) db.events;
}

-- UPDATE outbox … WHERE outbox_id = ?
unfoldable pub update_outbox : String → (OutboxRow → OutboxRow) → Db → Db
unfolding update_where
update_outbox outbox_id f db = record db {
  outbox = update_where (λ (o : OutboxRow). o.outbox_id ==ˢ outbox_id) f db.outbox;
}

abbrev pub is_stuck : ℕ → OutboxRow → Bool
is_stuck cutoff o =
    is_sending o.status && not (is_blank o.locked_at) && stamp_le o.locked_at (at cutoff)

abbrev pub unlocked : ℕ → OutboxRow → OutboxRow
unlocked now o = record o {
  status = retry_wait;
  locked_at = blank;
  lock_owner = "";
  next_attempt_at = at now;
  updated_at = at now;
}

-- The loop over the rows that the SELECT gave.
unfoldable pub unlock_all : ℕ → List OutboxRow → Db → Db
unfolding mirror update_outbox
unlock_all now [] db = db
unlock_all now (o ∷ os) db =
    unlock_all now os
      (mirror o.event_id retry_wait now (update_outbox o.outbox_id (unlocked now) db))

unfoldable pub stuck_rows : ℕ → List OutboxRow → List OutboxRow
unfolding stamp_le
stuck_rows cutoff [] = []
stuck_rows cutoff (o ∷ os) =
    if is_stuck cutoff o then o ∷ stuck_rows cutoff os else stuck_rows cutoff os

-- RecoverExpiredSending
unfoldable pub recover_expired_sending : ℕ → ℕ → Db → Db
unfolding unlock_all stuck_rows
recover_expired_sending cutoff now db = unlock_all now (stuck_rows cutoff db.outbox) db

-- status IN ('pending', 'retry_wait') AND next_attempt_at <= ?
unfoldable pub is_due : ℕ → OutboxRow → Bool
unfolding stamp_le
is_due now o = is_waiting o.status && stamp_le o.next_attempt_at (at now)

-- ORDER BY next_attempt_at ASC, outbox_id ASC
abbrev pub sooner : OutboxRow → OutboxRow → Bool
sooner o p =
    if stamp_le o.next_attempt_at p.next_attempt_at
    then (if stamp_le p.next_attempt_at o.next_attempt_at
        then text_before o.outbox_id p.outbox_id
        else true)
    else false

abbrev pub locked : String → ℕ → OutboxRow → OutboxRow
locked owner now o = record o {
  status = sending;
  locked_at = at now;
  lock_owner = owner;
  updated_at = at now;
}

abbrev pub claimed_outbox : OutboxRow → ClaimedOutbox
claimed_outbox o = record {
  outbox_id = o.outbox_id;
  event_id = o.event_id;
  session_key = o.session_key;
  channel = o.channel;
  target_id = o.target_id;
  body = o.body;
  attempt_count = o.attempt_count;
  created_at = parse_time o.created_at;
}

unfoldable pub claim_due : String → ℕ → Option OutboxRow → Db → Option ClaimedOutbox × Db
unfolding mirror update_outbox
claim_due owner now none db = (none, db)
claim_due owner now (some o) db = (
  some (claimed_outbox o),
  mirror o.event_id sending now (update_outbox o.outbox_id (locked owner now) db),
)

-- ClaimRuntimeOutbox
unfoldable pub claim_runtime_outbox : String → ℕ → Db → Option ClaimedOutbox × Db
unfolding claim_due is_due least_where stamp_le
claim_runtime_outbox owner now db =
    claim_due owner now (least_where (is_due now) sooner db.outbox) db

abbrev pub failed_status : Bool → OutboxStatus
failed_status is_dead = if is_dead then dead else retry_wait

abbrev pub send_failed : String → Bool → ℕ → ℕ → OutboxRow → OutboxRow
send_failed message is_dead next_attempt_at now o = record o {
  status = failed_status is_dead;
  locked_at = blank;
  lock_owner = "";
  attempt_count = suc o.attempt_count;
  last_error = message;
  next_attempt_at = at next_attempt_at;
  updated_at = at now;
}

-- FailOutboxSend
unfoldable pub fail_outbox_send : String → String → String → Bool → ℕ → ℕ → Db → Db
unfolding mirror update_outbox
fail_outbox_send outbox_id event_id message is_dead next_attempt_at now db =
    mirror event_id (failed_status is_dead) now
      (update_outbox outbox_id (send_failed message is_dead next_attempt_at now) db)

abbrev pub send_completed : ℕ → OutboxRow → OutboxRow
send_completed now o = record o {
  status = sent;
  locked_at = blank;
  lock_owner = "";
  sent_at = at now;
  updated_at = at now;
}

-- CompleteOutboxSend
unfoldable pub complete_outbox_send : String → String → ℕ → Db → Db
unfolding mirror update_outbox
complete_outbox_send outbox_id event_id now db =
    mirror event_id sent now (update_outbox outbox_id (send_completed now) db)
