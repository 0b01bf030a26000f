-- ===== src/Outbound/Delivery.antt =====
-- internal/outbound/delivery/worker.go: one reply of the outbox per tick.
pub mod Once
use simiclaw.Base.{
  ℕ, zero, suc, ◌-◌, ◌*◌, String, Bool, true, false, Option, none, some, List, [], ◌∷◌,
}
use simiclaw.Base.Time.{second}
use simiclaw.Model.Run.{ClaimedOutbox}
use simiclaw.Outbound.Retry.{ExponentialPolicy, Decision, next}
use simiclaw.Store.Tables.{Db}
use simiclaw.Store.Heartbeat.{beat_heartbeat}
use simiclaw.Store.Outbox.{
  recover_expired_sending, claim_runtime_outbox, fail_outbox_send, complete_outbox_send,
}

-- What a channel answers: nothing, or the text of an error.
abbrev pub Sender : Type 0
Sender = ClaimedOutbox → Option String

abbrev pub sending_lease : ℕ
sending_lease = 30 * second

-- recordFailure
abbrev pub record_failure : ExponentialPolicy → ClaimedOutbox → String → ℕ → Db → Db
record_failure policy msg error now db =
    let decision = next policy msg.attempt_count now in
    fail_outbox_send msg.outbox_id msg.event_id error decision.dead decision.next_attempt_at now db

abbrev pub answered : ExponentialPolicy → ClaimedOutbox → Option String → ℕ → Db → Db
answered policy msg (some error) now db = record_failure policy msg error now db
answered policy msg none now db = complete_outbox_send msg.outbox_id msg.event_id now db

abbrev pub deliver :
    ExponentialPolicy → Sender → ℕ → Option ClaimedOutbox × Db → Option ClaimedOutbox × Db
deliver policy send now (none, db) = (none, db)
deliver policy send now (some msg, db) = (some msg, answered policy msg (send msg) now db)

-- The part of a tick before the claim.
abbrev pub prepare : ℕ → Db → Db
prepare now db =
    recover_expired_sending (now - sending_lease) now (beat_heartbeat "outbox_retry" now db)

abbrev tick_with : ExponentialPolicy → Option Sender → ℕ → Db → Option ClaimedOutbox × Db
tick_with policy none now db = (none, db)
tick_with policy (some send) now db =
    deliver policy send now (claim_runtime_outbox "outbox-worker" now db)

-- tick: the message that was sent, if there was one, and the tables after.
unfoldable pub tick : ExponentialPolicy → Option Sender → ℕ → Db → Option ClaimedOutbox × Db
unfolding beat_heartbeat recover_expired_sending claim_runtime_outbox next fail_outbox_send
    complete_outbox_send
tick policy sender now db = tick_with policy sender now (prepare now db)
