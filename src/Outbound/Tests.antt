-- ===== src/Outbound/Tests.antt =====
-- internal/outbound/delivery/worker.go: the worker on one reply.
use simiclaw.Base.{ℕ, ◌≡◌, refl, none, some, List, [], ◌∷◌, All}
use simiclaw.Base.Time.{at, blank, stamp_le, text_le, bytes_le, fraction}
use simiclaw.Model.{OutboxStatus, pending}
use simiclaw.Outbound.Retry.{default_policy, next, delay_loop}
use simiclaw.Outbound.Delivery.{Sender, tick}
use simiclaw.Outbound.Delivery.Once.{Tick, ticks, Not, sent_once, dead_letter}
use simiclaw.Store.Tables.{Db, OutboxRow, empty_db}
use simiclaw.Store.Sql.{update_where, exists_where, least_where}
use simiclaw.Store.Heartbeat.{beat_heartbeat}
use simiclaw.Store.Outbox.{
  claimed_outbox, recover_expired_sending, unlock_all, stuck_rows, claim_runtime_outbox, claim_due,
  is_due, mirror, update_outbox, fail_outbox_send, complete_outbox_send,
}

abbrev reply : OutboxStatus → ℕ → OutboxRow
reply status attempt_count = record {
  outbox_id = "out_1";
  event_id = "evt_1";
  session_key = "sk";
  channel = "";
  target_id = "";
  body = "hello";
  status = status;
  next_attempt_at = at 0;
  locked_at = blank;
  lock_owner = "";
  attempt_count = attempt_count;
  last_error = "";
  created_at = at 0;
  updated_at = at 0;
  sent_at = blank;
}

abbrev with_reply : OutboxStatus → ℕ → Db
with_reply status attempt_count = record empty_db { outbox = reply status attempt_count ∷ [] }

abbrev works : Sender
works m = none

abbrev breaks : Sender
breaks m = some "refused"

abbrev after : Sender → ℕ → Db
after send attempt_count =
    (tick default_policy (some send) 5000000000 (with_reply pending attempt_count)).1

ticked :
    tick default_policy (some works) 5000000000 (with_reply pending 0)
    ≡ (some (claimed_outbox (reply pending 0)), after works 0)
unfolding tick beat_heartbeat recover_expired_sending unlock_all stuck_rows claim_runtime_outbox
    claim_due is_due mirror update_outbox update_where exists_where least_where complete_outbox_send
    stamp_le text_le bytes_le fraction
ticked = refl

ticked_last :
    tick default_policy (some breaks) 5000000000 (with_reply pending 5)
    ≡ (some (claimed_outbox (reply pending 5)), after breaks 5)
unfolding tick beat_heartbeat recover_expired_sending unlock_all stuck_rows claim_runtime_outbox
    claim_due is_due mirror update_outbox update_where exists_where least_where fail_outbox_send
    next delay_loop stamp_le text_le bytes_le fraction
ticked_last = refl

abbrev later : List Tick
later = record { policy = default_policy; sender = some works; now = 9000000000 } ∷ []

sent_once_example : All (Not "out_1") (ticks later (after works 0)).0
sent_once_example =
    sent_once default_policy works 5000000000 (with_reply pending 0) (after works 0)
      (claimed_outbox (reply pending 0)) later ticked refl

dead_letter_example : All (Not "out_1") (ticks later (after breaks 5)).0
unfolding next delay_loop
dead_letter_example =
    dead_letter default_policy breaks 5000000000 (with_reply pending 5) (after breaks 5)
      (claimed_outbox (reply pending 5)) "refused" later ticked_last refl refl
