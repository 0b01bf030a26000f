-- ===== src/Outbound/Delivery/Once.antt =====
-- internal/outbound/delivery/worker.go: a reply that was sent is not sent again.
use simiclaw.Base.{
  ℕ, ◌-◌, ◌≡◌, ◌≢◌, refl, sym, ap, ◌∙◌, String, true, Option, none, some, List, [], ◌∷◌, arith, All,
}
use mathlib.Core.Path.{subst}
use simiclaw.Model.Run.{ClaimedOutbox}
use simiclaw.Outbound.Retry.{ExponentialPolicy, next}
use simiclaw.Outbound.Delivery.{Sender, sending_lease, answered, deliver, prepare, tick}
use simiclaw.Store.Tables.{Db}
use simiclaw.Store.Heartbeat.{beat_heartbeat}
use simiclaw.Store.Outbox.{claim_runtime_outbox, fail_outbox_send}
use simiclaw.Store.Outbox.Held.{
  Final, Final-Held, recover_expired_sending-Final, claim_runtime_outbox-Final,
  claim_runtime_outbox-Held, complete_outbox_send-other, fail_outbox_send-other,
  complete_outbox_send-Final, fail_outbox_send-Final,
}

-- One tick of the worker, with the clock's reading and the channels as they are at that moment.
pub record Tick : Type 0 where
  pub policy : ExponentialPolicy
  pub sender : Option Sender
  pub now : ℕ

abbrev pub do_tick : Tick → Db → Option ClaimedOutbox × Db
do_tick t db = tick t.policy t.sender t.now db

-- The messages that a worker sends over a sequence of ticks, and the tables after them.
pub ticks : List Tick → Db → List (Option ClaimedOutbox) × Db
ticks [] db = ([], db)
ticks (t ∷ ts) db = let (m, db₁) = do_tick t db in let (ms, db₂) = ticks ts db₁ in (m ∷ ms, db₂)

-- It is not the message with an id.
abbrev pub Not : String → Option ClaimedOutbox → Type 0
Not id none = Unit
Not id (some m) = m.outbox_id ≢ id

prepare-Final :
    (id : String) (now : ℕ) (db : Db)
    → All (Final id) db.outbox
    → All (Final id) (prepare now db).outbox
unfolding beat_heartbeat
prepare-Final id now db h =
    recover_expired_sending-Final id (now - sending_lease) now
      (beat_heartbeat "outbox_retry" now db) h

answered-Final :
    (id : String) (policy : ExponentialPolicy) (msg : ClaimedOutbox) (answer : Option String)
    (now : ℕ) (db : Db)
    → msg.outbox_id ≢ id
    → All (Final id) db.outbox
    → All (Final id) (answered policy msg answer now db).outbox
answered-Final id policy msg (some error) now db differ h =
    fail_outbox_send-other id msg.outbox_id msg.event_id error _ _ now db differ h
answered-Final id policy msg none now db differ h =
    complete_outbox_send-other id msg.outbox_id msg.event_id now db differ h

abbrev Safe : String → Option ClaimedOutbox × Db → Type 0
Safe id r = Not id r.0 × All (Final id) r.1.outbox

deliver-Safe :
    (id : String) (policy : ExponentialPolicy) (send : Sender) (now : ℕ)
    (r : Option ClaimedOutbox × Db)
    → Safe id r
    → Safe id (deliver policy send now r)
deliver-Safe id policy send now (none, db) h = h
deliver-Safe id policy send now (some msg, db) h =
    (h.0, answered-Final id policy msg (send msg) now db h.0 h.1)

claim-Safe :
    (id owner : String) (now : ℕ) (db : Db)
    → All (Final id) db.outbox
    → Safe id (claim_runtime_outbox owner now db)
claim-Safe id owner now db h =
    (other (claim_runtime_outbox owner now db) refl, claim_runtime_outbox-Final owner now id db h)
  where
    other : (r : Option ClaimedOutbox × Db) → claim_runtime_outbox owner now db ≡ r → Not id r.0
    other (none, db') p = tt
    other (some m, db') p =
        claim_runtime_outbox-Held owner now id db db' m (Final-Held id db.outbox h) p

tick-Safe :
    (id : String) (policy : ExponentialPolicy) (sender : Option Sender) (now : ℕ) (db : Db)
    → All (Final id) db.outbox
    → Safe id (tick policy sender now db)
unfolding tick
tick-Safe id policy none now db h = (tt, prepare-Final id now db h)
tick-Safe id policy (some send) now db h =
    deliver-Safe id policy send now _
      (claim-Safe id "outbox-worker" now (prepare now db) (prepare-Final id now db h))

-- A message whose row is sent or dead is never sent again, over any sequence of ticks with any clock
-- readings, policies and channel answers, and its row stays so.
pub ticks-Final :
    (ts : List Tick) (id : String) (db : Db)
    → All (Final id) db.outbox
    → All (Not id) (ticks ts db).0 × All (Final id) (ticks ts db).1.outbox
unfolding ticks
ticks-Final [] id db h = (tt, h)
ticks-Final (t ∷ ts) id db h =
    let now = tick-Safe id t.policy t.sender t.now db h in
    let rest = ticks-Final ts id _ now.1 in ((now.0, rest.0), rest.1)

-- The tables after a tick that sent a message.
tick_sent :
    (policy : ExponentialPolicy) (send : Sender) (now : ℕ) (db db' : Db) (m : ClaimedOutbox)
    → tick policy (some send) now db ≡ (some m, db')
    → (db₁ : Db) × (db' ≡ answered policy m (send m) now db₁)
unfolding tick
tick_sent policy send now db db' m h =
    cases (claim_runtime_outbox "outbox-worker" now (prepare now db)) h
  where
    cases :
        (r : Option ClaimedOutbox × Db)
        → deliver policy send now r ≡ (some m, db')
        → (db₁ : Db) × (db' ≡ answered policy m (send m) now db₁)
    cases (none, db₁) p = absurd (cc)
    cases (some c, db₁) p = (db₁, ground arith)

-- A message that its channel took without an error is sent once: no later tick sends it.
pub sent_once :
    (policy : ExponentialPolicy) (send : Sender) (now : ℕ) (db db' : Db) (m : ClaimedOutbox)
    (ts : List Tick)
    → tick policy (some send) now db ≡ (some m, db')
    → send m ≡ none
    → All (Not m.outbox_id) (ticks ts db').0
sent_once policy send now db db' m ts h took =
    let (db₁, e) = tick_sent policy send now db db' m h in
    (ticks-Final ts m.outbox_id db' (
      subst (λ (d : Db). All (Final m.outbox_id) d.outbox)
        (sym (e ∙ ap (λ answer. answered policy m answer now db₁) took))
        (complete_outbox_send-Final m.outbox_id m.event_id now db₁))).0

-- A message that failed as many times as the policy allows is dead: no later tick sends it.
pub dead_letter :
    (policy : ExponentialPolicy) (send : Sender) (now : ℕ) (db db' : Db) (m : ClaimedOutbox)
    (error : String) (ts : List Tick)
    → tick policy (some send) now db ≡ (some m, db')
    → send m ≡ some error
    → (next policy m.attempt_count now).dead ≡ true
    → All (Not m.outbox_id) (ticks ts db').0
dead_letter policy send now db db' m error ts h refused last =
    let (db₁, e) = tick_sent policy send now db db' m h in
    let at = (next policy m.attempt_count now).next_attempt_at in
    (ticks-Final ts m.outbox_id db' (
      subst (λ (d : Db). All (Final m.outbox_id) d.outbox)
        (sym (
          e
          ∙ ap (λ answer. answered policy m answer now db₁) refused
          ∙ ap (λ b. fail_outbox_send m.outbox_id m.event_id error b at now db₁) last))
        (fail_outbox_send-Final m.outbox_id m.event_id error at now db₁))).0
