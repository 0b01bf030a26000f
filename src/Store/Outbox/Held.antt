-- ===== src/Store/Outbox/Held.antt =====
-- internal/store/tx/outbox.go: a reply that is being sent, or is done with, is not taken again.
use simiclaw.Base.{
  ℕ, ◌≡◌, ◌≢◌, refl, sym, ap, ◌∙◌, String, Bool, true, false, Option, none, some, List, [], ◌∷◌,
  ◌==ˢ◌, if◌then◌else◌, arith, eq_iff, All, All-map,
}
use mathlib.Core.Path.{subst}
use simiclaw.Model.{OutboxStatus, sent, dead}
use simiclaw.Model.Run.{ClaimedOutbox}
use simiclaw.Store.Tables.{Db, OutboxRow}
use simiclaw.Store.Sql.{least_where}
use simiclaw.Store.Outbox.{
  is_due, sooner, claim_due, is_waiting, is_sending, is_stuck, locked, unlocked,
  claim_runtime_outbox, mirror, update_outbox, stuck_rows, unlock_all, recover_expired_sending,
  fail_outbox_send, complete_outbox_send, send_failed, send_completed,
}
use simiclaw.Store.Outbox.Queue.{
  claim_runtime_outbox-found, least_where-holds, All-update_where, All-update_where_sets,
  claim_runtime_outbox-Taken,
}

-- The rows with an id are not waiting.
abbrev pub Held : String → OutboxRow → Type 0
Held id o = o.outbox_id ≡ id → is_waiting o.status ≡ false

-- The rows with an id are sent or dead.
abbrev pub is_final : OutboxStatus → Bool
is_final sent = true
is_final dead = true
is_final _ = false

abbrev pub Final : String → OutboxRow → Type 0
Final id o = o.outbox_id ≡ id → is_final o.status ≡ true

Held-Final : (id : String) (o : OutboxRow) → Final id o → Held id o
Held-Final id o h e = waits o.status (h e)
  where
    waits : (s : OutboxStatus) → is_final s ≡ true → is_waiting s ≡ false
    waits s p = ground arith

pub Final-Held : (id : String) (os : List OutboxRow) → All (Final id) os → All (Held id) os
Final-Held id os h = All-map (Final id) (Held id) os (Held-Final id) h

-- A row that is not waiting is not taken.
pub claim_runtime_outbox-Held :
    (owner : String) (now : ℕ) (id : String) (db db' : Db) (m : ClaimedOutbox)
    → All (Held id) db.outbox
    → claim_runtime_outbox owner now db ≡ (some m, db')
    → m.outbox_id ≢ id
unfolding is_due
claim_runtime_outbox-Held owner now id db db' m hs h same =
    let taken = claim_runtime_outbox-Taken (Held id) owner now db db' m hs h in
    waits taken.row
      (taken.holds (sym (ap (λ (c : ClaimedOutbox). c.outbox_id) taken.message) ∙ same)) taken.due
  where
    waits : (o : OutboxRow) → is_waiting o.status ≡ false → is_due now o ≡ true → ⊥
    waits o p q = ground (arith, p, q)

true_not_false : true ≡ false → ⊥
true_not_false p = cc

-- A change of the rows with one id, for a property of the rows with that id only.
pub update_outbox-sets :
    (P : OutboxRow → Type 0) (id : String) (f : OutboxRow → OutboxRow) (db : Db)
    → ((o : OutboxRow) → P (f o))
    → ((o : OutboxRow) → (o.outbox_id ≡ id → ⊥) → P o)
    → All P (update_outbox id f db).outbox
unfolding update_outbox
update_outbox-sets P id f db h k =
    All-update_where_sets P (λ o. o.outbox_id ==ˢ id) f db.outbox (λ o _. h o)
      (λ o p. k o (λ e. true_not_false (sym ((eq_iff o.outbox_id id).1 e) ∙ p)))

-- Two claims in a row take two different replies: a reply is with one worker at a time.
pub claim_runtime_outbox-again :
    (owner owner' : String) (now now' : ℕ) (db db' db'' : Db) (m m' : ClaimedOutbox)
    → claim_runtime_outbox owner now db ≡ (some m, db')
    → claim_runtime_outbox owner' now' db' ≡ (some m', db'')
    → m'.outbox_id ≢ m.outbox_id
unfolding mirror
claim_runtime_outbox-again owner owner' now now' db db' db'' m m' h h' =
    let taken = claim_runtime_outbox-Taken (λ o. Unit {0}) owner now db db' m (all db.outbox) h in
    claim_runtime_outbox-Held owner' now' m.outbox_id db' db'' m'
      (subst (λ d. All (Held m.outbox_id) d.outbox) (sym taken.after)
        (locked_held taken.row (ap (λ (c : ClaimedOutbox). c.outbox_id) taken.message)))
      h'
  where
    locked_held :
        (o : OutboxRow)
        → m.outbox_id ≡ o.outbox_id
        → All (Held m.outbox_id) (update_outbox o.outbox_id (locked owner now) db).outbox
    locked_held o e =
        update_outbox-sets (Held m.outbox_id) o.outbox_id (locked owner now) db (λ _ _. refl)
          (λ p n q. absurd (n (q ∙ e)))

    all : (os : List OutboxRow) → All (λ o. Unit {0}) os
    all [] = tt
    all (o ∷ os) = (tt, all os)

-- A write that does not touch the rows with an id.
update_outbox-other :
    (id id' : String) (f : OutboxRow → OutboxRow) (db : Db)
    → ((o : OutboxRow) → (f o).outbox_id ≡ o.outbox_id)
    → id' ≢ id
    → All (Final id) db.outbox
    → All (Final id) (update_outbox id' f db).outbox
unfolding update_outbox
update_outbox-other id id' f db same differ h =
    All-update_where (Final id) (λ o. o.outbox_id ==ˢ id') f db.outbox
      (λ o p _ e. absurd (differ (sym ((eq_iff o.outbox_id id').0 p) ∙ sym (same o) ∙ e))) h

pub complete_outbox_send-other :
    (id id' event_id : String) (now : ℕ) (db : Db)
    → id' ≢ id
    → All (Final id) db.outbox
    → All (Final id) (complete_outbox_send id' event_id now db).outbox
unfolding complete_outbox_send mirror
complete_outbox_send-other id id' event_id now db differ h =
    update_outbox-other id id' (send_completed now) db (λ o. refl) differ h

pub fail_outbox_send-other :
    (id id' event_id error : String) (is_dead : Bool) (next now : ℕ) (db : Db)
    → id' ≢ id
    → All (Final id) db.outbox
    → All (Final id) (fail_outbox_send id' event_id error is_dead next now db).outbox
unfolding fail_outbox_send mirror
fail_outbox_send-other id id' event_id error is_dead next now db differ h =
    update_outbox-other id id' (send_failed error is_dead next now) db (λ o. refl) differ h

-- A reply that was sent, or is dead, is so in its row.
pub complete_outbox_send-Final :
    (id event_id : String) (now : ℕ) (db : Db)
    → All (Final id) (complete_outbox_send id event_id now db).outbox
unfolding complete_outbox_send mirror
complete_outbox_send-Final id event_id now db =
    update_outbox-sets (Final id) id (send_completed now) db (λ _ _. refl) (λ o n e. absurd (n e))

pub fail_outbox_send-Final :
    (id event_id error : String) (next now : ℕ) (db : Db)
    → All (Final id) (fail_outbox_send id event_id error true next now db).outbox
unfolding fail_outbox_send mirror
fail_outbox_send-Final id event_id error next now db =
    update_outbox-sets (Final id) id (send_failed error true next now) db (λ _ _. refl)
      (λ o n e. absurd (n e))

stuck_not-Final :
    (cutoff : ℕ) (id : String) (o : OutboxRow)
    → is_stuck cutoff o ≡ true
    → Final id o
    → o.outbox_id ≢ id
stuck_not-Final cutoff id o p h e = sends o.status (ground (arith, p)) (h e)
  where
    sends : (s : OutboxStatus) → is_sending s ≡ true → is_final s ≡ true → ⊥
    sends s p q = ground arith

stuck_rows-other :
    (cutoff : ℕ) (id : String) (os : List OutboxRow)
    → All (Final id) os
    → All (λ o. o.outbox_id ≢ id) (stuck_rows cutoff os)
unfolding stuck_rows
stuck_rows-other cutoff id [] h = tt
stuck_rows-other cutoff id (o ∷ os) h =
    pick (stuck_rows-other cutoff id os h.1) (is_stuck cutoff o) refl
  where
    pick :
        All (λ o. o.outbox_id ≢ id) (stuck_rows cutoff os)
        → (b : Bool) → is_stuck cutoff o ≡ b
        → All (λ o. o.outbox_id ≢ id) (if b then o ∷ stuck_rows cutoff os else stuck_rows cutoff os)
    pick rest true p = (stuck_not-Final cutoff id o p h.0, rest)
    pick rest false p = rest

unlock_all-Final :
    (id : String) (now : ℕ) (os : List OutboxRow) (db : Db)
    → All (λ o. o.outbox_id ≢ id) os
    → All (Final id) db.outbox
    → All (Final id) (unlock_all now os db).outbox
unfolding unlock_all mirror
unlock_all-Final id now [] db others h = h
unlock_all-Final id now (o ∷ os) db others h =
    unlock_all-Final id now os _ others.1
      (update_outbox-other id o.outbox_id (unlocked now) db (λ _. refl) others.0 h)

pub recover_expired_sending-Final :
    (id : String) (cutoff now : ℕ) (db : Db)
    → All (Final id) db.outbox
    → All (Final id) (recover_expired_sending cutoff now db).outbox
unfolding recover_expired_sending
recover_expired_sending-Final id cutoff now db h =
    unlock_all-Final id now (stuck_rows cutoff db.outbox) db
      (stuck_rows-other cutoff id db.outbox h) h

pub claim_runtime_outbox-Final :
    (owner : String) (now : ℕ) (id : String) (db : Db)
    → All (Final id) db.outbox
    → All (Final id) (claim_runtime_outbox owner now db).1.outbox
unfolding claim_due mirror is_due
claim_runtime_outbox-Final owner now id db h =
    cases (least_where (is_due now) sooner db.outbox) refl
  where
    due_not_final : (o : OutboxRow) → is_due now o ≡ true → Final id o → o.outbox_id ≢ id
    due_not_final o p q e = waits o.status (ground (arith, p)) (q e)
      where
        waits : (s : OutboxStatus) → is_waiting s ≡ true → is_final s ≡ true → ⊥
        waits s p q = ground arith

    cases :
        (o : Option OutboxRow)
        → least_where (is_due now) sooner db.outbox ≡ o
        → All (Final id) (claim_runtime_outbox owner now db).1.outbox
    cases none p =
        subst (λ (r : Option ClaimedOutbox × Db). All (Final id) r.1.outbox)
          (sym (claim_runtime_outbox-found owner now db none p)) h
    cases (some o) p =
        let (held, due) = least_where-holds (is_due now) sooner (Final id) db.outbox o h p in
        subst (λ (r : Option ClaimedOutbox × Db). All (Final id) r.1.outbox)
          (sym (claim_runtime_outbox-found owner now db (some o) p))
          (update_outbox-other id o.outbox_id (locked owner now) db (λ _. refl)
            (due_not_final o due held) h)
