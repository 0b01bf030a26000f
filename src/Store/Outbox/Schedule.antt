-- ===== src/Store/Outbox/Schedule.antt =====
-- internal/store/tx/outbox.go: when a reply is taken from the outbox.
use simiclaw.Base.{
  ℕ, ◌+◌, ◌≤◌, ◌≡◌, ◌≢◌, sym, ap, ◌∙◌, String, true, false, none, some, arith, inl, inr,
  Option-cases, All, All-map,
}
use simiclaw.Base.Time.{at, stamp_le, second, text_le_sound, text_le_complete}
use simiclaw.Model.Run.{ClaimedOutbox}
use simiclaw.Store.Tables.{Db, OutboxRow}
use simiclaw.Store.Sql.{least_where}
use simiclaw.Store.Outbox.{is_due, is_waiting, sooner, claim_due, claim_runtime_outbox}
use simiclaw.Store.Outbox.Queue.{
  claim_runtime_outbox-Taken, claim_runtime_outbox-found, least_where-some,
}

-- A row whose next attempt is at `t` or later.
abbrev pub Waits : String → ℕ → OutboxRow → Type 0
Waits id t o = o.outbox_id ≡ id → (u : ℕ) × (o.next_attempt_at ≡ at u) × (t ≤ u)

not_due :
    (now t u : ℕ) (o : OutboxRow)
    → o.next_attempt_at ≡ at u
    → t ≤ u
    → now + second ≤ t
    → is_due now o ≡ true
    → ⊥
unfolding is_due stamp_le
not_due now t u o e h late due = omega (arith, text_le_sound u now (ground (arith, due, e)))

-- A reply is not taken earlier than a second before its next attempt. The second is the resolution
-- of the times as texts.
pub claim_runtime_outbox-not_early :
    (owner : String) (now t : ℕ) (id : String) (db db' : Db) (m : ClaimedOutbox)
    → All (Waits id t) db.outbox
    → now + second ≤ t
    → claim_runtime_outbox owner now db ≡ (some m, db')
    → m.outbox_id ≢ id
claim_runtime_outbox-not_early owner now t id db db' m hs late h same =
    let taken = claim_runtime_outbox-Taken (Waits id t) owner now db db' m hs h in
    let (u, e, le) =
      taken.holds (sym (ap (λ (c : ClaimedOutbox). c.outbox_id) taken.message) ∙ same) in
    not_due now t u taken.row e le late taken.due

-- A row that waits for a time at least a second ago.
abbrev pub Overdue : ℕ → OutboxRow → Type 0
Overdue now o =
    (is_waiting o.status ≡ true) × ((u : ℕ) × (o.next_attempt_at ≡ at u) × (u + second ≤ now))

Overdue-due : (now : ℕ) (o : OutboxRow) → Overdue now o → is_due now o ≡ true
unfolding is_due stamp_le
Overdue-due now o (w, (u, e, h)) = ground (arith, w, e, text_le_complete u now h)

-- No reply is forgotten: a claim that takes nothing leaves no row that is overdue by a second or more.
pub claim_runtime_outbox-live :
    (owner : String) (now : ℕ) (db db' : Db)
    → claim_runtime_outbox owner now db ≡ (none, db')
    → All (λ o. Overdue now o → ⊥) db.outbox
unfolding claim_due
claim_runtime_outbox-live owner now db db' h =
    elim (Option-cases (least_where (is_due now) sooner db.outbox)) [
      | inl p ↦
          All-map (λ o. is_due now o ≡ false) (λ o. Overdue now o → ⊥) db.outbox
            (λ o q overdue. true_not_false (sym (Overdue-due now o overdue) ∙ q))
            (least_where-some (is_due now) sooner db.outbox p)
      | inr (o, p) ↦ absurd (taken o (sym (claim_runtime_outbox-found owner now db (some o) p) ∙ h))
    ]
  where
    true_not_false : true ≡ false → ⊥
    true_not_false p = cc

    taken : (o : OutboxRow) → claim_due owner now (some o) db ≡ (none, db') → ⊥
    taken o p = cc
