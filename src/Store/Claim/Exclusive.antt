-- ===== src/Store/Claim/Exclusive.antt =====
-- internal/store/tx/claim_work.go: a claimed event belongs to one run.

use simiclaw.Base.{
  ℕ, ◌≡◌, refl, sym, ap, ◌∙◌, String, Bool, true, false, Option, none, some, List, [], ◌∷◌, ◌==ˢ◌,
  arith, inl, inr, Option-cases, eq_iff,
}
use simiclaw.Base.Result.{Result, ok, err}
use simiclaw.Store.Tables.{Db, EventRow, RunRow}
use simiclaw.Store.Sql.{
  DbError, find_where, exists_where, update_where, no_mutation, constraint, with_writer_tx,
  >>=-eq-ok,
}
use simiclaw.Store.Claim.{
  insert_run, claim_tx, claim_row, claim_found, claim_event, claim_result, claimable, running,
  new_run, as_claimed,
}

-- A run of the event keeps every row of the event from being claimed.
no_claimable :
    (db : Db) (id : String) (es : List EventRow)
    → exists_where (running id) db.runs ≡ true
    → find_where (claimable db id) es ≡ none
unfolding find_where
no_claimable db id [] h = refl
no_claimable db id (e ∷ es) h =
    ground (arith, no_claimable db id es h, not_claimable (e.event_id ==ˢ id) refl)
  where
    not_claimable : (b : Bool) → (e.event_id ==ˢ id) ≡ b → claimable db id e ≡ false
    not_claimable true p =
        ground (arith, ap (λ i. exists_where (running i) db.runs) ((eq_iff e.event_id id).0 p) ∙ h)
    not_claimable false p = ground (arith, p)

pub find_where-holds :
    {A : Type 0} (test : A → Bool) (xs : List A) (x : A)
    → find_where test xs ≡ some x
    → test x ≡ true
unfolding find_where
find_where-holds test [] x h = cc
find_where-holds test (y ∷ ys) x h = ground (arith, find_where-holds test ys x)

pub claim_tx-found :
    (id run_id : String) (now : ℕ) (db : Db) (o : Option EventRow)
    → find_where (claimable db id) db.events ≡ o
    → claim_tx id run_id now db ≡ claim_found id run_id now o db
unfolding claim_tx
claim_tx-found id run_id now db o h = ap (λ o. claim_found id run_id now o db) h

-- The caller's view of the claiming transaction.
abbrev pub claim_outcome :
    String → Db → Result DbError (EventRow × Db) → Result DbError (Option EventRow) × Db
claim_outcome id db (ok (e, db')) = (claim_result id (ok e), db')
claim_outcome id db (err x) = (claim_result id (err x), db)

pub claim_event-outcome :
    (id run_id : String) (now : ℕ) (db : Db)
    → claim_event id run_id now db ≡ claim_outcome id db (claim_tx id run_id now db)
unfolding claim_event
claim_event-outcome id run_id now db = cases (claim_tx id run_id now db)
  where
    cases :
        (r : Result DbError (EventRow × Db))
        → Path
            (Result DbError (Option EventRow) × Db)
            (let (x, d) = with_writer_tx (λ _. r) db in (claim_result id x, d))
            (claim_outcome id db r)
    cases (ok (e, db')) = refl
    cases (err x) = refl

-- While a run of an event has not ended, the event is not claimed, and nothing is stored.
pub claim_event-running :
    (id run_id : String) (now : ℕ) (db : Db)
    → exists_where (running id) db.runs ≡ true
    → claim_event id run_id now db ≡ (ok none, db)
claim_event-running id run_id now db h =
    claim_event-outcome id run_id now db
    ∙ ap (claim_outcome id db)
        (claim_tx-found id run_id now db none (no_claimable db id db.events h))

insert_run-ok :
    (r : RunRow) (db db' : Db) (u : Unit {0})
    → insert_run r db ≡ ok (u, db')
    → (db'.runs ≡ r ∷ db.runs) × (db'.events ≡ db.events)
unfolding insert_run
insert_run-ok r db db' u h = ground arith

-- What a claim stores.
pub record Claimed (id run_id : String) (now : ℕ) (db db' : Db) (e : EventRow) : Type 0 where
  pub found : claimable db id e ≡ true
  pub run_added : db'.runs ≡ new_run run_id e now ∷ db.runs

claim_row-runs :
    (id run_id : String) (now : ℕ) (e f : EventRow) (db db' : Db)
    → claim_row id run_id now e db ≡ ok (f, db')
    → (db'.runs ≡ new_run run_id e now ∷ db.runs) × (f ≡ e)
claim_row-runs id run_id now e f db db' h =
    let db₀ : Db = record db {
      events = update_where (claimable db id) (as_claimed run_id now) db.events;
    } in
    let (u₁, db₁, h₁, k₁) = >>=-eq-ok (insert_run (new_run run_id e now)) _ db₀ f db' h in
    let p = insert_run-ok (new_run run_id e now) db₀ db₁ u₁ h₁ in ground (arith, p.0)

pub claim_tx-Claimed :
    (id run_id : String) (now : ℕ) (db db' : Db) (f : EventRow)
    → claim_tx id run_id now db ≡ ok (f, db')
    → Claimed id run_id now db db' f
claim_tx-Claimed id run_id now db db' f h =
    elim (Option-cases (find_where (claimable db id) db.events)) [
      | inl p ↦ absurd (no_row (sym (claim_tx-found id run_id now db none p) ∙ h))
      | inr (e, p) ↦
          let q =
            claim_row-runs id run_id now e f db db'
              (sym (claim_tx-found id run_id now db (some e) p) ∙ h) in
          let same = sym q.1 in
          record {
            found = ap (claimable db id) q.1 ∙ find_where-holds (claimable db id) db.events e p;
            run_added = q.0 ∙ ap (λ x. new_run run_id x now ∷ db.runs) same;
          }
    ]
  where
    no_row : Path (Result DbError (EventRow × Db)) (err no_mutation) (ok (f, db')) → ⊥
    no_row p = cc

pub claim_event-Claimed :
    (id run_id : String) (now : ℕ) (db db' : Db) (e : EventRow)
    → claim_event id run_id now db ≡ (ok (some e), db')
    → Claimed id run_id now db db' e
claim_event-Claimed id run_id now db db' e h =
    cases (claim_tx id run_id now db) refl (sym (claim_event-outcome id run_id now db) ∙ h)
  where
    cases :
        (r : Result DbError (EventRow × Db))
        → claim_tx id run_id now db ≡ r
        → claim_outcome id db (claim_tx id run_id now db) ≡ (ok (some e), db')
        → Claimed id run_id now db db' e
    cases (ok (f, db'')) p q =
        let (x, y) = taken f db'' (ap (claim_outcome id db) (sym p) ∙ q) in
        claim_tx-Claimed id run_id now db db' e (p ∙ ground (arith, x, y))
      where
        taken :
            (f : EventRow) (d : Db)
            → claim_outcome id db (ok (f, d)) ≡ (ok (some e), db')
            → (f ≡ e) × (d ≡ db')
        taken f d p = ground arith
    cases (err x) p q = absurd (no_claim x (ap (claim_outcome id db) (sym p) ∙ q))
      where
        no_claim : (x : DbError) → claim_outcome id db (err x) ≡ (ok (some e), db') → ⊥
        no_claim no_mutation p = cc
        no_claim DbError.idempotency_conflict p = cc
        no_claim constraint p = cc

pub claimable-id :
    (db : Db) (id : String) (e : EventRow) → claimable db id e ≡ true → e.event_id ≡ id
claimable-id db id e h = (eq_iff e.event_id id).0 (ground (arith, h))

started_first :
    (id run_id : String) (e : EventRow) (now : ℕ) (rs : List RunRow)
    → e.event_id ≡ id
    → exists_where (running id) (new_run run_id e now ∷ rs) ≡ true
unfolding exists_where
started_first id run_id e now rs p = ground (arith, eq_iff e.event_id id)

-- A claim is exclusive: in the tables that a successful claim left, a second claim of the event by any
-- run and at any time finds nothing to claim and stores nothing.
pub claim_event-again :
    (id run_id run_id' : String) (now now' : ℕ) (db db' : Db) (e : EventRow)
    → claim_event id run_id now db ≡ (ok (some e), db')
    → claim_event id run_id' now' db' ≡ (ok none, db')
claim_event-again id run_id run_id' now now' db db' e h =
    let c = claim_event-Claimed id run_id now db db' e h in
    claim_event-running id run_id' now' db' (
      ap (exists_where (running id)) c.run_added
      ∙ started_first id run_id e now db.runs (claimable-id db id e c.found))
