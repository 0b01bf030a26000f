-- ===== src/Store/OneRun.antt =====
-- internal/store/tx/: over any sequence of the store's writes, an event has at most one run that has not ended.
use simiclaw.Base.{
  ℕ, ◌≤◌, ◌≡◌, refl, sym, ap, ◌∙◌, String, Bool, true, false, Option, List, [], ◌∷◌, ◌==ˢ◌,
  if◌then◌else◌, arith, inl, inr, ◌⊎◌, Bool-cases, eq_iff, total,
}
use mathlib.Core.Path.{subst}
use simiclaw.Base.Result.{Result, ok, err}
use simiclaw.Model.Run.{FinalizeCommand}
use simiclaw.Store.Tables.{Db, EventRow, RunRow}
use simiclaw.Store.Sql.{DbError, exists_where, update_where, with_writer_tx}
use simiclaw.Store.Ingest.{mark_event_queued}
use simiclaw.Store.Claim.{claim_tx, claim_event, claimable, running, is_started, new_run}
use simiclaw.Store.Claim.Exclusive.{
  Claimed, claim_tx-Claimed, claim_event-outcome, claimable-id, claim_outcome,
}
use simiclaw.Store.Recover.{recover_one, recover_all, recover_expired_processing, expired_run}
use simiclaw.Store.Finalize.{finalize, finished_run}
use simiclaw.Store.Finalize.Rows.{finalize_lem, has_run_id}

-- The runs of one event that have not ended.
abbrev pub weight : String → RunRow → ℕ
weight id r = if running id r then 1 else 0

abbrev pub open_runs : String → Db → ℕ
open_runs id db = total (weight id) db.runs

abbrev pub OneRun : Db → Type 0
OneRun db = (id : String) → open_runs id db ≤ 1

-- One write of the store.
pub data Step : Db → Db → Type 0 where
  claim : (id run_id : String) (now : ℕ) (db : Db) → Step db (claim_event id run_id now db).1
  recover : (cutoff now : ℕ) (db : Db) → Step db (recover_expired_processing cutoff now db).1
  finish :
      (cmd : FinalizeCommand) (db : Db)
      → is_started cmd.run_status ≡ false
      → Step db (with_writer_tx (finalize cmd) db).1
  mark : (id : String) (now : ℕ) (db : Db) → Step db (mark_event_queued id now db)

pub data Steps : Db → Db → Type 0 where
  stop : (db : Db) → Steps db db
  go : {db db' db'' : Db} → Step db db' → Steps db' db'' → Steps db db''

total-update_where :
    {A : Type 0} (w : A → ℕ) (test : A → Bool) (f : A → A) (xs : List A)
    → ((x : A) → w (f x) ≤ w x)
    → total w (update_where test f xs) ≤ total w xs
unfolding total update_where
total-update_where w test f [] h = omega arith
total-update_where w test f (x ∷ xs) h = ground (arith, h x, total-update_where w test f xs h)

none_open :
    (id : String) (rs : List RunRow)
    → exists_where (running id) rs ≡ false
    → total (weight id) rs ≡ 0
unfolding total exists_where
none_open id [] h = refl
none_open id (r ∷ rs) h = ground (arith, none_open id rs)

finished-weight :
    (id : String) (cmd : FinalizeCommand) (r : RunRow)
    → is_started cmd.run_status ≡ false
    → weight id (finished_run cmd r) ≤ weight id r
finished-weight id cmd r h = ground (arith, h)

expired-weight : (id : String) (now : ℕ) (r : RunRow) → weight id (expired_run now r) ≤ weight id r
expired-weight id now r = ground arith

recover_all-open :
    (id : String) (now : ℕ) (db : Db) (ids : List String)
    → open_runs id (recover_all now db ids) ≤ open_runs id db
unfolding recover_all recover_one
recover_all-open id now db [] = omega arith
recover_all-open id now db (i ∷ ids) = omega (
  arith,
  recover_all-open id now (recover_one now db i) ids,
  total-update_where (weight id) (running i) (expired_run now) db.runs (expired-weight id now),
)

claimable-free :
    (db : Db) (id : String) (e : EventRow)
    → claimable db id e ≡ true
    → exists_where (running id) db.runs ≡ false
claimable-free db id e h =
    ap (λ i. exists_where (running i) db.runs) (sym (claimable-id db id e h)) ∙ ground (arith, h)

Claimed-OneRun :
    (id run_id : String) (now : ℕ) (db db' : Db) (e : EventRow)
    → Claimed id run_id now db db' e
    → OneRun db
    → OneRun db'
unfolding total
Claimed-OneRun id run_id now db db' e c h i =
    subst (λ rs. total (weight i) rs ≤ 1) (sym c.run_added)
      (counted (Bool-cases (e.event_id ==ˢ i)))
  where
    counted :
        ((e.event_id ==ˢ i) ≡ true) ⊎ ((e.event_id ==ˢ i) ≡ false)
        → total (weight i) (new_run run_id e now ∷ db.runs) ≤ 1
    counted (inl p) = ground (
      arith,
      none_open i db.runs (
          ap (λ j. exists_where (running j) db.runs)
            (sym ((eq_iff e.event_id i).0 p) ∙ claimable-id db id e c.found)
          ∙ claimable-free db id e c.found),
    )
    counted (inr p) = ground (arith, p, h i)

claim-OneRun :
    (id run_id : String) (now : ℕ) (db : Db) → OneRun db → OneRun (claim_event id run_id now db).1
claim-OneRun id run_id now db h i =
    subst (λ (p : Result DbError (Option EventRow) × Db). open_runs i p.1 ≤ 1)
      (sym (claim_event-outcome id run_id now db)) (cases (claim_tx id run_id now db) refl)
  where
    cases :
        (r : Result DbError (EventRow × Db))
        → claim_tx id run_id now db ≡ r
        → open_runs i (claim_outcome id db r).1 ≤ 1
    cases (ok (e, db')) p =
        Claimed-OneRun id run_id now db db' e (claim_tx-Claimed id run_id now db db' e p) h i
    cases (err x) p = h i

finish-OneRun :
    (cmd : FinalizeCommand) (db : Db)
    → is_started cmd.run_status ≡ false
    → OneRun db
    → OneRun (with_writer_tx (finalize cmd) db).1
finish-OneRun cmd db ends h i = cases (finalize cmd db) refl
  where
    cases :
        (r : Result DbError (Unit {0} × Db))
        → finalize cmd db ≡ r
        → open_runs i (with_writer_tx (λ _. r) db).1 ≤ 1
    cases (ok (tt, db')) p =
        subst (λ rs. total (weight i) rs ≤ 1) (sym (finalize_lem cmd db db' p).run_finished)
          (omega (
            arith,
            h i,
            total-update_where (weight i) (has_run_id cmd.run_id) (finished_run cmd) db.runs
                (λ r. finished-weight i cmd r ends),
          ))
    cases (err x) p = h i

pub Step-OneRun : {db db' : Db} → Step db db' → OneRun db → OneRun db'
unfolding recover_expired_processing mark_event_queued
Step-OneRun (claim id run_id now db) h i = claim-OneRun id run_id now db h i
Step-OneRun (recover cutoff now db) h i =
    omega (arith, h i, recover_all-open i now db (recover_expired_processing cutoff now db).0)
Step-OneRun (finish cmd db ends) h i = finish-OneRun cmd db ends h i
Step-OneRun (mark id now db) h i = h i

-- After any sequence of claims, recoveries, finalizes and queue marks from tables in which every event
-- has at most one run that has not ended, every event has at most one such run.
pub Steps-OneRun : {db db' : Db} → Steps db db' → OneRun db → OneRun db'
Steps-OneRun (stop db) h = h
Steps-OneRun (go s ss) h = Steps-OneRun ss (Step-OneRun s h)
