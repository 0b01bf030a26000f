-- ===== src/Store/Claim/Work.antt =====
-- internal/store/tx/claim_work.go: what ClaimWork gives.
use simiclaw.Base.{ℕ, ◌≡◌, ap, ◌∙◌, String, Option, none, some}
use simiclaw.Base.Result.{Result, ok, err}
use simiclaw.Model.{WorkItem}
use simiclaw.Model.Run.{ClaimContext}
use simiclaw.Store.Tables.{Db, EventRow}
use simiclaw.Store.Sql.{DbError, find_where}
use simiclaw.Store.Claim.{claim_work, claim_event, claimable, claimed_work}
use simiclaw.Store.Claim.Exclusive.{claim_event-outcome, claim_outcome, claim_tx-found}

claim_event-none :
    (id run_id : String) (now : ℕ) (db : Db)
    → find_where (claimable db id) db.events ≡ none
    → claim_event id run_id now db ≡ (ok none, db)
claim_event-none id run_id now db h =
    claim_event-outcome id run_id now db
    ∙ ap (claim_outcome id db) (claim_tx-found id run_id now db none h)

-- Without a row to claim nothing is claimed and nothing is stored.
pub claim_work-none :
    (work : WorkItem) (run_id : String) (now : ℕ) (db : Db)
    → find_where (claimable db work.event_id) db.events ≡ none
    → claim_work work run_id now db ≡ (ok none, db)
unfolding claim_work
claim_work-none work run_id now db h =
    ap (λ r. (claimed_work work run_id r.0, r.1)) (claim_event-none work.event_id run_id now db h)

claimed_work-id :
    (work : WorkItem) (run_id : String) (claim : ClaimContext)
    (r : Result DbError (Option EventRow))
    → claimed_work work run_id r ≡ ok (some claim)
    → claim.event.event_id ≡ work.event_id
claimed_work-id work run_id claim (ok none) h = absurd (cc)
claimed_work-id work run_id claim (ok (some e)) h = cc
claimed_work-id work run_id claim (err e) h = absurd (cc)

pub claim_work-id :
    (work : WorkItem) (run_id : String) (now : ℕ) (db db' : Db) (claim : ClaimContext)
    → claim_work work run_id now db ≡ (ok (some claim), db')
    → claim.event.event_id ≡ work.event_id
unfolding claim_work
claim_work-id work run_id now db db' claim h =
    claimed_work-id work run_id claim (claim_event work.event_id run_id now db).0 (ap (λ r. r.0) h)
