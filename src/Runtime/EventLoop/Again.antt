-- ===== src/Runtime/EventLoop/Again.antt =====
-- internal/runtime/eventloop.go: an event that stands in the queue more than once.
use simiclaw.Store.Claim.Work.{claim_work-none, claim_work-id}
use simiclaw.Base.{
  ◌⊎◌, ◌≡◌, refl, sym, ◌∙◌, inl, inr, String, true, false, none, some, List, [], ◌∷◌, ◌==ˢ◌, arith,
  All, eq_iff, Bool-cases,
}
use simiclaw.Base.Result.{ok}
use simiclaw.Model.{EventStatus, WorkItem}
use simiclaw.Model.Run.{ClaimContext}
use simiclaw.Store.Tables.{Db, EventRow}
use simiclaw.Store.Sql.{find_where}
use simiclaw.Store.Claim.{claim_work, claimable, is_runnable}
use simiclaw.Runtime.Kernel.{Env, Processed, process, run_id_of}
use simiclaw.Runtime.Kernel.Finalizing.{is_settled}
use simiclaw.Runtime.Kernel.Processing.{EventSettled, process-claimed, process-Settled}

-- Work that is not claimed: nothing is published and nothing is stored.
abbrev pub idle : Db → Processed
idle db = record { published = []; outcome = ok false; db = db }

settled_not_runnable : (s : EventStatus) → is_settled s ≡ true → is_runnable s ≡ false
settled_not_runnable s h = ground (arith, h)

settled_none :
    (claim : ClaimContext) (db : Db) (id : String) (es : List EventRow)
    → claim.event.event_id ≡ id
    → All (EventSettled claim) es
    → find_where (claimable db id) es ≡ none
unfolding find_where
settled_none claim db id [] i h = refl
settled_none claim db id (e ∷ es) i (s, rest) =
    ground
      (arith, settled_none claim db id es i rest, not_claimable (Bool-cases (e.event_id ==ˢ id)))
  where
    not_claimable :
        ((e.event_id ==ˢ id) ≡ true) ⊎ ((e.event_id ==ˢ id) ≡ false) → claimable db id e ≡ false
    not_claimable (inl p) =
        ground (arith, p, settled_not_runnable e.status (s ((eq_iff e.event_id id).0 p ∙ sym i)).0)
    not_claimable (inr p) = ground (arith, p)

pub process-unclaimed :
    (env : Env) (work : WorkItem) (db : Db)
    → find_where (claimable db work.event_id) db.events ≡ none
    → process env work db ≡ idle db
process-unclaimed env work db h =
    process-claimed env work db (ok none, db)
      (claim_work-none work (run_id_of env) env.claimed_at db h)

-- An event that is processed is not processed again: if the processing of a work item ended without an
-- error, another one of the same event, whoever queued it, publishes nothing and stores nothing.
pub process-again :
    (env env' : Env) (work work' : WorkItem) (db db' : Db) (claim : ClaimContext)
    → claim_work work (run_id_of env) env.claimed_at db ≡ (ok (some claim), db')
    → (process env work db).outcome ≡ ok true
    → work'.event_id ≡ work.event_id
    → process env' work' (process env work db).db ≡ idle (process env work db).db
process-again env env' work work' db db' claim h success same =
    let after = (process env work db).db in
    process-unclaimed env' work' after (
      settled_none claim after work'.event_id after.events
        (claim_work-id work (run_id_of env) env.claimed_at db db' claim h ∙ sym same)
        (process-Settled env work db db' claim h success).events_settled)
