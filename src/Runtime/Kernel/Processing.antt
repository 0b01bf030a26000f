-- ===== src/Runtime/Kernel/Processing.antt =====
-- internal/runtime/kernel/service.go: what processing a work item publishes and leaves in the tables.
use mathlib.Core.Path.{subst}
use simiclaw.Base.{
  ℕ, suc, ◌≡◌, refl, sym, ap, ◌∙◌, String, Bool, true, false, Option, some, [], ◌∷◌, ◌++◌, ◌==ˢ◌,
  arith, keep_if, keep_if-append, All, eq_iff,
}
use simiclaw.Base.Result.{Result, ok, err}
use simiclaw.Base.Time.{blank}
use simiclaw.Model.{WorkItem, RuntimeEvent, EventRecord, is_terminal}
use simiclaw.Model.Run.{ClaimContext, FinalizeCommand, ExecutionResult}
use simiclaw.Store.Tables.{Db, EventRow, RunRow}
use simiclaw.Store.Sql.{DbError, with_writer_tx}
use simiclaw.Store.Claim.{claim_work}
use simiclaw.Store.Finalize.{finalize, finished_run, finished_event}
use simiclaw.Store.Finalize.Rows.{Rows, finalize_lem, has_event_id, has_run_id}
use simiclaw.Store.Outbox.Queue.{All-update_where_sets}
use simiclaw.Runtime.Kernel.{
  Env, Processed, process, claimed_work, finalized, final_event, lost_event, started_events,
  command, execute, run_id_of,
}
use simiclaw.Runtime.Kernel.Finalizing.{
  is_settled, is_open, build_finalize-Consistent, build_finalize-ids, Consistent,
}

abbrev pub ends : RuntimeEvent → Bool
ends e = is_terminal e.kind

pub process-claimed :
    (env : Env) (work : WorkItem) (db : Db) (r : Result DbError (Option ClaimContext) × Db)
    → claim_work work (run_id_of env) env.claimed_at db ≡ r
    → process env work db ≡ claimed_work env r
unfolding process
process-claimed env work db r h = ap (claimed_work env) h

started_no_end :
    (env : Env) (claim : ClaimContext)
    → keep_if ends (env.progress claim) ≡ []
    → keep_if ends (started_events env claim) ≡ []
unfolding is_terminal
started_no_end env claim h = keep_if-append ends (env.progress claim) _ ∙ ap (λ l. l ++ []) h

last_event :
    (env : Env) (claim : ClaimContext) (e : RuntimeEvent)
    → keep_if ends (env.progress claim) ≡ []
    → ends e ≡ true
    → keep_if ends (started_events env claim ++ e ∷ []) ≡ e ∷ []
last_event env claim e h t =
    keep_if-append ends (started_events env claim) (e ∷ [])
    ∙ ap (λ l. l ++ keep_if ends (e ∷ [])) (started_no_end env claim h)
    ∙ ground (arith, t)

final_ends :
    (claim : ClaimContext) (cmd : FinalizeCommand) (rec : Option EventRecord)
    → ends (final_event claim cmd rec) ≡ true
unfolding is_terminal
final_ends claim cmd rec = ground arith

lost_ends :
    (claim : ClaimContext) (text : String) (now : ℕ) → ends (lost_event claim text now) ≡ true
unfolding is_terminal
lost_ends claim text now = refl

-- Once a work item is claimed, processing it publishes one terminal event, whether the run succeeds,
-- fails, panics or cannot be finalized, and it is the last event that is published; the condition
-- is that the executor's own events are not terminal.
pub process-one_terminal :
    (env : Env) (work : WorkItem) (db db' : Db) (claim : ClaimContext)
    → claim_work work (run_id_of env) env.claimed_at db ≡ (ok (some claim), db')
    → keep_if ends (env.progress claim) ≡ []
    → (e : RuntimeEvent) × ((process env work db).published ≡ started_events env claim ++ e ∷ [])
      × (keep_if ends (process env work db).published ≡ e ∷ [])
process-one_terminal env work db db' claim h quiet =
    subst Last (sym (process-claimed env work db (ok (some claim), db') h))
      (last (with_writer_tx (finalize (command env claim)) (env.meanwhile db')))
  where
    Last : Processed → Type 0
    Last p =
        (e : RuntimeEvent) × (p.published ≡ started_events env claim ++ e ∷ [])
        × (keep_if ends p.published ≡ e ∷ [])

    last : (r : Result DbError (Unit {0}) × Db) → Last (finalized env claim (command env claim) r)
    last (ok u, d) =
        let e = final_event claim (command env claim) (env.view d claim.event.event_id) in
        (
          e,
          refl,
          last_event env claim e quiet
              (final_ends claim (command env claim) (env.view d claim.event.event_id)),
        )
    last (err x, d) =
        let e = lost_event claim (env.describe x) env.failed_at in
        (e, refl, last_event env claim e quiet (lost_ends claim (env.describe x) env.failed_at))

abbrev pub EventSettled : ClaimContext → EventRow → Type 0
EventSettled claim e =
    e.event_id ≡ claim.event.event_id
    → (is_settled e.status ≡ true) × (e.run_id ≡ claim.run_id) × (e.processing_started_at ≡ blank)

abbrev pub RunEnded : ClaimContext → RunRow → Type 0
RunEnded claim r = r.run_id ≡ claim.run_id → is_open r.status ≡ false

true_not_false : true ≡ false → ⊥
true_not_false p = cc

-- The rows of the event are settled and without a lease, and those of the run have ended.
pub record Settled (claim : ClaimContext) (db : Db) : Type 0 where
  pub events_settled : All (EventSettled claim) db.events
  pub run_ended : All (RunEnded claim) db.runs

settled :
    (claim : ClaimContext) (cmd : FinalizeCommand) (db db' : Db)
    → cmd.event_id ≡ claim.event.event_id
    → cmd.run_id ≡ claim.run_id
    → is_settled cmd.event_status ≡ true
    → is_open cmd.run_status ≡ false
    → Rows cmd db db'
    → Settled claim db'
settled claim cmd db db' e r s o out = record {
  events_settled = subst (All (EventSettled claim)) (sym out.event_finished) (
      All-update_where_sets (EventSettled claim) (has_event_id cmd.event_id) (finished_event cmd _)
        db.events (λ x _ _. (s, r, refl))
        (λ x p q. absurd (other x.event_id cmd.event_id p (q ∙ sym e))));
  run_ended = subst (All (RunEnded claim)) (sym out.run_finished) (
      All-update_where_sets (RunEnded claim) (has_run_id cmd.run_id) (finished_run cmd) db.runs
        (λ x _ _. o) (λ x p q. absurd (other x.run_id cmd.run_id p (q ∙ sym r))));
}
  where
    other : (a b : String) → (a ==ˢ b) ≡ false → a ≡ b → ⊥
    other a b p q = absurd (true_not_false (sym ((eq_iff a b).1 q) ∙ p))

-- If `Process` ends without an error for a claimed work item, every row of the event is processed,
-- suppressed or failed, names the run and has no lease, and every row of the run has ended, whatever
-- the executor did and whatever else was written while it ran.
pub process-Settled :
    (env : Env) (work : WorkItem) (db db' : Db) (claim : ClaimContext)
    → claim_work work (run_id_of env) env.claimed_at db ≡ (ok (some claim), db')
    → (process env work db).outcome ≡ ok true
    → Settled claim (process env work db).db
process-Settled env work db db' claim h success =
    let e = process-claimed env work db (ok (some claim), db') h in
    subst (λ p. Settled claim p.db) (sym e)
      (done (finalize (command env claim) (env.meanwhile db')) refl
        (ap (λ p. p.outcome) (sym e) ∙ success))
  where
    result : ExecutionResult × Option String
    result = execute claim (env.executor claim)

    consistent : Consistent result.1 result.0 (command env claim)
    consistent =
        build_finalize-Consistent env.finalized_at (suc env.counter) claim result.0 result.1

    ids :
        ((command env claim).event_id ≡ claim.event.event_id)
        × ((command env claim).run_id ≡ claim.run_id)
    ids = build_finalize-ids env.finalized_at (suc env.counter) claim result.0 result.1

    done :
        (r : Result DbError (Unit {0} × Db))
        → finalize (command env claim) (env.meanwhile db') ≡ r
        → (finalized env claim
            (command env claim)
            (with_writer_tx (λ _. r) (env.meanwhile db'))).outcome
          ≡ ok true
        → Settled claim
            (finalized env claim
              (command env claim)
              (with_writer_tx (λ _. r) (env.meanwhile db'))).db
    done (ok (u, d)) p q =
        settled claim (command env claim) (env.meanwhile db') d ids.0 ids.1 consistent.settled
          consistent.run_ended (finalize_lem (command env claim) (env.meanwhile db') d p)
    done (err x) p q = absurd (failed x q)
      where
        failed : (x : DbError) → Path (Result DbError Bool) (err x) (ok true) → ⊥
        failed x p = cc
