-- ===== src/Store/Recover/Requeue.antt =====
-- internal/store/tx/recover_processing.go: a recovered event can be claimed again.
use simiclaw.Base.{
  ℕ, ◌≡◌, refl, ap, ◌∙◌, String, Bool, true, false, some, List, [], ◌∷◌, ◌==ˢ◌, if◌then◌else◌,
  arith, eq_iff,
}
use simiclaw.Base.Result.{ok}
use simiclaw.Base.Text.{is_empty}
use simiclaw.Store.Tables.{Db, EventRow, RunRow}
use simiclaw.Store.Sql.{find_where, exists_where, update_where, >>=-ok}
use simiclaw.Store.Claim.{
  claim_tx, claim_event, claimable, running, insert_run, new_run, as_claimed,
}
use simiclaw.Store.Claim.Exclusive.{claim_event-outcome, claim_tx-found, claim_outcome}
use simiclaw.Store.Recover.{recover_one, in_processing, requeued, expired_run}

-- No run of the event is open after its recovery.
none_running :
    (id : String) (now : ℕ) (rs : List RunRow)
    → exists_where (running id) (update_where (running id) (expired_run now) rs) ≡ false
unfolding exists_where update_where
none_running id now [] = refl
none_running id now (r ∷ rs) = ground (arith, none_running id now rs)

requeued-claimable :
    (id : String) (now : ℕ) (db : Db) (e : EventRow)
    → exists_where (running id) db.runs ≡ false
    → in_processing id e ≡ true
    → claimable db id (requeued now e) ≡ true
requeued-claimable id now db e free h = ground (
  arith,
  ap (λ i. exists_where (running i) db.runs) ((eq_iff e.event_id id).0 (ground (arith, h))) ∙ free,
  h,
)

-- Some row is found by a claim, if one of the event was in processing.
abbrev Found : String → Db → List EventRow → Type 0
Found id db es = (e : EventRow) × (find_where (claimable db id) es ≡ some e)

find_first :
    (id : String) (db : Db) (e : EventRow) (es : List EventRow)
    → claimable db id e ≡ true
    → Found id db (e ∷ es)
unfolding find_where
find_first id db e es h = (e, ground (arith, h))

find_later :
    (id : String) (db : Db) (e : EventRow) (es : List EventRow)
    → Found id db es
    → Found id db (e ∷ es)
unfolding find_where
find_later id db e es (f, h) = pick (claimable db id e)
  where
    pick :
        (b : Bool)
        → (g : EventRow) × ((if b then some e else find_where (claimable db id) es) ≡ some g)
    pick true = (e, refl)
    pick false = (f, h)

Found-again :
    (id : String) (now : ℕ) (db : Db) (es : List EventRow)
    → exists_where (running id) db.runs ≡ false
    → exists_where (in_processing id) es ≡ true
    → Found id db (update_where (in_processing id) (requeued now) es)
unfolding exists_where update_where
Found-again id now db [] free h = cc
Found-again id now db (e ∷ es) free h =
    pick (λ k. Found-again id now db es free k) (in_processing id e) refl
  where
    pick :
        (exists_where (in_processing id) es ≡ true
          → Found id db (update_where (in_processing id) (requeued now) es))
        → (b : Bool) → in_processing id e ≡ b
        → Found id db
            ((if b then requeued now e else e) ∷ update_where (in_processing id) (requeued now) es)
    pick rest true p = find_first id db (requeued now e) _ (requeued-claimable id now db e free p)
    pick rest false p = find_later id db e _ (rest (ground (arith, h, p)))

insert_run-fresh :
    (r : RunRow) (db : Db)
    → exists_where (λ (x : RunRow). x.run_id ==ˢ r.run_id) db.runs ≡ false
    → insert_run r db ≡ ok (tt, record db { runs = r ∷ db.runs })
unfolding insert_run
insert_run-fresh r db h = ground (arith, h)

abbrev pub has_run : String → RunRow → Bool
has_run run_id r = r.run_id ==ˢ run_id

expired-has_run :
    (id run_id : String) (now : ℕ) (rs : List RunRow)
    → exists_where (has_run run_id) (update_where (running id) (expired_run now) rs)
      ≡ exists_where (has_run run_id) rs
unfolding exists_where update_where
expired-has_run id run_id now [] = refl
expired-has_run id run_id now (r ∷ rs) = ground (arith, expired-has_run id run_id now rs)

claim_tx-fresh :
    (id run_id : String) (now : ℕ) (db : Db)
    → Found id db db.events
    → exists_where (has_run run_id) db.runs ≡ false
    → (e : EventRow) × (db' : Db) × (claim_tx id run_id now db ≡ ok (e, db'))
claim_tx-fresh id run_id now db (e, f) fresh =
    let db₀ : Db = record db {
      events = update_where (claimable db id) (as_claimed run_id now) db.events;
    } in
    (
      e,
      _,
      claim_tx-found id run_id now db (some e) f
          ∙ >>=-ok (insert_run (new_run run_id e now)) _ db₀ tt _
              (insert_run-fresh (new_run run_id e now) db₀ fresh),
    )

-- An event whose lease ran out is not lost: once it is recovered, a claim with a run id that is not
-- taken yet succeeds, although the run before never ended.
pub recover_one-claimable :
    (id run_id : String) (now now' : ℕ) (db : Db)
    → is_empty id ≡ false
    → exists_where (in_processing id) db.events ≡ true
    → exists_where (has_run run_id) db.runs ≡ false
    → (e : EventRow) × (db' : Db) × (claim_event id run_id now' (recover_one now db id)
        ≡ (ok (some e), db'))
unfolding recover_one
recover_one-claimable id run_id now now' db named busy fresh =
    let after = recover_one now db id in
    let (e, db', p) =
      claim_tx-fresh id run_id now' after
        (Found-again id now after db.events (none_running id now db.runs) busy)
        (expired-has_run id run_id now db.runs ∙ fresh) in
    (
      e,
      db',
      claim_event-outcome id run_id now' after
          ∙ ap (claim_outcome id after) p
          ∙ ground (arith, named),
    )
