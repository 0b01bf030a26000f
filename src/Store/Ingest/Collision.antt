-- ===== src/Store/Ingest/Collision.antt =====
-- internal/store/tx/ingest_event.go: event ids come from a clock reading alone.
use simiclaw.Base.{
  ℕ, ◌≡◌, refl, sym, ap, ◌∙◌, String, Bool, true, false, ◌||◌, Option, none, some, List, ◌∷◌, ◌==ˢ◌,
  if◌then◌else◌, arith, inl, inr, eq_iff, ◌⊎◌,
}
use simiclaw.Base.Result.{Result, ok, err}
use simiclaw.Base.Text.{is_empty}
use simiclaw.Gateway.Model.{PersistRequest, PersistResult}
use simiclaw.Gateway.Bindings.Scope.{normalize_scope}
use simiclaw.Store.Tables.{Db, SessionRow, EventRow, KeyRow}
use simiclaw.Store.Sql.{
  Tx, DbError, find_where, exists_where, id_at, constraint, ◌>>◌, return, >>=-ok, >>=-err,
  with_writer_tx,
}
use simiclaw.Store.Sessions.{session_found, new_session, resolve_session}
use simiclaw.Store.Ingest.{
  insert_key, insert_event, persist_new, persist_found, persist_event, new_key, new_event,
  remember_scope, insert_rows, insert_in_session, upsert_conversation_dm_scope,
}
use simiclaw.Store.Ingest.Idempotency.{
  fresh_result, key_is, rolled_back, persist_event-found, persist_new-Added,
}

-- A step that cannot fail and leaves the events alone.
abbrev Goes : {A : Type 0} → Db → Result DbError (A × Db) → Type 0
Goes {A} db r = (a : A) × (db' : Db) × (r ≡ ok (a, db')) × (db'.events ≡ db.events)

remember_scope-Goes :
    (b : Bool) (tenant_id : String) (req : PersistRequest) (scope : String) (now : ℕ) (db : Db)
    → Goes db (remember_scope b tenant_id req.conversation scope now db)
unfolding upsert_conversation_dm_scope
remember_scope-Goes true tenant_id req scope now db = (tt, db, refl, refl)
remember_scope-Goes false tenant_id req scope now db = (tt, _, refl, refl)

resolve_session-Goes :
    (key : String) (req : PersistRequest) (scope : String) (now : ℕ) (db : Db)
    → Goes db (resolve_session key req.conversation scope now db)
unfolding resolve_session
resolve_session-Goes key req scope now db =
    goes (find_where (λ (s : SessionRow). s.session_key ==ˢ key) db.sessions)
  where
    goes : (o : Option SessionRow) → Goes db (session_found key req.conversation scope now o db)
    goes none = (
      id_at "ses_" now,
      record db {
        sessions = new_session key (id_at "ses_" now) req.conversation scope now ∷ db.sessions;
      },
      refl,
      refl,
    )
    goes (some s) = (s.active_session_id, db, refl, refl)

-- An id that is taken already.
abbrev taken : EventRow → EventRow → Bool
taken e r = r.event_id ==ˢ e.event_id || r.idempotency_key ==ˢ e.idempotency_key

insert_event-fails :
    (e : EventRow) (db : Db)
    → exists_where (taken e) db.events ≡ true
    → insert_event e db ≡ err constraint
unfolding insert_event
insert_event-fails e db h = ground (arith, h)

insert_key-Either :
    (k : KeyRow) (db : Db) → (insert_key k db ≡ err constraint) ⊎ Goes db (insert_key k db)
unfolding insert_key
insert_key-Either k db = either (exists_where (λ (r : KeyRow). r.key ==ˢ k.key) db.keys)
  where
    stored : Result DbError (Unit {0} × Db)
    stored = ok (tt, record db { keys = k ∷ db.keys })

    either :
        (b : Bool)
        → ((if b then err constraint else stored) ≡ err constraint)
          ⊎ Goes db (if b then err constraint else stored)
    either true = inl refl
    either false = inr (tt, record db { keys = k ∷ db.keys }, refl, refl)

-- A second event with an id that is taken is refused, whatever else the request says.
persist_new-taken :
    (tenant_id session_key : String) (req : PersistRequest) (payload_hash : String) (now : ℕ)
    (db : Db)
    → ((sid : String)
        → exists_where
            (taken (new_event tenant_id req (id_at "evt_" now) payload_hash session_key sid now))
            db.events
          ≡ true)
    → persist_new tenant_id session_key req payload_hash now db ≡ err constraint
unfolding persist_new
persist_new-taken tenant_id session_key req payload_hash now db h =
    let (u₁, db₁, p₁, e₁) =
      remember_scope-Goes (is_empty req.dm_scope) tenant_id req (normalize_scope req.dm_scope) now
        db in
    let (sid, db₂, p₂, e₂) =
      resolve_session-Goes session_key req (normalize_scope req.dm_scope) now db₁ in
    >>=-ok
      (remember_scope (is_empty req.dm_scope) tenant_id req.conversation
        (normalize_scope req.dm_scope) now)
      (λ _. insert_in_session tenant_id session_key req payload_hash now) db u₁ db₁ p₁
    ∙ >>=-ok (resolve_session session_key req.conversation (normalize_scope req.dm_scope) now)
        (insert_rows tenant_id session_key req payload_hash now) db₁ sid db₂ p₂
    ∙ inserts sid db₂ (ap (exists_where (taken (event_of sid))) (e₂ ∙ e₁) ∙ h sid)
  where
    event_of : String → EventRow
    event_of sid = new_event tenant_id req (id_at "evt_" now) payload_hash session_key sid now

    inserts :
        (sid : String) (db : Db)
        → exists_where (taken (event_of sid)) db.events ≡ true
        → insert_rows tenant_id session_key req payload_hash now sid db ≡ err constraint
    inserts sid db t =
        let k = new_key req (id_at "evt_" now) payload_hash session_key sid now in
        let f : Unit {0} → Tx PersistResult = λ _.
          insert_event (event_of sid)
          >> return (fresh_result (id_at "evt_" now) session_key sid payload_hash now) in
        elim (insert_key-Either k db) [
          | inl p ↦ >>=-err (insert_key k) f db constraint p
          | inr (u, db', p, same) ↦
              >>=-ok (insert_key k) f db u db' p
              ∙ >>=-err (insert_event (event_of sid)) _ db' constraint (
                  insert_event-fails (event_of sid) db'
                    (ap (exists_where (taken (event_of sid))) same ∙ t))
        ]

first_taken :
    (e r : EventRow) (es : List EventRow)
    → r.event_id ≡ e.event_id
    → exists_where (taken e) (r ∷ es) ≡ true
unfolding exists_where
first_taken e r es h = ground (arith, eq_iff r.event_id e.event_id)

-- Two new requests that reach `PersistEvent` with one time, which `Accept` takes from the client's
-- timestamp, get one event id: the second one is refused by the table, and nothing of it is stored,
-- although its idempotency key is new.
pub persist_event-same_time :
    (tenant_id session_key tenant_id' session_key' : String) (req req' : PersistRequest)
    (payload_hash payload_hash' : String) (now : ℕ) (db db' : Db) (r : PersistResult)
    → find_where (key_is req.idempotency_key) db.keys ≡ none
    → persist_event tenant_id session_key req payload_hash now db ≡ ok (r, db')
    → find_where (key_is req'.idempotency_key) db'.keys ≡ none
    → with_writer_tx (persist_event tenant_id' session_key' req' payload_hash' now) db'
      ≡ (err constraint, db')
unfolding persist_found
persist_event-same_time tenant_id session_key tenant_id' session_key' req req' payload_hash
      payload_hash' now db db' r new h new' =
    let a =
      persist_new-Added tenant_id session_key req payload_hash now db db' r
        (sym (persist_event-found tenant_id session_key req payload_hash now db none new) ∙ h) in
    ap (rolled_back db') (
      persist_event-found tenant_id' session_key' req' payload_hash' now db' none new'
      ∙ persist_new-taken tenant_id' session_key' req' payload_hash' now db' (λ sid.
        let e =
          new_event tenant_id req (id_at "evt_" now) payload_hash session_key r.session_id now in
        let e' = new_event tenant_id' req' (id_at "evt_" now) payload_hash' session_key' sid now in
        ap (exists_where (taken e')) a.event_added ∙ first_taken e' e db.events refl))
