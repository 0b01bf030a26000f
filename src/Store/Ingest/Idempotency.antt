-- ===== src/Store/Ingest/Idempotency.antt =====
-- internal/store/tx/ingest_event.go: one event for each idempotency key.
use simiclaw.Base.{
  ℕ, ◌≡◌, ◌≢◌, refl, sym, ap, ◌∙◌, String, Bool, true, false, Option, none, some, List, ◌∷◌, ◌==ˢ◌,
  arith, inl, inr, Bool-cases, Option-cases, eq_iff,
}
use simiclaw.Base.Result.{Result, ok, err}
use simiclaw.Base.Text.{is_empty}
use simiclaw.Gateway.Model.{PersistRequest, PersistResult}
use simiclaw.Gateway.Bindings.Scope.{normalize_scope}
use simiclaw.Store.Tables.{Db, EventRow, KeyRow}
use simiclaw.Store.Sql.{DbError, find_where, id_at, idempotency_conflict, with_writer_tx, >>=-eq-ok}
use simiclaw.Store.Sessions.{resolve_session}
use simiclaw.Store.Ingest.{
  insert_key, insert_event, persist_new, persist_found, persist_event, new_key, new_event,
  known_result, stored_result, upsert_conversation_dm_scope, remember_scope,
}

abbrev pub fresh_result : String → String → String → String → ℕ → PersistResult
fresh_result event_id session_key session_id payload_hash now = record {
  event_id = event_id;
  session_key = session_key;
  session_id = session_id;
  received_at = now;
  payload_hash = payload_hash;
  duplicate = false;
  existing_event_id = "";
}

-- What a first ingest adds.
pub record Added (tenant_id session_key : String) (req : PersistRequest) (payload_hash : String)
    (now : ℕ) (db db' : Db) (r : PersistResult) : Type 0 where
  pub result : r ≡ fresh_result (id_at "evt_" now) session_key r.session_id payload_hash now
  pub key_added :
      db'.keys ≡ new_key req (id_at "evt_" now) payload_hash session_key r.session_id now ∷ db.keys
  pub event_added :
      db'.events
      ≡ new_event tenant_id req (id_at "evt_" now) payload_hash session_key r.session_id now
        ∷ db.events

resolve_session-keeps :
    (key : String) (req : PersistRequest) (scope : String) (now : ℕ) (db db' : Db) (id : String)
    → resolve_session key req.conversation scope now db ≡ ok (id, db')
    → (db'.keys ≡ db.keys) × (db'.events ≡ db.events)
unfolding resolve_session
resolve_session-keeps key req scope now db db' id h = ground arith

remember_scope-keeps :
    (b : Bool) (tenant_id : String) (req : PersistRequest) (scope : String) (now : ℕ) (db db' : Db)
    (u : Unit {0})
    → remember_scope b tenant_id req.conversation scope now db ≡ ok (u, db')
    → (db'.keys ≡ db.keys) × (db'.events ≡ db.events)
unfolding upsert_conversation_dm_scope
remember_scope-keeps true tenant_id req scope now db db' u h = ground arith
remember_scope-keeps false tenant_id req scope now db db' u h = ground arith

insert_key-ok :
    (k : KeyRow) (db db' : Db) (u : Unit {0})
    → insert_key k db ≡ ok (u, db')
    → (db'.keys ≡ k ∷ db.keys) × (db'.events ≡ db.events)
unfolding insert_key
insert_key-ok k db db' u h = ground arith

insert_event-ok :
    (e : EventRow) (db db' : Db) (u : Unit {0})
    → insert_event e db ≡ ok (u, db')
    → (db'.keys ≡ db.keys) × (db'.events ≡ e ∷ db.events)
unfolding insert_event
insert_event-ok e db db' u h = ground arith

added :
    (tenant_id session_key : String) (req : PersistRequest) (payload_hash : String) (now : ℕ)
    (db db' : Db) (r : PersistResult) (sid : String) (db₄ : Db)
    → Path
        (Result DbError (PersistResult × Db))
        (ok (fresh_result (id_at "evt_" now) session_key sid payload_hash now, db₄))
        (ok (r, db'))
    → db₄.keys ≡ new_key req (id_at "evt_" now) payload_hash session_key sid now ∷ db.keys
    → db₄.events
      ≡ new_event tenant_id req (id_at "evt_" now) payload_hash session_key sid now ∷ db.events
    → Added tenant_id session_key req payload_hash now db db' r
added tenant_id session_key req payload_hash now db db' r sid db₄ k p q = ground arith

pub persist_new-Added :
    (tenant_id session_key : String) (req : PersistRequest) (payload_hash : String) (now : ℕ)
    (db db' : Db) (r : PersistResult)
    → persist_new tenant_id session_key req payload_hash now db ≡ ok (r, db')
    → Added tenant_id session_key req payload_hash now db db' r
unfolding persist_new
persist_new-Added tenant_id session_key req payload_hash now db db' r h =
    let (u₁, db₁, h₁, k₁) =
      >>=-eq-ok
        (remember_scope (is_empty req.dm_scope) tenant_id req.conversation
          (normalize_scope req.dm_scope) now)
        _ db r db' h in
    let (sid, db₂, h₂, k₂) =
      >>=-eq-ok (resolve_session session_key req.conversation (normalize_scope req.dm_scope) now) _
        db₁ r db' k₁ in
    let (u₃, db₃, h₃, k₃) =
      >>=-eq-ok (insert_key (new_key req (id_at "evt_" now) payload_hash session_key sid now)) _ db₂
        r db' k₂ in
    let (u₄, db₄, h₄, k₄) =
      >>=-eq-ok
        (insert_event (new_event tenant_id req (id_at "evt_" now) payload_hash session_key sid now))
        _ db₃ r db' k₃ in
    let e₁ = remember_scope-keeps _ tenant_id req _ now db db₁ u₁ h₁ in
    let e₂ = resolve_session-keeps session_key req _ now db₁ db₂ sid h₂ in
    let e₃ = insert_key-ok _ db₂ db₃ u₃ h₃ in
    let e₄ = insert_event-ok _ db₃ db₄ u₄ h₄ in
    added tenant_id session_key req payload_hash now db db' r sid db₄ k₄
      (e₄.0
        ∙ e₃.0
        ∙ ap (λ l. new_key req (id_at "evt_" now) payload_hash session_key sid now ∷ l)
            (e₂.0 ∙ e₁.0))
      (e₄.1
        ∙ ap (λ l. new_event tenant_id req (id_at "evt_" now) payload_hash session_key sid now ∷ l)
            (e₃.1 ∙ e₂.1 ∙ e₁.1))

abbrev pub key_is : String → KeyRow → Bool
key_is key k = k.key ==ˢ key

find_where-head : (k : KeyRow) (ks : List KeyRow) → find_where (key_is k.key) (k ∷ ks) ≡ some k
unfolding find_where
find_where-head k ks = ground (arith, eq_iff k.key k.key)

-- `PersistEvent` by what the table of keys holds.
pub persist_event-found :
    (tenant_id session_key : String) (req : PersistRequest) (payload_hash : String) (now : ℕ)
    (db : Db) (o : Option KeyRow)
    → find_where (key_is req.idempotency_key) db.keys ≡ o
    → persist_event tenant_id session_key req payload_hash now db
      ≡ persist_found tenant_id session_key req payload_hash now o db
unfolding persist_event
persist_event-found tenant_id session_key req payload_hash now db o e = rw e

stored_ok :
    (k : KeyRow) (payload_hash : String) (db db' : Db) (r : PersistResult)
    → (k.payload_hash ==ˢ payload_hash) ≡ true
    → stored_result payload_hash k db ≡ ok (r, db')
    → (r ≡ known_result k) × (db' ≡ db)
stored_ok k payload_hash db db' r same h = ground arith

stored_err :
    (k : KeyRow) (payload_hash : String) (db db' : Db) (r : PersistResult)
    → (k.payload_hash ==ˢ payload_hash) ≡ false
    → stored_result payload_hash k db ≡ ok (r, db')
    → ⊥
stored_err k payload_hash db db' r other h = ground arith

-- A key as it stands for a result that was given out.
pub record Known (req : PersistRequest) (payload_hash : String) (db : Db) (r : PersistResult)
    (k : KeyRow) : Type 0 where
  pub found : find_where (key_is req.idempotency_key) db.keys ≡ some k
  pub hash : k.payload_hash ≡ payload_hash
  pub answer : known_result k ≡ record r { duplicate = true; existing_event_id = r.event_id }

Known-new :
    (tenant_id session_key : String) (req : PersistRequest) (payload_hash : String) (now : ℕ)
    (db db' : Db) (r : PersistResult)
    → Added tenant_id session_key req payload_hash now db db' r
    → (k : KeyRow) × Known req payload_hash db' r k
Known-new tenant_id session_key req payload_hash now db db' r a =
    let k = new_key req (id_at "evt_" now) payload_hash session_key r.session_id now in
    (
      k,
      record {
        found = rw a.key_added (find_where-head k db.keys);
        hash = refl;
        answer = ground (arith, a.result);
      },
    )

Known-stored :
    (req : PersistRequest) (payload_hash : String) (db db' : Db) (r : PersistResult) (k : KeyRow)
    → find_where (key_is req.idempotency_key) db.keys ≡ some k
    → stored_result payload_hash k db ≡ ok (r, db')
    → Known req payload_hash db' r k
Known-stored req payload_hash db db' r k e h = elim (Bool-cases (k.payload_hash ==ˢ payload_hash)) [
  | inl same ↦
      let p = stored_ok k payload_hash db db' r same h in
      record {
        found = ap (λ (d : Db). find_where (key_is req.idempotency_key) d.keys) p.1 ∙ e;
        hash = (eq_iff k.payload_hash payload_hash).0 same;
        answer = ground (arith, p.0);
      }
  | inr other ↦ absurd (stored_err k payload_hash db db' r other h)
]

Known-after :
    (tenant_id session_key : String) (req : PersistRequest) (payload_hash : String) (now : ℕ)
    (db db' : Db) (r : PersistResult)
    → persist_event tenant_id session_key req payload_hash now db ≡ ok (r, db')
    → (k : KeyRow) × Known req payload_hash db' r k
unfolding persist_found
Known-after tenant_id session_key req payload_hash now db db' r h =
    elim (Option-cases (find_where (key_is req.idempotency_key) db.keys)) [
      | inl e ↦ Known-new tenant_id session_key req payload_hash now db db' r (
          persist_new-Added tenant_id session_key req payload_hash now db db' r
            (sym (persist_event-found tenant_id session_key req payload_hash now db none e) ∙ h))
      | inr (k, e) ↦ (
        k,
        Known-stored req payload_hash db db' r k e (
            sym (persist_event-found tenant_id session_key req payload_hash now db (some k) e) ∙ h),
      )
    ]

stored_same :
    (k : KeyRow) (payload_hash : String) (db : Db)
    → k.payload_hash ≡ payload_hash
    → stored_result payload_hash k db ≡ ok (known_result k, db)
stored_same k payload_hash db e = ground (arith, eq_iff k.payload_hash payload_hash)

-- Ingest is idempotent: once a request is accepted, as a new event or as a duplicate, the same key
-- with the same payload hash is a duplicate of the same event, whatever session key the caller
-- computed and whenever it comes; nothing is stored again.
pub persist_event-again :
    (tenant_id session_key tenant_id' session_key' : String) (req : PersistRequest)
    (payload_hash : String) (now now' : ℕ) (db db' : Db) (r : PersistResult)
    → persist_event tenant_id session_key req payload_hash now db ≡ ok (r, db')
    → persist_event tenant_id' session_key' req payload_hash now' db'
      ≡ ok (record r { duplicate = true; existing_event_id = r.event_id }, db')
unfolding persist_found
persist_event-again tenant_id session_key tenant_id' session_key' req payload_hash now now' db db' r
      h =
    let (k, known) = Known-after tenant_id session_key req payload_hash now db db' r h in
    persist_event-found tenant_id' session_key' req payload_hash now' db' (some k) known.found
    ∙ stored_same k payload_hash db' known.hash
    ∙ ap (λ a. ok (a, db')) known.answer

stored_other :
    (k : KeyRow) (payload_hash : String) (db : Db)
    → k.payload_hash ≢ payload_hash
    → stored_result payload_hash k db ≡ err idempotency_conflict
stored_other k payload_hash db d = ground (arith, eq_iff k.payload_hash payload_hash, d)

-- The caller's view of a transaction that started from `db`.
abbrev pub rolled_back :
    Db → Result DbError (PersistResult × Db) → Result DbError PersistResult × Db
rolled_back db (ok (a, db')) = (ok a, db')
rolled_back db (err e) = (err e, db)

-- The same key with another payload hash is a conflict, and is rolled back.
pub persist_event-conflict :
    (tenant_id session_key tenant_id' session_key' : String) (req req' : PersistRequest)
    (payload_hash payload_hash' : String) (now now' : ℕ) (db db' : Db) (r : PersistResult)
    → persist_event tenant_id session_key req payload_hash now db ≡ ok (r, db')
    → req'.idempotency_key ≡ req.idempotency_key
    → payload_hash ≢ payload_hash'
    → with_writer_tx (persist_event tenant_id' session_key' req' payload_hash' now') db'
      ≡ (err idempotency_conflict, db')
unfolding persist_found
persist_event-conflict tenant_id session_key tenant_id' session_key' req req' payload_hash
      payload_hash' now now' db db' r h same differ =
    let (k, known) = Known-after tenant_id session_key req payload_hash now db db' r h in
    let e =
      persist_event-found tenant_id' session_key' req' payload_hash' now' db' (some k)
        (ap (λ key. find_where (key_is key) db'.keys) same ∙ known.found) in
    ap (rolled_back db') (e ∙ stored_other k payload_hash' db' (λ p. differ (sym known.hash ∙ p)))
