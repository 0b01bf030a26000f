-- ===== src/Store/Ingest.antt =====
-- internal/store/tx/ingest_event.go and internal/store/conversation_scopes.go.
pub mod Idempotency
pub mod Collision
use simiclaw.Base.{
  ℕ, String, Bool, true, false, ◌&&◌, ◌||◌, Option, none, some, List, [], ◌∷◌, ◌==ˢ◌, if◌then◌else◌,
}
use simiclaw.Base.Text.{is_empty}
use simiclaw.Base.Time.{Stamp, at, blank, parse_time}
use simiclaw.Model.{Conversation, EventStatus, received, queued, processing, normal}
use simiclaw.Gateway.Model.{PersistRequest, PersistResult}
use simiclaw.Gateway.Bindings.Scope.{normalize_scope}
use simiclaw.Store.Tables.{Db, ScopeRow, EventRow, KeyRow}
use simiclaw.Store.Sql.{
  Tx, ◌>>=◌, ◌>>◌, return, fail, read, modify, id_at, update_where, find_where, exists_where,
  constraint, idempotency_conflict,
}
use simiclaw.Store.Sessions.{resolve_session}

-- A conversation's participant matters in a direct message only.
abbrev pub conversation_participant_id : Conversation → String
conversation_participant_id conv = if conv.channel_type ==ˢ "dm" then conv.participant_id else ""

abbrev pub scope_of : String → Conversation → ScopeRow → Bool
scope_of tenant_id conv s =
    s.tenant_id ==ˢ tenant_id
    && s.conversation_id ==ˢ conv.conversation_id
    && s.channel_type ==ˢ conv.channel_type
    && s.participant_id ==ˢ conversation_participant_id conv

-- GetConversationDMScope
unfoldable pub get_conversation_dm_scope : Db → String → Conversation → Option String
unfolding find_where normalize_scope
get_conversation_dm_scope db tenant_id conv =
    elim (find_where (scope_of tenant_id conv) db.scopes) [
      | none ↦ none
      | some s ↦ some (normalize_scope s.dm_scope)
    ]

abbrev put_scope : ScopeRow → (ScopeRow → Bool) → Option ScopeRow → List ScopeRow → List ScopeRow
put_scope row test none scopes = row ∷ scopes
put_scope row test (some old) scopes =
    update_where test (λ s. record s { dm_scope = row.dm_scope; updated_at = row.updated_at })
      scopes

-- upsertConversationDMScopeTx
unfoldable pub upsert_conversation_dm_scope : String → Conversation → String → ℕ → Tx (Unit {0})
unfolding find_where update_where normalize_scope
upsert_conversation_dm_scope tenant_id conv dm_scope now =
    let row : ScopeRow = record {
      tenant_id = tenant_id;
      conversation_id = conv.conversation_id;
      channel_type = conv.channel_type;
      participant_id = conversation_participant_id conv;
      dm_scope = normalize_scope dm_scope;
      updated_at = at now;
    } in
    modify λ db. record db {
      scopes =
          put_scope row (scope_of tenant_id conv) (find_where (scope_of tenant_id conv) db.scopes)
            db.scopes;
    }

abbrev pub new_key : PersistRequest → String → String → String → String → ℕ → KeyRow
new_key req event_id payload_hash session_key session_id now = record {
  key = req.idempotency_key;
  event_id = event_id;
  payload_hash = payload_hash;
  session_key = session_key;
  session_id = session_id;
  created_at = at now;
}

abbrev pub new_event : String → PersistRequest → String → String → String → String → ℕ → EventRow
new_event tenant_id req event_id payload_hash session_key session_id now = record {
  event_id = event_id;
  source = req.source;
  tenant_id = tenant_id;
  conversation_id = req.conversation.conversation_id;
  channel_type = req.conversation.channel_type;
  participant_id = req.conversation.participant_id;
  session_key = session_key;
  session_id = session_id;
  idempotency_key = req.idempotency_key;
  payload_type = req.payload.type;
  payload_text = req.payload.text;
  payload = req.payload;
  payload_hash = payload_hash;
  status = received;
  run_id = "";
  run_mode = normal;
  assistant_reply = "";
  outbox_id = "";
  outbox_status = none;
  processing_started_at = blank;
  provider = "";
  model = "";
  provider_request_id = "";
  error_code = "";
  error_message = "";
  created_at = at now;
  updated_at = at now;
}

-- The key is the primary key of its table.
unfoldable pub insert_key : KeyRow → Tx (Unit {0})
insert_key k db =
    if exists_where (λ (r : KeyRow). r.key ==ˢ k.key) db.keys
    then fail constraint db
    else modify (λ db. record db { keys = k ∷ db.keys }) db

-- The event's id and its idempotency key are unique.
unfoldable pub insert_event : EventRow → Tx (Unit {0})
insert_event e db =
    if exists_where
      (λ (r : EventRow). r.event_id ==ˢ e.event_id || r.idempotency_key ==ˢ e.idempotency_key)
      db.events
    then fail constraint db
    else modify (λ db. record db { events = e ∷ db.events }) db

abbrev pub known_result : KeyRow → PersistResult
known_result k = record {
  event_id = k.event_id;
  session_key = k.session_key;
  session_id = k.session_id;
  received_at = parse_time k.created_at;
  payload_hash = k.payload_hash;
  duplicate = true;
  existing_event_id = k.event_id;
}

-- A key that is known already: the stored result, or a conflict of payloads.
abbrev pub stored_result : String → KeyRow → Tx PersistResult
stored_result payload_hash k db =
    if k.payload_hash ==ˢ payload_hash
    then return (known_result k) db
    else fail idempotency_conflict db

-- The caller's scope, if it gave one, is remembered for the conversation.
abbrev pub remember_scope : Bool → String → Conversation → String → ℕ → Tx (Unit {0})
remember_scope true tenant_id conv dm_scope now = return tt
remember_scope false tenant_id conv dm_scope now =
    upsert_conversation_dm_scope tenant_id conv dm_scope now

-- The two inserts and the result.
abbrev pub insert_rows : String → String → PersistRequest → String → ℕ → String → Tx PersistResult
insert_rows tenant_id session_key req payload_hash now session_id = do
  insert_key (new_key req (id_at "evt_" now) payload_hash session_key session_id now)
  insert_event (new_event tenant_id req (id_at "evt_" now) payload_hash session_key session_id now)
  return (record {
    event_id = id_at "evt_" now;
    session_key = session_key;
    session_id = session_id;
    received_at = now;
    payload_hash = payload_hash;
    duplicate = false;
    existing_event_id = "";
  })

abbrev pub insert_in_session : String → String → PersistRequest → String → ℕ → Tx PersistResult
insert_in_session tenant_id session_key req payload_hash now =
    resolve_session session_key req.conversation (normalize_scope req.dm_scope) now
    >>= insert_rows tenant_id session_key req payload_hash now

unfoldable pub persist_new : String → String → PersistRequest → String → ℕ → Tx PersistResult
persist_new tenant_id session_key req payload_hash now =
    remember_scope (is_empty req.dm_scope) tenant_id req.conversation (normalize_scope req.dm_scope)
      now
    >> insert_in_session tenant_id session_key req payload_hash now

unfoldable pub persist_found :
    String → String → PersistRequest → String → ℕ → Option KeyRow → Tx PersistResult
unfolding persist_new
persist_found tenant_id session_key req payload_hash now (some k) = stored_result payload_hash k
persist_found tenant_id session_key req payload_hash now none =
    persist_new tenant_id session_key req payload_hash now

-- The transaction of `PersistEvent`.
unfoldable pub persist_event : String → String → PersistRequest → String → ℕ → Tx PersistResult
unfolding persist_found insert_key insert_event find_where exists_where upsert_conversation_dm_scope
    resolve_session normalize_scope
persist_event tenant_id session_key req payload_hash now = do
  found ← read λ db. find_where (λ (k : KeyRow). k.key ==ˢ req.idempotency_key) db.keys
  persist_found tenant_id session_key req payload_hash now found

abbrev pub is_received : EventStatus → Bool
is_received received = true
is_received _ = false

-- MarkEventQueued, a statement outside of any transaction.
unfoldable pub mark_event_queued : String → ℕ → Db → Db
unfolding update_where
mark_event_queued event_id now db = record db {
  events =
      update_where (λ (e : EventRow). e.event_id ==ˢ event_id && is_received e.status)
        (λ e. record e { status = queued; updated_at = at now }) db.events;
}
