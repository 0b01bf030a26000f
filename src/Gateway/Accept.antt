-- ===== src/Gateway/Accept.antt =====
-- internal/gateway/service.go: `Accept`, from a request to a stored event and the answer.
pub mod Contract
pub mod Effects
use Prim.Native.String.{◌++◌}
use simiclaw.Base.{
  ℕ, suc, String, Bool, true, false, not, ◌&&◌, Option, none, some, List, [], ◌∷◌, ◌==ˢ◌,
  if◌then◌else◌,
}
use simiclaw.Base.Result.{Result, ok, err}
use simiclaw.Base.Text.{is_empty}
use simiclaw.Model.{Conversation, EventPayload}
use simiclaw.Gateway.Model.{
  NormalizedIngress, BindingContext, RouteDecision, PersistRequest, PersistResult,
}
use simiclaw.Gateway.Bindings.Scope.{default_scope}
use simiclaw.Gateway.Bindings.Key.{compute_key}
use simiclaw.Gateway.Bindings.Resolver.{SessionLookup, resolve_binding}
use simiclaw.Gateway.Routing.{resolve_route}
use simiclaw.Gateway.Validate.{ApiError, api_error, validate_ingress, normalize_native_ref}
use simiclaw.Gateway.Limiter.{Float, Limiter, allow}
use simiclaw.Runtime.Payload.{Registry}
use simiclaw.Store.Tables.{Db}
use simiclaw.Store.Sql.{DbError, idempotency_conflict, no_mutation, constraint, with_writer_tx}
use simiclaw.Store.Ingest.{persist_event, mark_event_queued}

-- What is hashed as the payload of a request.
pub record Shape : Type 0 where
  pub source : String
  pub conversation : Conversation
  pub payload : EventPayload
  pub idempotency_key : String

-- What `Accept` depends on: the tenant, the clock, the hexadecimal SHA-256 of a text and of the JSON of
-- a shape, the session lookup, the payload registry, the queue's answer, and the texts of the
-- database's errors.
pub record Service : Type 0 where
  pub tenant_id : String
  pub now : ℕ
  pub sha256_hex : String → String
  pub shape_hash : Shape → String
  pub lookup : Db → Option SessionLookup
  pub payloads : Option Registry
  pub try_enqueue : Option (String → Bool)
  pub describe : DbError → String

pub record Accepted : Type 0 where
  pub stored : PersistResult
  pub enqueued : Bool
  pub status : String
  pub status_url : String
  pub status_code : ℕ

-- The payload with its native reference normalized.
abbrev pub normalized : NormalizedIngress → NormalizedIngress
normalized i = record i {
  payload = record i.payload { native_ref = normalize_native_ref i.payload.native_ref };
}

-- The payload with the type that the route decided.
abbrev pub effective_payload : NormalizedIngress → RouteDecision → EventPayload
effective_payload i d =
    if is_empty d.payload_type then i.payload else record i.payload { type = d.payload_type }

-- canonicalPayloadHash
abbrev pub payload_hash_of : Service → NormalizedIngress → EventPayload → String
payload_hash_of s i payload =
    "sha256:"
    ++ s.shape_hash (record {
      source = i.source;
      conversation = i.conversation;
      payload = payload;
      idempotency_key = i.idempotency_key;
    })

abbrev pub persist_request : NormalizedIngress → BindingContext → EventPayload → PersistRequest
persist_request i b payload = record {
  source = i.source;
  conversation = i.conversation;
  payload = payload;
  idempotency_key = i.idempotency_key;
  dm_scope = b.scope;
}

abbrev pub internal : String → ApiError
internal text = api_error 500 "INTERNAL" text

abbrev pub persist_error : Service → DbError → ApiError
persist_error s idempotency_conflict = api_error 409 "CONFLICT" "idempotency payload hash mismatch"
persist_error s e = internal (s.describe e)

abbrev pub rate_limited : ApiError
rate_limited = record (api_error 429 "RATE_LIMITED" "rate limited") { retry_after = 1 }

abbrev try_queue : Option (String → Bool) → String → Bool
try_queue none event_id = false
try_queue (some try) event_id = try event_id

-- A duplicate is not queued again.
abbrev pub is_enqueued : Service → PersistResult → Bool
is_enqueued s r = not r.duplicate && try_queue s.try_enqueue r.event_id

abbrev pub answer : Service → PersistResult → Accepted
answer s r = record {
  stored = r;
  enqueued = is_enqueued s r;
  status = if r.duplicate then "duplicate_acked" else "accepted";
  status_url = "/v1/events/" ++ r.event_id;
  status_code = if r.duplicate then 200 else 202;
}

-- From the answer of `PersistEvent` on.
abbrev pub persisted : Service → Result DbError PersistResult × Db → Result ApiError Accepted × Db
persisted s (err e, db) = (err (persist_error s e), db)
persisted s (ok r, db) =
    (ok (answer s r), if is_enqueued s r then mark_event_queued r.event_id s.now db else db)

abbrev pub persist :
    Service
    → NormalizedIngress
    → BindingContext
    → RouteDecision
    → ℕ
    → Db
    → Result ApiError Accepted × Db
persist s i b d ts db =
    let payload = effective_payload i d in
    persisted s (
      with_writer_tx
        (persist_event b.tenant_id b.session_key (persist_request i b payload)
          (payload_hash_of s i payload) ts)
        db)

module _ (F : Float) where
  pub record Limits : Type 0 where
    pub tenant : Limiter F
    pub session : Limiter F

  abbrev pub admit_session : String → ℕ → Bool × Limiter F → Limits → Bool × Limits
  admit_session key now (false, tenant) l = (false, record l { tenant = tenant })
  admit_session key now (true, tenant) l =
      let (allowed, session) = allow F key now l.session in
      (allowed, record { tenant = tenant; session = session })

  -- Both limiters; the session's is asked only if the tenant's lets the request through.
  abbrev pub admit : Service → String → Limits → Bool × Limits
  admit s key l = admit_session key s.now (allow F s.tenant_id s.now l.tenant) l

  pub record Outcome : Type 0 where
    pub result : Result ApiError Accepted
    pub limits : Limits
    pub db : Db

  abbrev pub refused : ApiError → Limits → Db → Outcome
  refused e l db = record { result = err e; limits = l; db = db }

  abbrev pub admitted :
      Service
      → NormalizedIngress
      → BindingContext
      → RouteDecision
      → ℕ
      → Db
      → Bool × Limits
      → Outcome
  admitted s i b d ts db (false, l) = refused rate_limited l db
  admitted s i b d ts db (true, l) =
      let (result, db') = persist s i b d ts db in record { result = result; limits = l; db = db' }

  abbrev pub keyed :
      Service
      → NormalizedIngress
      → BindingContext
      → RouteDecision
      → ℕ
      → Limits
      → Db
      → Result String String
      → Outcome
  keyed s i b d ts l db (err text) = refused (api_error 400 "INVALID_ARGUMENT" text) l db
  keyed s i b d ts l db (ok key) = admitted s i b d ts db (admit s key l)

  -- sessionRateLimitKey is the conversation's key in the default scope.
  abbrev pub routed :
      Service
      → NormalizedIngress
      → BindingContext
      → ℕ
      → Limits
      → Db
      → Result String RouteDecision
      → Outcome
  routed s i b ts l db (err text) = refused (internal text) l db
  routed s i b ts l db (ok d) =
      keyed s i b d ts l db (compute_key s.sha256_hex s.tenant_id i.conversation default_scope)

  abbrev pub bound :
      Service → NormalizedIngress → ℕ → Limits → Db → Result String BindingContext → Outcome
  bound s i ts l db (err text) = refused (internal text) l db
  bound s i ts l db (ok b) = routed s i b ts l db (resolve_route s.payloads i b)

  abbrev pub validated : Service → NormalizedIngress → Limits → Db → Result ApiError ℕ → Outcome
  validated s i l db (err e) = refused e l db
  validated s i l db (ok ts) =
      bound s i ts l db (resolve_binding s.sha256_hex (s.lookup db) s.tenant_id i)

  -- Accept
  unfoldable pub accept : Service → NormalizedIngress → Limits → Db → Outcome
  unfolding validate_ingress normalize_native_ref resolve_binding resolve_route compute_key allow
      persist_event mark_event_queued
  accept s ingress l db =
      let i = normalized ingress in validated s i l db (validate_ingress i s.now)
