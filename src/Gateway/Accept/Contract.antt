-- ===== src/Gateway/Accept/Contract.antt =====
-- internal/gateway/service.go: what may come of a request, told by its parts.
use Prim.Native.String.{◌++◌}
use simiclaw.Base.{ℕ, ◌≡◌, ◌⊎◌, String, Bool, true, false, none, some}
use simiclaw.Base.Result.{Result, ok, err}
use simiclaw.Base.Text.{is_empty}
use simiclaw.Model.{EventPayload}
use simiclaw.Gateway.Model.{
  NormalizedIngress, BindingContext, RouteDecision, PersistRequest, PersistResult,
}
use simiclaw.Gateway.Bindings.Scope.{default_scope}
use simiclaw.Gateway.Bindings.Key.{compute_key}
use simiclaw.Gateway.Bindings.Resolver.{resolve_binding}
use simiclaw.Gateway.Routing.{resolve_route}
use simiclaw.Gateway.Validate.{ApiError, validate_ingress, normalize_native_ref}
use simiclaw.Gateway.Validate.Admission.{Admitted}
use simiclaw.Gateway.Limiter.{Float, Limiter, allow}
use simiclaw.Gateway.Accept.{Service, Accepted, Limits, Outcome, normalized}
use simiclaw.Store.Tables.{Db}
use simiclaw.Store.Sql.{DbError, idempotency_conflict}
use simiclaw.Store.Ingest.{persist_event, mark_event_queued}

-- The payload that is stored: the one of the request, with its native reference normalized and the
-- type that the route decided, if it decided one.
pub record Payload (before : EventPayload) (route : RouteDecision) (p : EventPayload) : Type 0 where
  pub text : p.text ≡ before.text
  pub mentions : p.mentions ≡ before.mentions
  pub attachments : p.attachments ≡ before.attachments
  pub native : p.native ≡ before.native
  pub native_ref : p.native_ref ≡ normalize_native_ref before.native_ref
  pub extra : p.extra ≡ before.extra
  pub type :
      ((is_empty route.payload_type ≡ true) × (p.type ≡ before.type))
      ⊎ ((is_empty route.payload_type ≡ false) × (p.type ≡ route.payload_type))

-- The request that PersistEvent gets.
pub record Request (ingress : NormalizedIngress) (b : BindingContext) (route : RouteDecision)
    (r : PersistRequest) : Type 0 where
  pub source : r.source ≡ ingress.source
  pub conversation : r.conversation ≡ ingress.conversation
  pub idempotency_key : r.idempotency_key ≡ ingress.idempotency_key
  pub dm_scope : r.dm_scope ≡ b.scope
  pub payload : Payload ingress.payload route r.payload

-- The hash covers the source, the conversation, the payload and the key.
abbrev pub hash_of : Service → PersistRequest → String
hash_of s r =
    "sha256:"
    ++ s.shape_hash (record {
      source = r.source;
      conversation = r.conversation;
      payload = r.payload;
      idempotency_key = r.idempotency_key;
    })

-- Whether the queue took an event: there is a queue, and it says so.
abbrev pub Took : Service → String → Bool → Type 0
Took s id true = (try : String → Bool) × (s.try_enqueue ≡ some try) × (try id ≡ true)
Took s id false =
    (s.try_enqueue ≡ none) ⊎ ((try : String → Bool) × (s.try_enqueue ≡ some try) × (try id ≡ false))

-- A duplicate is acknowledged and not queued. A new event is accepted, and it is marked as queued
-- exactly if the queue took it.
abbrev pub Answer : Service → Accepted → Db → Db → Bool → Type 0
Answer s a table db' true =
    (a.status_code ≡ 200) × (a.status ≡ "duplicate_acked") × (a.enqueued ≡ false) × (db' ≡ table)
Answer s a table db' false =
    (a.status_code ≡ 202)
    × (a.status ≡ "accepted")
    × (((a.enqueued ≡ true)
          × Took s a.stored.event_id true
          × (db' ≡ mark_event_queued a.stored.event_id s.now table))
        ⊎ ((a.enqueued ≡ false) × Took s a.stored.event_id false × (db' ≡ table)))

abbrev pub tenant_tried : (F : Float) → Service → Limits F → Bool × Limiter F
tenant_tried F s l = allow F s.tenant_id s.now l.tenant

abbrev pub session_tried : (F : Float) → Service → String → Limits F → Bool × Limiter F
session_tried F s key l = allow F key s.now l.session

-- Both limiters let the request through, and each has counted it.
abbrev pub Within : (F : Float) → Service → String → Limits F → Limits F → Type 0
Within F s key l l' =
    ((tenant_tried F s l).0 ≡ true)
    × ((session_tried F s key l).0 ≡ true)
    × (l'.tenant ≡ (tenant_tried F s l).1)
    × (l'.session ≡ (session_tried F s key l).1)

-- One of the limiters does not; the session's is not asked if the tenant's is the one.
abbrev pub Over : (F : Float) → Service → String → Limits F → Limits F → Type 0
Over F s key l l' =
    (((tenant_tried F s l).0 ≡ false)
      × (l'.tenant ≡ (tenant_tried F s l).1)
      × (l'.session ≡ l.session))
    ⊎ (((tenant_tried F s l).0 ≡ true)
        × ((session_tried F s key l).0 ≡ false)
        × (l'.tenant ≡ (tenant_tried F s l).1)
        × (l'.session ≡ (session_tried F s key l).1))

-- What an error answers.
pub record Says (e : ApiError) (status_code : ℕ) (code message : String) : Type 0 where
  pub status_code_is : e.status_code ≡ status_code
  pub code_is : e.code ≡ code
  pub message_is : e.message ≡ message

-- The answer to an error of the database.
abbrev pub Refusal : Service → DbError → ApiError → Type 0
Refusal s idempotency_conflict e = Says e 409 "CONFLICT" "idempotency payload hash mismatch"
Refusal s d e = Says e 500 "INTERNAL" (s.describe d)

module _ (F : Float) (s : Service) (ingress : NormalizedIngress) (l : Limits F) (db : Db) where
  abbrev pub i : NormalizedIngress
  i = normalized ingress

  abbrev pub ValidAt : ℕ → Type 0
  ValidAt ts = validate_ingress i s.now ≡ ok ts

  abbrev pub Binds : Result String BindingContext → Type 0
  Binds r = resolve_binding s.sha256_hex (s.lookup db) s.tenant_id i ≡ r

  abbrev pub Routes : BindingContext → Result String RouteDecision → Type 0
  Routes b r = resolve_route s.payloads i b ≡ r

  abbrev pub Keys : Result String String → Type 0
  Keys r = compute_key s.sha256_hex s.tenant_id ingress.conversation default_scope ≡ r

  -- What PersistEvent gives for a request that came through.
  abbrev pub Stores :
      ℕ → BindingContext → RouteDecision → Result DbError (PersistResult × Db) → Type 0
  Stores ts b d r =
      (req : PersistRequest) × Request ingress b d req
      × (persist_event b.tenant_id b.session_key req (hash_of s req) ts db ≡ r)

  -- The stage that refuses a request, after those before it let it through; and the limiters after.
  pub data Refused (e : ApiError) (l' : Limits F) : Type 0 where
    invalid : validate_ingress i s.now ≡ err e → l' ≡ l → Refused e l'
    unbound :
        (ts : ℕ) (text : String)
        → ValidAt ts
        → Binds (err text)
        → Says e 500 "INTERNAL" text
        → l' ≡ l
        → Refused e l'
    unrouted :
        (ts : ℕ) (b : BindingContext) (text : String)
        → ValidAt ts
        → Binds (ok b)
        → Routes b (err text)
        → Says e 500 "INTERNAL" text
        → l' ≡ l
        → Refused e l'
    unkeyed :
        (ts : ℕ) (b : BindingContext) (d : RouteDecision) (text : String)
        → ValidAt ts
        → Binds (ok b)
        → Routes b (ok d)
        → Keys (err text)
        → Says e 400 "INVALID_ARGUMENT" text
        → l' ≡ l
        → Refused e l'
    limited :
        (ts : ℕ) (b : BindingContext) (d : RouteDecision) (key : String)
        → ValidAt ts
        → Binds (ok b)
        → Routes b (ok d)
        → Keys (ok key)
        → Over F s key l l'
        → Says e 429 "RATE_LIMITED" "rate limited"
        → e.retry_after ≡ 1
        → Refused e l'
    unstored :
        (ts : ℕ) (b : BindingContext) (d : RouteDecision) (key : String) (cause : DbError)
        → ValidAt ts
        → Binds (ok b)
        → Routes b (ok d)
        → Keys (ok key)
        → Within F s key l l'
        → Stores ts b d (err cause)
        → Refusal s cause e
        → Refused e l'

  -- How a request got through to a stored event.
  pub record Passed (l' : Limits F) (db' : Db) (a : Accepted) : Type 0 where
    pub time : ℕ
    pub binding : BindingContext
    pub route : RouteDecision
    pub key : String
    pub table : Db
    pub valid : Admitted i s.now time
    pub is_bound : Binds (ok binding)
    pub is_routed : Routes binding (ok route)
    pub is_keyed : Keys (ok key)
    pub within : Within F s key l l'
    pub is_stored : Stores time binding route (ok (a.stored, table))
    pub status_url : a.status_url ≡ "/v1/events/" ++ a.stored.event_id
    pub answered : Answer s a table db' a.stored.duplicate

  -- Both cases of what `Accept` may do.
  abbrev pub Either : Outcome F → Type 0
  Either o =
      ((e : ApiError) × (o.result ≡ err e) × Refused e o.limits × (o.db ≡ db))
      ⊎ ((a : Accepted) × (o.result ≡ ok a) × Passed o.limits o.db a)
