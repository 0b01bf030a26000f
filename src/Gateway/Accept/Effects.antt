-- ===== src/Gateway/Accept/Effects.antt =====
-- internal/gateway/service.go: what `Accept` stores and answers.
use simiclaw.Base.{
  ℕ, ◌≡◌, refl, sym, ap, ◌∙◌, inl, inr, String, Bool, true, false, Option, none, some,
  if◌then◌else◌, Bool-cases,
}
use simiclaw.Base.Result.{Result, ok, err}
use simiclaw.Base.Text.{is_empty}
use simiclaw.Gateway.Model.{
  NormalizedIngress, BindingContext, RouteDecision, PersistRequest, PersistResult,
}
use simiclaw.Gateway.Validate.{ApiError, validate_ingress}
use simiclaw.Gateway.Validate.Admission.{validate_ingress-Admitted}
use simiclaw.Gateway.Limiter.{Float, Limiter}
use simiclaw.Gateway.Accept.{
  Service, Limits, Outcome, accept, normalized, validated, bound, routed, keyed, admitted, admit,
  admit_session, persisted, answer, persist_request, persist_error, effective_payload, is_enqueued,
  rate_limited,
}
use simiclaw.Store.Tables.{Db}
use simiclaw.Store.Sql.{DbError, idempotency_conflict, no_mutation, constraint, with_writer_tx}
use simiclaw.Store.Ingest.{persist_event, mark_event_queued}
use simiclaw.Gateway.Accept.Contract.{
  Payload, Request, hash_of, Answer, tenant_tried, Within, Over, Refusal, ValidAt, Binds, Routes,
  Keys, Refused, Either,
}

effective_payload-Payload :
    (ingress : NormalizedIngress) (d : RouteDecision)
    → Payload ingress.payload d (effective_payload (normalized ingress) d)
effective_payload-Payload ingress d = elim (Bool-cases (is_empty d.payload_type)) [
  | inl e ↦ rw e (record {
    text = refl;
    mentions = refl;
    attachments = refl;
    native = refl;
    native_ref = refl;
    extra = refl;
    type = inl (e, refl);
  })
  | inr e ↦ rw e (record {
    text = refl;
    mentions = refl;
    attachments = refl;
    native = refl;
    native_ref = refl;
    extra = refl;
    type = inr (e, refl);
  })
]

persist_request-Request :
    (ingress : NormalizedIngress) (b : BindingContext) (d : RouteDecision)
    → Request ingress b d
        (persist_request (normalized ingress) b (effective_payload (normalized ingress) d))
persist_request-Request ingress b d = record {
  source = refl;
  conversation = refl;
  idempotency_key = refl;
  dm_scope = refl;
  payload = effective_payload-Payload ingress d;
}

persist_error-Refusal : (s : Service) (e : DbError) → Refusal s e (persist_error s e)
persist_error-Refusal s idempotency_conflict = record {
  status_code_is = refl;
  code_is = refl;
  message_is = refl;
}
persist_error-Refusal s no_mutation = record {
  status_code_is = refl;
  code_is = refl;
  message_is = refl;
}
persist_error-Refusal s constraint = record {
  status_code_is = refl;
  code_is = refl;
  message_is = refl;
}

-- What the answer says of what was stored.
answer-Answer :
    (s : Service) (r : PersistResult) (table : Db) (duplicate : Bool)
    (queue : Option (String → Bool))
    → r.duplicate ≡ duplicate
    → s.try_enqueue ≡ queue
    → Answer s
        (answer s r)
        table
        (if is_enqueued s r then mark_event_queued r.event_id s.now table else table)
        duplicate
answer-Answer s r table true queue d q = rw d (refl, refl, refl, refl)
answer-Answer s r table false none d q = rw (d, q) (refl, refl, inr (refl, inl refl, refl))
answer-Answer s r table false (some try) d q = elim (Bool-cases (try r.event_id)) [
  | inl t ↦ rw (d, q, t) (refl, refl, inl (refl, (try, refl, t), refl))
  | inr t ↦ rw (d, q, t) (refl, refl, inr (refl, inr (try, refl, t), refl))
]

-- What both limiters leave, after the tenant's.
module _ (F : Float) (s : Service) (key : String) (l l' : Limits F) where
  admit-Within :
      (tenant : Bool × Limiter F)
      → tenant_tried F s l ≡ tenant
      → admit_session F key s.now tenant l ≡ (true, l')
      → Within F s key l l'
  admit-Within (true, t) p h = (
    ap (λ r. r.0) p,
    ap (λ r. r.0) h,
    sym (ap (λ r. r.1.tenant) h) ∙ sym (ap (λ r. r.1) p),
    sym (ap (λ r. r.1.session) h),
  )
  admit-Within (false, t) p h = absurd (let e = ap (λ r. r.0) h in cc)

  admit-Over :
      (tenant : Bool × Limiter F)
      → tenant_tried F s l ≡ tenant
      → admit_session F key s.now tenant l ≡ (false, l')
      → Over F s key l l'
  admit-Over (true, t) p h = inr (
    ap (λ r. r.0) p,
    ap (λ r. r.0) h,
    sym (ap (λ r. r.1.tenant) h) ∙ sym (ap (λ r. r.1) p),
    sym (ap (λ r. r.1.session) h),
  )
  admit-Over (false, t) p h = inl (
    ap (λ r. r.0) p,
    sym (ap (λ r. r.1.tenant) h) ∙ sym (ap (λ r. r.1) p),
    sym (ap (λ r. r.1.session) h),
  )

module _ (F : Float) (s : Service) (ingress : NormalizedIngress) (l : Limits F) (db : Db) where
  abbrev Goal : Outcome F → Type 0
  Goal o = Either F s ingress l db o

  abbrev request : BindingContext → RouteDecision → PersistRequest
  request b d = persist_request (normalized ingress) b (effective_payload (normalized ingress) d)

  -- The stages that a request came through.
  record Stages : Type 0 where
    time : ℕ
    binding : BindingContext
    route : RouteDecision
    key : String
    valid : ValidAt F s ingress l db time
    binds : Binds F s ingress l db (ok binding)
    routes : Routes F s ingress l db binding (ok route)
    keys : Keys F s ingress l db (ok key)

  persisted-Goal :
      (t : Stages) (l' : Limits F)
      → Within F s t.key l l'
      → (r : Result DbError (PersistResult × Db))
      → persist_event t.binding.tenant_id t.binding.session_key
          (request t.binding t.route)
          (hash_of s (request t.binding t.route))
          t.time
          db
        ≡ r
      → Goal (
          let (x, db') = persisted s (with_writer_tx (λ _. r) db) in
          record { result = x; limits = l'; db = db' })
  persisted-Goal t l' w (err e) h = inl (
    _,
    refl,
    Refused.unstored t.time t.binding t.route t.key e t.valid t.binds t.routes t.keys w
        (request t.binding t.route, persist_request-Request ingress t.binding t.route, h)
        (persist_error-Refusal s e),
    refl,
  )
  persisted-Goal t l' w (ok (r, table)) h = inr (
    answer s r,
    refl,
    record {
      time = t.time;
      binding = t.binding;
      route = t.route;
      key = t.key;
      table = table;
      valid = validate_ingress-Admitted (normalized ingress) s.now t.time t.valid;
      is_bound = t.binds;
      is_routed = t.routes;
      is_keyed = t.keys;
      within = w;
      is_stored = (request t.binding t.route, persist_request-Request ingress t.binding t.route, h);
      status_url = refl;
      answered = answer-Answer s r table r.duplicate s.try_enqueue refl refl;
    },
  )

  admitted-Goal :
      (t : Stages) (r : Bool × Limits F)
      → admit F s t.key l ≡ r
      → Goal (admitted F s (normalized ingress) t.binding t.route t.time db r)
  admitted-Goal t (false, l') h = inl (
    rate_limited,
    refl,
    Refused.limited t.time t.binding t.route t.key t.valid t.binds t.routes t.keys
        (admit-Over F s t.key l l' _ refl h)
        (record { status_code_is = refl; code_is = refl; message_is = refl }) refl,
    refl,
  )
  admitted-Goal t (true, l') h = persisted-Goal t l' (admit-Within F s t.key l l' _ refl h) _ refl

  keyed-Goal :
      (ts : ℕ) (b : BindingContext) (d : RouteDecision)
      → ValidAt F s ingress l db ts
      → Binds F s ingress l db (ok b)
      → Routes F s ingress l db b (ok d)
      → (r : Result String String) → Keys F s ingress l db r
      → Goal (keyed F s (normalized ingress) b d ts l db r)
  keyed-Goal ts b d v p q (err text) k = inl (
    _,
    refl,
    Refused.unkeyed ts b d text v p q k
        (record { status_code_is = refl; code_is = refl; message_is = refl }) refl,
    refl,
  )
  keyed-Goal ts b d v p q (ok key) k =
      admitted-Goal
        (record {
          time = ts;
          binding = b;
          route = d;
          key = key;
          valid = v;
          binds = p;
          routes = q;
          keys = k;
        })
        (admit F s key l) refl

  routed-Goal :
      (ts : ℕ) (b : BindingContext)
      → ValidAt F s ingress l db ts
      → Binds F s ingress l db (ok b)
      → (r : Result String RouteDecision) → Routes F s ingress l db b r
      → Goal (routed F s (normalized ingress) b ts l db r)
  routed-Goal ts b v p (err text) q = inl (
    _,
    refl,
    Refused.unrouted ts b text v p q
        (record { status_code_is = refl; code_is = refl; message_is = refl }) refl,
    refl,
  )
  routed-Goal ts b v p (ok d) q = keyed-Goal ts b d v p q _ refl

  bound-Goal :
      (ts : ℕ)
      → ValidAt F s ingress l db ts
      → (r : Result String BindingContext) → Binds F s ingress l db r
      → Goal (bound F s (normalized ingress) ts l db r)
  bound-Goal ts v (err text) p = inl (
    _,
    refl,
    Refused.unbound ts text v p
        (record { status_code_is = refl; code_is = refl; message_is = refl }) refl,
    refl,
  )
  bound-Goal ts v (ok b) p = routed-Goal ts b v p _ refl

  validated-Goal :
      (r : Result ApiError ℕ)
      → validate_ingress (normalized ingress) s.now ≡ r
      → Goal (validated F s (normalized ingress) l db r)
  validated-Goal (err e) v = inl (e, refl, Refused.invalid v refl, refl)
  validated-Goal (ok ts) v = bound-Goal ts v _ refl

  -- `Accept` either answers with an error and stores nothing, or it stores an event. The error is the one
  -- of the first stage that refuses the request: of the validation, 500 without a binding or a route,
  -- 400 without a key, 429 if one of the two rate limiters refuses, 409 if the key is taken by
  -- another payload, and 500 for other errors of the database; the limiters have counted the request
  -- only from that stage on. Otherwise the request is valid, bound and routed, both limiters let it
  -- through, and PersistEvent got it under the client's time with its hash, its scope and the
  -- payload of the route's type. A duplicate is answered by 200 and not queued; a new event is
  -- answered by 202, and marked as queued exactly if there is a queue and it took the event.
  pub accept-Either : Either F s ingress l db (accept F s ingress l db)
  unfolding accept
  accept-Either = validated-Goal (validate_ingress (normalized ingress) s.now) refl
