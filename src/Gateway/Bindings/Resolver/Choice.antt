-- ===== src/Gateway/Bindings/Resolver/Choice.antt =====
-- internal/gateway: which session key and which route a request gets.
use simiclaw.Base.{
  ◌≡◌, refl, sym, ap, ◌∙◌, String, true, false, ◌&&◌, Option, ◌==ˢ◌, ◌⊎◌, inl, inr, Bool-cases,
  if◌then◌else◌, eq_iff,
}
use Prim.Native.String.{◌++◌}
use simiclaw.Base.Dict.{get, put}
use simiclaw.Base.Result.{Result, ok, err}
use simiclaw.Base.Text.{is_empty}
use simiclaw.Model.{Conversation}
use simiclaw.Gateway.Model.{NormalizedIngress, BindingContext}
use simiclaw.Gateway.Bindings.Scope.{normalize_scope, new_scope_from_id}
use simiclaw.Gateway.Bindings.Key.{compute_key}
use simiclaw.Gateway.Bindings.Resolver.{
  SessionLookup, resolve_scope, resolve_binding, scope_bound, bound, new_session_scope,
  is_new_session, payload_type_override, with_hint,
}
use simiclaw.Gateway.Routing.{payload_type_for}

-- The conversations that share their sessions.
pub record Same (conv conv' : Conversation) : Type 0 where
  pub id : conv.conversation_id ≡ conv'.conversation_id
  pub channel : conv.channel_type ≡ conv'.channel_type
  pub participant : conv.channel_type ≡ "dm" → conv.participant_id ≡ conv'.participant_id

-- The key by what it depends on.
abbrev key_from :
    (String → String) → String → String → String → String → String → Result String String
key_from sha256_hex tenant_id id channel participant scope =
    if is_empty tenant_id
    then err "tenant_id is required"
    else if is_empty id
    then err "conversation_id is required"
    else if is_empty channel
    then err "channel_type is required"
    else if channel ==ˢ "dm" && is_empty participant
    then err "participant_id is required for dm"
    else ok (
        "sk:"
        ++ sha256_hex (
            tenant_id
            ++ "|"
            ++ id
            ++ "|"
            ++ channel
            ++ "|"
            ++ (if channel ==ˢ "dm" then participant else "-")
            ++ "|"
            ++ scope))

compute_key-from :
    (sha256_hex : String → String) (tenant_id : String) (conv : Conversation) (scope : String)
    → compute_key sha256_hex tenant_id conv scope
      ≡ key_from sha256_hex tenant_id conv.conversation_id conv.channel_type conv.participant_id
          (normalize_scope scope)
unfolding compute_key
compute_key-from sha256_hex tenant_id conv scope = refl

no_participant :
    (sha256_hex : String → String) (tenant_id id channel p p' scope : String)
    → (channel ==ˢ "dm") ≡ false
    → key_from sha256_hex tenant_id id channel p scope
      ≡ key_from sha256_hex tenant_id id channel p' scope
no_participant sha256_hex tenant_id id channel p p' scope h = rw h

-- The session key depends on the tenant, the conversation's id and channel, the participant of a direct
-- message and the normalized scope only, its errors included; the thread plays no part.
pub compute_key-Same :
    (sha256_hex : String → String) (tenant_id : String) (conv conv' : Conversation)
    (scope scope' : String)
    → Same conv conv'
    → normalize_scope scope ≡ normalize_scope scope'
    → compute_key sha256_hex tenant_id conv scope ≡ compute_key sha256_hex tenant_id conv' scope'
compute_key-Same sha256_hex tenant_id conv conv' scope scope' same n =
    compute_key-from sha256_hex tenant_id conv scope
    ∙ ap (λ id. key conv.channel_type id conv.participant_id (normalize_scope scope)) same.id
    ∙ ap (λ t. key conv.channel_type conv'.conversation_id conv.participant_id t) n
    ∙ participants (Bool-cases (conv.channel_type ==ˢ "dm"))
    ∙ ap (λ c. key c conv'.conversation_id conv'.participant_id (normalize_scope scope'))
        same.channel
    ∙ sym (compute_key-from sha256_hex tenant_id conv' scope')
  where
    key : String → String → String → String → Result String String
    key channel id participant scope = key_from sha256_hex tenant_id id channel participant scope

    participants :
        ((conv.channel_type ==ˢ "dm") ≡ true) ⊎ ((conv.channel_type ==ˢ "dm") ≡ false)
        → key conv.channel_type conv'.conversation_id conv.participant_id (normalize_scope scope')
          ≡ key conv.channel_type conv'.conversation_id conv'.participant_id
              (normalize_scope scope')
    participants (inl dm) =
        ap (λ p. key conv.channel_type conv'.conversation_id p (normalize_scope scope'))
          (same.participant ((eq_iff conv.channel_type "dm").0 dm))
    participants (inr other) =
        no_participant sha256_hex tenant_id conv'.conversation_id conv.channel_type
          conv.participant_id conv'.participant_id (normalize_scope scope') other

new_session-scoped :
    (sha256_hex : String → String) (repo : Option SessionLookup) (tenant_id : String)
    (i : NormalizedIngress)
    → is_new_session i ≡ true
    → resolve_scope sha256_hex repo tenant_id i ≡ ok (new_session_scope sha256_hex i)
unfolding resolve_scope
new_session-scoped sha256_hex repo tenant_id i h = rw h

new_session-override :
    (sha256_hex : String → String) (tenant_id : String) (i : NormalizedIngress)
    (r : Result String String) (b : BindingContext)
    → bound tenant_id i (new_session_scope sha256_hex i) r ≡ ok b
    → (b.scope ≡ new_scope_from_id sha256_hex i.idempotency_key)
      × (b.session_id ≡ "")
      × (payload_type_for i b ≡ "new_session")
unfolding payload_type_for payload_type_override with_hint get put
new_session-override sha256_hex tenant_id i (err e) b h = absurd (cc)
new_session-override sha256_hex tenant_id i (ok key) b h =
    let p = ok-path b _ (sym h) in
    (
      ap (λ (b : BindingContext). b.scope) p,
      ap (λ (b : BindingContext). b.session_id) p,
      ap (λ (b : BindingContext). payload_type_for i b) p,
    )
  where
    ok-path : (x y : BindingContext) → Path (Result String BindingContext) (ok x) (ok y) → x ≡ y
    ok-path x y e = cc

-- A `/new` message is bound to a scope that its idempotency key alone decides, whatever session hint,
-- scope or stored scope there is, to no session yet, and it is routed as a new session.
pub resolve_binding-new_session :
    (sha256_hex : String → String) (repo : Option SessionLookup) (tenant_id : String)
    (i : NormalizedIngress) (b : BindingContext)
    → is_new_session i ≡ true
    → resolve_binding sha256_hex repo tenant_id i ≡ ok b
    → (b.scope ≡ new_scope_from_id sha256_hex i.idempotency_key)
      × (b.session_id ≡ "")
      × (payload_type_for i b ≡ "new_session")
unfolding resolve_binding
resolve_binding-new_session sha256_hex repo tenant_id i b is_new h =
    new_session-override sha256_hex tenant_id i
      (compute_key sha256_hex tenant_id i.conversation
        (new_scope_from_id sha256_hex i.idempotency_key))
      b
      (sym (
          ap (scope_bound sha256_hex tenant_id i)
            (new_session-scoped sha256_hex repo tenant_id i is_new))
        ∙ h)
