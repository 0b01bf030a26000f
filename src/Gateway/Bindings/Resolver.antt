-- ===== src/Gateway/Bindings/Resolver.antt =====
-- internal/gateway/bindings: resolver.go, hints.go and contracts.go.
pub mod Choice
use simiclaw.Base.{
  String, Bool, true, false, not, ◌&&◌, Option, none, some, List, [], ◌∷◌, ◌==ˢ◌, if◌then◌else◌,
}
use simiclaw.Base.Dict.{get, put}
use simiclaw.Base.Result.{Result, ok, err}
use simiclaw.Base.Text.{is_empty}
use simiclaw.Model.{Conversation}
use simiclaw.Gateway.Model.{NormalizedIngress, BindingContext, Metadata}
use simiclaw.Gateway.Bindings.Scope.{
  normalize_scope, default_scope, is_new_session_command, new_scope_from_id,
}
use simiclaw.Gateway.Bindings.Key.{compute_key}

pub record SessionScopeRecord : Type 0 where
  pub conversation_id : String
  pub channel_type : String
  pub participant_id : String
  pub dm_scope : String
  pub session_id : String

-- SessionLookup, as the store answers at one moment. A lookup may fail.
pub record SessionLookup : Type 0 where
  pub get_conversation_dm_scope : String → Conversation → Result String (Option String)
  pub get_scope_session : String → Result String (Option SessionScopeRecord)

-- WithHint
unfoldable pub with_hint : Metadata → String → String → Metadata
unfolding put
with_hint meta key value = if is_empty value then meta else put key value meta

abbrev pub or_empty : Option String → String
or_empty none = ""
or_empty (some s) = s

-- PayloadTypeOverride
unfoldable pub payload_type_override : Metadata → String
unfolding get
payload_type_override meta = or_empty (get "payload_type_override" meta)

-- What `resolveScope` returns: the scope, the hints and the session.
pub record Scoped : Type 0 where
  pub scope : String
  pub metadata : Metadata
  pub session_id : String

abbrev pub same_conversation : SessionScopeRecord → Conversation → Bool
same_conversation rec conv =
    rec.conversation_id ==ˢ conv.conversation_id
    && rec.channel_type ==ˢ conv.channel_type
    && rec.participant_id ==ˢ conv.participant_id

abbrev pub hinted :
    NormalizedIngress
    → Result String (Option SessionScopeRecord)
    → Result String (Option (String × String))
hinted ingress (err e) = err e
hinted ingress (ok none) = ok none
hinted ingress (ok (some rec)) =
    if same_conversation rec ingress.conversation
    then ok (some (normalize_scope rec.dm_scope, rec.session_id))
    else ok none

-- scopeFromSessionHint
unfoldable pub scope_from_session_hint :
    Option SessionLookup → NormalizedIngress → Result String (Option (String × String))
unfolding normalize_scope
scope_from_session_hint none ingress = ok none
scope_from_session_hint (some repo) ingress =
    if is_empty ingress.session_key_hint
    then ok none
    else hinted ingress (repo.get_scope_session ingress.session_key_hint)

abbrev pub with_source : String → String → String → Scoped
with_source scope source session_id = record {
  scope = scope;
  metadata = with_hint [] "scope_source" source;
  session_id = session_id;
}

-- The scope that is stored for the conversation, or the default one.
abbrev pub stored_scope : Result String (Option String) → Result String Scoped
stored_scope (err e) = err e
stored_scope (ok none) = ok (with_source default_scope "default" "")
stored_scope (ok (some scope)) = ok (with_source (normalize_scope scope) "stored" "")

abbrev pub look_up : Option SessionLookup → String → Conversation → Result String (Option String)
look_up none tenant_id conv = ok none
look_up (some repo) tenant_id conv = repo.get_conversation_dm_scope tenant_id conv

abbrev pub after_hint :
    Option SessionLookup
    → String
    → NormalizedIngress
    → Result String (Option (String × String))
    → Result String Scoped
after_hint repo tenant_id ingress (err e) = err e
after_hint repo tenant_id ingress (ok (some (scope, session_id))) =
    ok (with_source scope "session_key_hint" session_id)
after_hint repo tenant_id ingress (ok none) =
    if is_empty ingress.dm_scope
    then stored_scope (look_up repo tenant_id ingress.conversation)
    else ok (with_source (normalize_scope ingress.dm_scope) "ingress" "")

abbrev pub is_new_session : NormalizedIngress → Bool
is_new_session ingress =
    ingress.payload.type ==ˢ "message" && is_new_session_command ingress.payload.text

abbrev pub new_session_scope : (String → String) → NormalizedIngress → Scoped
new_session_scope sha256_hex ingress = record {
  scope = new_scope_from_id sha256_hex ingress.idempotency_key;
  metadata =
      with_hint (with_hint [] "payload_type_override" "new_session") "scope_source" "new_session";
  session_id = "";
}

-- resolveScope
unfoldable pub resolve_scope :
    (String → String) → Option SessionLookup → String → NormalizedIngress → Result String Scoped
unfolding with_hint normalize_scope scope_from_session_hint is_new_session_command new_scope_from_id
resolve_scope sha256_hex repo tenant_id ingress =
    if is_new_session ingress
    then ok (new_session_scope sha256_hex ingress)
    else after_hint repo tenant_id ingress (scope_from_session_hint repo ingress)

abbrev pub bound :
    String → NormalizedIngress → Scoped → Result String String → Result String BindingContext
bound tenant_id ingress scoped (err e) = err e
bound tenant_id ingress scoped (ok session_key) = ok (record {
  tenant_id = tenant_id;
  session_key = session_key;
  session_id = scoped.session_id;
  scope = scoped.scope;
  conversation = ingress.conversation;
  metadata = scoped.metadata;
})

abbrev pub scope_bound :
    (String → String)
    → String
    → NormalizedIngress
    → Result String Scoped
    → Result String BindingContext
scope_bound sha256_hex tenant_id ingress (err e) = err e
scope_bound sha256_hex tenant_id ingress (ok scoped) =
    bound tenant_id ingress scoped
      (compute_key sha256_hex tenant_id ingress.conversation scoped.scope)

-- Resolve
unfoldable pub resolve_binding :
    (String → String)
    → Option SessionLookup
    → String
    → NormalizedIngress
    → Result String BindingContext
unfolding resolve_scope compute_key
resolve_binding sha256_hex repo tenant_id ingress =
    scope_bound sha256_hex tenant_id ingress (resolve_scope sha256_hex repo tenant_id ingress)
