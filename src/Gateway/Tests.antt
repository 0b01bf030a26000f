-- ===== src/Gateway/Tests.antt =====
-- internal/gateway: a request on its way in.
use simiclaw.Base.{
  Bool, false, ◌≡◌, ℕ, refl, String, true, none, some, [], ◌∷◌, arith, ltb, ◌-◌, ◌+◌, ◌*◌, ◌≤◌, min,
}
use simiclaw.Base.Result.{Result, ok, err}
use simiclaw.Base.Path.{clean, replace_all}
use simiclaw.Base.Text.{trim_space, fields}
use simiclaw.Model.{Conversation, EventPayload}
use simiclaw.Gateway.Model.{NormalizedIngress, BindingContext}
use simiclaw.Gateway.Bindings.Scope.{new_scope_from_id}
use simiclaw.Gateway.Validate.{
  ApiError, validate_ingress, is_telegram_key, is_cli_key, is_windows_volume_path,
  normalize_native_ref,
}
use simiclaw.Gateway.Validate.Admission.{Admitted, validate_ingress-Admitted}
use simiclaw.Gateway.Limiter.{Float, new_limiter}
use simiclaw.Gateway.Limiter.Buckets.{Laws}
use simiclaw.Gateway.Accept.{Service, Accepted, Limits, accept}
use simiclaw.Gateway.Accept.Contract.{Either}
use simiclaw.Gateway.Accept.Effects.{accept-Either}
use simiclaw.Store.Tables.{empty_db}
use simiclaw.Runtime.Payload.{builtin_registry}

abbrev payload : EventPayload
payload = record {
  type = "message";
  text = "/new";
  mentions = [];
  attachments = [];
  native = "";
  native_ref = "runtime/native/./a";
  extra = [];
}

abbrev conv : Conversation
conv = record { conversation_id = "c"; thread_id = "x"; channel_type = "dm"; participant_id = "u" }

abbrev ingress : NormalizedIngress
ingress = record {
  source = "cli";
  conversation = conv;
  session_key_hint = "";
  idempotency_key = "cli:me:1";
  timestamp = 5;
  dm_scope = "";
  payload = payload;
  metadata = [];
}

-- A stand-in for the hexadecimal SHA-256.
abbrev no_hash : String → String
no_hash s = "0123456789abcdef0123"

validate_ingress-Admitted_example : Admitted ingress 7 5
unfolding validate_ingress is_telegram_key is_cli_key is_windows_volume_path normalize_native_ref
    clean replace_all trim_space
validate_ingress-Admitted_example = validate_ingress-Admitted ingress 7 5 refl

abbrev binding : BindingContext
binding = record {
  tenant_id = "t";
  session_key = "sk:0123456789abcdef0123";
  session_id = "";
  scope = new_scope_from_id no_hash "cli:me:1";
  conversation = conv;
  metadata = ("payload_type_override", "new_session") ∷ ("scope_source", "new_session") ∷ [];
}

-- Whole numbers in place of float64.
abbrev whole : Float
whole = record {
  Number = ℕ;
  lt = ltb;
  min = min;
  add = λ a b. a + b;
  sub = λ a b. a - b;
  mul = λ a b. a * b;
  one = 1;
  seconds = λ d. d;
}

min-le : (a b : ℕ) → min a b ≤ a
min-le a b = ground arith

abbrev whole_laws : Laws whole
whole_laws = record {
  Le = λ a b. a ≤ b;
  trans = λ a b c p q. omega arith;
  min_le = min-le;
  sub_le = λ a. omega arith;
}

abbrev service : Service
service = record {
  tenant_id = "t";
  now = 7;
  sha256_hex = no_hash;
  shape_hash = λ s. "hash";
  lookup = λ db. none;
  payloads = some builtin_registry;
  try_enqueue = some (λ id. true);
  describe = λ e. "error";
}

abbrev limits : Limits whole
limits = record { tenant = new_limiter whole 1 2; session = new_limiter whole 1 2 }

accept-Either_example :
    Either whole service ingress limits empty_db (accept whole service ingress limits empty_db)
accept-Either_example = accept-Either whole service ingress limits empty_db

-- Whether an event was stored and queued, and the status code.
abbrev shown : Result ApiError Accepted → Bool × ℕ
shown (ok a) = (a.enqueued, a.status_code)
shown (err e) = (false, e.status_code)

-- The request is new, and the queue takes it.
accepted_test : shown (accept whole service ingress limits empty_db).result ≡ (true, 202)
unfolding accept validate_ingress is_telegram_key is_cli_key is_windows_volume_path
    normalize_native_ref clean replace_all trim_space fields
accepted_test = refl
