-- ===== src/Gateway/Validate.antt =====
-- internal/gateway/service.go and response.go: which requests are let in.
pub mod Admission
use Prim.Native.Char.{Char, code}
use Prim.Native.String.{◌∷◌ as cons, [] as nil}
use text.Mathlib.Text.{starts_with}
use simiclaw.Base.{
  ℕ, ◌+◌, ◌*◌, String, Bool, true, false, not, ◌&&◌, ◌||◌, Option, none, some, ◌==ˢ◌, ◌==◌, leb,
  ltb, if◌then◌else◌,
}
use simiclaw.Base.Path.{clean, replace_all}
use simiclaw.Base.Result.{Result, ok, err}
use simiclaw.Base.Text.{is_empty, trim_space}
use simiclaw.Base.Time.{second}
use simiclaw.Model.{Conversation, EventPayload}
use simiclaw.Gateway.Model.{NormalizedIngress}

-- `details` is the name of the field that is wrong.
pub record ApiError : Type 0 where
  pub status_code : ℕ
  pub code : String
  pub message : String
  pub details : Option String
  pub retry_after : ℕ

abbrev pub api_error : ℕ → String → String → ApiError
api_error status_code code message = record {
  status_code = status_code;
  code = code;
  message = message;
  details = none;
  retry_after = 0;
}

-- invalidArgument
abbrev pub invalid_argument : String → String → ApiError
invalid_argument message field = record (api_error 400 "INVALID_ARGUMENT" message) {
  details = some field;
}

abbrev pub max_timestamp_drift_window : ℕ
max_timestamp_drift_window = 600 * second

abbrev is_digit : Char → Bool
is_digit c = leb 0x30 (code c) && leb (code c) 0x39

abbrev is_letter : Char → Bool
is_letter c = (leb 0x41 (code c) && leb (code c) 0x5A) || (leb 0x61 (code c) && leb (code c) 0x7A)

-- [0-9]*$
all_digits : String → Bool
all_digits String.[] = true
all_digits (String.◌∷◌ c s) = is_digit c && all_digits s

abbrev some_digits : String → Bool
some_digits s = not (is_empty s) && all_digits s

-- The rest of a text after a prefix meets a test.
after_prefix : String → (String → Bool) → String → Bool
after_prefix String.[] test s = test s
after_prefix (String.◌∷◌ c p) test String.[] = false
after_prefix (String.◌∷◌ c p) test (String.◌∷◌ d s) =
    let rest = after_prefix p test s in if code c == code d then rest else false

-- [^:]*:[0-9]+$
to_colon : String → Bool
to_colon String.[] = false
to_colon (String.◌∷◌ c s) = let rest = to_colon s in if code c == 0x3A then some_digits s else rest

-- [^:]+:[0-9]+$
abbrev name_colon_digits : String → Bool
name_colon_digits String.[] = false
name_colon_digits (String.◌∷◌ c s) = if code c == 0x3A then false else to_colon s

-- ^telegram:update:[0-9]+$
unfoldable pub is_telegram_key : String → Bool
unfolding after_prefix all_digits
is_telegram_key key = after_prefix "telegram:update:" some_digits key

-- ^cli:[^:]+:[0-9]+$
unfoldable pub is_cli_key : String → Bool
unfolding after_prefix to_colon all_digits
is_cli_key key = after_prefix "cli:" name_colon_digits key

-- ^[A-Za-z]:/
unfoldable pub is_windows_volume_path : String → Bool
is_windows_volume_path String.[] = false
is_windows_volume_path (String.◌∷◌ c s) = is_letter c && starts_with s ":/"

-- normalizeNativeRef
unfoldable pub normalize_native_ref : String → String
unfolding clean replace_all trim_space
normalize_native_ref ref =
    if is_empty (trim_space ref) then "" else clean (replace_all "\\" "/" ref)

abbrev pub escapes : String → Bool
escapes ref =
    ref ==ˢ ".."
    || starts_with ref "../"
    || starts_with ref "/"
    || is_windows_volume_path ref
    || not (starts_with ref "runtime/native/")

abbrev pub bad_native_ref : String → Bool
bad_native_ref ref = not (is_empty ref) && escapes (normalize_native_ref ref)

-- The two tests on `now.Sub(ts)`, whose saturation plays no part.
abbrev pub drifts : ℕ → ℕ → Bool
drifts now ts =
    ltb (ts + max_timestamp_drift_window) now || ltb (now + max_timestamp_drift_window) ts

abbrev pub validate_time : ℕ → ℕ → Result ApiError ℕ
validate_time now ts =
    if ts == 0
    then err (invalid_argument "field timestamp is required" "timestamp")
    else if drifts now ts
    then err (api_error 400 "INVALID_ARGUMENT" "timestamp drift exceeds 10m")
    else ok ts

abbrev pub validate_key : NormalizedIngress → ℕ → Result ApiError ℕ
validate_key i now =
    if is_empty i.idempotency_key
    then err (invalid_argument "field idempotency_key is required" "idempotency_key")
    else if i.source ==ˢ "telegram" && not (is_telegram_key i.idempotency_key)
    then err (api_error 400 "INVALID_ARGUMENT" "invalid telegram idempotency_key format")
    else if i.source ==ˢ "cli" && not (is_cli_key i.idempotency_key)
    then err (api_error 400 "INVALID_ARGUMENT" "invalid cli idempotency_key format")
    else if bad_native_ref i.payload.native_ref
    then err (api_error 400 "INVALID_ARGUMENT" "native_ref must stay within runtime/native/**")
    else validate_time now i.timestamp

-- validateIngress
unfoldable pub validate_ingress : NormalizedIngress → ℕ → Result ApiError ℕ
unfolding is_telegram_key is_cli_key is_windows_volume_path normalize_native_ref
validate_ingress i now =
    let conv = i.conversation in
    if is_empty i.source
    then err (invalid_argument "field source is required" "source")
    else if is_empty conv.conversation_id
    then err (
        invalid_argument "field conversation.conversation_id is required"
          "conversation.conversation_id")
    else if is_empty conv.channel_type
    then err
        (invalid_argument "field conversation.channel_type is required" "conversation.channel_type")
    else if conv.channel_type ==ˢ "channel"
    then err (invalid_argument "channel_type 'channel' is reserved" "conversation.channel_type")
    else if conv.channel_type ==ˢ "dm" && is_empty conv.participant_id
    then err (
        invalid_argument "field conversation.participant_id is required"
          "conversation.participant_id")
    else if is_empty i.payload.type
    then err (invalid_argument "field payload.type is required" "payload.type")
    else validate_key i now
