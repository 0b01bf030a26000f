-- ===== src/Gateway/Bindings/Scope.antt =====
-- internal/gateway/bindings/scope.go.
use Prim.Native.String.{◌++◌, slice}
use simiclaw.Base.{String, Bool, false, ◌||◌, List, [], ◌∷◌, ◌==ˢ◌, if◌then◌else◌}
use simiclaw.Base.Text.{trim_space, is_empty, fields}
use text.Mathlib.Text.{starts_with}

abbrev pub default_scope : String
default_scope = "default"

unfoldable pub normalize_scope : String → String
normalize_scope scope = let t = trim_space scope in if is_empty t then default_scope else t

abbrev is_new_token : List String → Bool
is_new_token (token ∷ []) = token ==ˢ "/new" || starts_with token "/new@"
is_new_token _ = false

unfoldable pub is_new_session_command : String → Bool
is_new_session_command text = is_new_token (fields (trim_space text))

-- The hexadecimal form of a text's SHA-256 is a parameter: its first 16 digits are 8 bytes.
unfoldable pub new_scope_from_id : (String → String) → String → String
new_scope_from_id sha256_hex idempotency_key =
    "scope_" ++ slice (sha256_hex ("new_session:" ++ trim_space idempotency_key)) 0 16
