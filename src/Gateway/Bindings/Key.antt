-- ===== src/Gateway/Bindings/Key.antt =====
-- internal/gateway/bindings/key.go: the session key of a conversation.
use Prim.Native.String.{◌++◌}
use simiclaw.Base.{String, Bool, ◌&&◌, ◌==ˢ◌, if◌then◌else◌}
use simiclaw.Base.Result.{Result, ok, err}
use simiclaw.Base.Text.{is_empty}
use simiclaw.Model.{Conversation}
use simiclaw.Gateway.Bindings.Scope.{normalize_scope}

abbrev pub is_dm : Conversation → Bool
is_dm conv = conv.channel_type ==ˢ "dm"

-- The text that is hashed. A participant counts in a direct message only.
abbrev pub raw_key : String → Conversation → String → String
raw_key tenant_id conv dm_scope =
    tenant_id
    ++ "|"
    ++ conv.conversation_id
    ++ "|"
    ++ conv.channel_type
    ++ "|"
    ++ (if is_dm conv then conv.participant_id else "-")
    ++ "|"
    ++ normalize_scope dm_scope

-- ComputeKey, with the hexadecimal form of a SHA-256 as a parameter.
unfoldable pub compute_key :
    (String → String) → String → Conversation → String → Result String String
unfolding normalize_scope
compute_key sha256_hex tenant_id conv dm_scope =
    if is_empty tenant_id
    then err "tenant_id is required"
    else if is_empty conv.conversation_id
    then err "conversation_id is required"
    else if is_empty conv.channel_type
    then err "channel_type is required"
    else if is_dm conv && is_empty conv.participant_id
    then err "participant_id is required for dm"
    else ok ("sk:" ++ sha256_hex (raw_key tenant_id conv dm_scope))
