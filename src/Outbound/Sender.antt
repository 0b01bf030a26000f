-- ===== src/Outbound/Sender.antt =====
-- internal/outbound/sender: the sender of each channel.
use Prim.Native.String.{◌++◌ as append}
use simiclaw.Base.{ℕ, String, Option, none, some, List, [], ◌∷◌}
use simiclaw.Base.Text.{trim_space}
use simiclaw.Base.Integer.{parse_int}
use simiclaw.Base.Dict.{get, put}
use simiclaw.Model.Run.{ClaimedOutbox}
use simiclaw.Outbound.Delivery.{Sender}

-- Router: the map from channels to senders.
abbrev pub Router : Type 0
Router = List (String × Sender)

-- The loop of NewRegistry over the given senders, of which any may be nil.
normalized : List (String × Option Sender) → Router → Router
normalized [] router = router
normalized ((channel, none) ∷ rest) router = normalized rest router
normalized ((channel, some sender) ∷ rest) router =
    normalized rest (put (trim_space channel) sender router)

abbrev with_default : Option Sender → Router → Router
with_default none router = router
with_default (some sender) router = put "" sender (put "stdout" sender router)

-- NewRegistry
unfoldable pub new_registry : Option Sender → List (String × Option Sender) → Router
unfolding normalized put trim_space
new_registry default senders = with_default default (normalized senders [])

-- Resolve
unfoldable pub resolve : Router → String → Option Sender
unfolding get trim_space
resolve router channel = get (trim_space channel) router

abbrev sent_by : String → Option Sender → ClaimedOutbox → Option String
sent_by channel none msg = some (append "unsupported outbox channel " channel)
sent_by channel (some sender) msg = sender msg

-- Send of Router.
unfoldable pub send : Router → Sender
unfolding resolve
send router msg = sent_by (trim_space msg.channel) (resolve router (trim_space msg.channel)) msg

-- SendTextMessage: a chat's id, as a 64-bit word, and the text.
abbrev pub TelegramTextSender : Type 0
TelegramTextSender = ℕ → String → Option String

abbrev pub to_chat : TelegramTextSender → ClaimedOutbox → Option ℕ → Option String
to_chat sender msg none = some (append "invalid telegram target_id " msg.target_id)
to_chat sender msg (some chat_id) = sender chat_id msg.body

-- telegramSender
unfoldable pub telegram_send : TelegramTextSender → Sender
unfolding parse_int trim_space
telegram_send sender msg = to_chat sender msg (parse_int (trim_space msg.target_id))

-- NewRouter
abbrev telegram_senders : Option TelegramTextSender → List (String × Option Sender)
telegram_senders none = []
telegram_senders (some sender) = ("telegram", some (telegram_send sender)) ∷ []

unfoldable pub new_router : Option Sender → Option TelegramTextSender → Router
unfolding new_registry telegram_send
new_router default telegram = new_registry default (telegram_senders telegram)
