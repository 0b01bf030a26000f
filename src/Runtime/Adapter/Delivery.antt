-- ===== src/Runtime/Adapter/Delivery.antt =====
-- internal/runtime/delivery_intent.go and internal/outbound/sender/router.go: where a reply goes.
use simiclaw.Base.{
  ℕ, ◌<◌, ◌≡◌, refl, sym, ap, ◌∙◌, inl, inr, String, Bool, true, false, Option, none, some, ◌==ˢ◌,
  if◌then◌else◌, eq_iff, Option-cases,
}
use simiclaw.Base.Result.{Result, ok, err}
use simiclaw.Base.Text.{is_empty, trim_space}
use simiclaw.Base.Integer.{parse_int, format_int}
use simiclaw.Base.Integer.RoundTrip.{parse_int-format_int, trim_space-format_int, parse_int-lt-word}
use simiclaw.Base.Int64.{word}
use simiclaw.Base.Dict.{get}
use simiclaw.Model.Run.{InternalEvent, ClaimedOutbox, DeliveryIntent}
use simiclaw.Outbound.Sender.{TelegramTextSender, telegram_send, to_chat}
use simiclaw.Runtime.Adapter.{
  or_empty, formatted, to_telegram, missing_chat, telegram_target_id, resolve_delivery,
  plain_intent,
}

-- The chat that a telegram event names.
abbrev pub chat_text : InternalEvent → String
chat_text event = trim_space (or_empty (get "telegram_chat_id" event.payload.extra))

intent_of :
    (reply : String) (r : Result String String) (intent : DeliveryIntent)
    → to_telegram reply r ≡ ok (some intent)
    → (t : String) × (r ≡ ok t)
      × (intent.channel ≡ "telegram")
      × (intent.target_id ≡ t)
      × (intent.body ≡ reply)
intent_of reply (err e) intent h = absurd (cc)
intent_of reply (ok t) intent h =
    let e : record (plain_intent reply) { channel = "telegram"; target_id = t } ≡ intent = cc in
    (
      t,
      refl,
      ap (λ (i : DeliveryIntent). i.channel) (sym e),
      ap (λ (i : DeliveryIntent). i.target_id) (sym e),
      ap (λ (i : DeliveryIntent). i.body) (sym e),
    )

chat_of :
    (raw t : String) (b : Bool)
    → (if b then err missing_chat else formatted (parse_int raw)) ≡ ok t
    → (w : ℕ) × (parse_int raw ≡ some w) × (format_int w ≡ t)
chat_of raw t true h = absurd (cc)
chat_of raw t false h = elim (Option-cases (parse_int raw)) [
  | inl p ↦ absurd (no_chat (ap formatted (sym p) ∙ h))
  | inr (w, p) ↦ (w, p, text w (ap formatted (sym p) ∙ h))
]
  where
    no_chat : formatted none ≡ ok t → ⊥
    no_chat e = cc

    text : (w : ℕ) → formatted (some w) ≡ ok t → format_int w ≡ t
    text w e = cc

-- A message to a formatted chat id.
telegram_send-format_int :
    (sender : TelegramTextSender) (msg : ClaimedOutbox) (chat : ℕ)
    → chat < word
    → msg.target_id ≡ format_int chat
    → telegram_send sender msg ≡ sender chat msg.body
unfolding telegram_send
telegram_send-format_int sender msg chat h t =
    ap (λ s. to_chat sender msg (parse_int (trim_space s))) t
    ∙ ap (λ s. to_chat sender msg (parse_int s)) (trim_space-format_int chat h)
    ∙ ap (to_chat sender msg) (parse_int-format_int chat h)

-- The reply to a telegram event reaches the chat that the event names: the target that the delivery is
-- given is read by the telegram sender as the number that the event's chat id stands for.
pub resolve_delivery-telegram_send :
    (event : InternalEvent) (reply : String) (intent : DeliveryIntent) (sender : TelegramTextSender)
    (msg : ClaimedOutbox)
    → event.source ≡ "telegram"
    → resolve_delivery event reply ≡ ok (some intent)
    → msg.target_id ≡ intent.target_id
    → msg.body ≡ intent.body
    → (chat : ℕ) × (parse_int (chat_text event) ≡ some chat)
      × (intent.channel ≡ "telegram")
      × (telegram_send sender msg ≡ sender chat reply)
unfolding resolve_delivery telegram_target_id
resolve_delivery-telegram_send event reply intent sender msg tg h t b =
    let sent : to_telegram reply (telegram_target_id event) ≡ ok (some intent) =
      sent_on (is_empty (trim_space reply)) (event.source ==ˢ "telegram")
        ((eq_iff event.source "telegram").1 tg) h in
    let (target, found, channel, is_target, body) =
      intent_of reply (telegram_target_id event) intent sent in
    let (chat, read, text) = chat_of (chat_text event) target (is_empty (chat_text event)) found in
    (
      chat,
      read,
      channel,
      telegram_send-format_int sender msg chat (parse_int-lt-word (chat_text event) chat read)
            (t ∙ is_target ∙ sym text)
          ∙ ap (sender chat) (b ∙ body),
    )
  where
    sent_on :
        (blank source : Bool)
        → source ≡ true
        → Path
            (Result String (Option DeliveryIntent))
            (if blank
              then ok none
              else if source
              then to_telegram reply (telegram_target_id event)
              else ok (some (plain_intent reply)))
            (ok (some intent))
        → to_telegram reply (telegram_target_id event) ≡ ok (some intent)
    sent_on true source s k = absurd (cc)
    sent_on false true s k = k
    sent_on false false s k = absurd (cc)
