-- ===== src/Gateway/Validate/Admission.antt =====
-- internal/gateway/service.go: what a request that is let in satisfies.
use text.Mathlib.Text.{starts_with}
use simiclaw.Base.{
  ℕ, ◌+◌, ◌≤◌, ◌≡◌, ◌≢◌, ◌⊎◌, inl, inr, Bool-cases, refl, String, Bool, true, false, not, ◌&&◌,
  ◌==ˢ◌, if◌then◌else◌, arith, eq_iff,
}
use simiclaw.Base.Result.{Result, ok, err}
use simiclaw.Base.Text.{is_empty}
use simiclaw.Gateway.Model.{NormalizedIngress}
use simiclaw.Gateway.Validate.{
  ApiError, validate_ingress, validate_time, is_telegram_key, is_cli_key, normalize_native_ref,
  max_timestamp_drift_window, bad_native_ref,
}

pub record Admitted (i : NormalizedIngress) (now ts : ℕ) : Type 0 where
  pub time : ts ≡ i.timestamp
  pub time_set : ts ≢ 0
  pub not_late : now ≤ ts + max_timestamp_drift_window
  pub not_early : ts ≤ now + max_timestamp_drift_window
  pub has_source : is_empty i.source ≡ false
  pub has_conversation : is_empty i.conversation.conversation_id ≡ false
  pub has_channel : is_empty i.conversation.channel_type ≡ false
  pub not_reserved : i.conversation.channel_type ≢ "channel"
  pub has_participant :
      (i.conversation.channel_type ≢ "dm") ⊎ (is_empty i.conversation.participant_id ≡ false)
  pub has_type : is_empty i.payload.type ≡ false
  pub has_key : is_empty i.idempotency_key ≡ false
  pub telegram_key : (i.source ≢ "telegram") ⊎ (is_telegram_key i.idempotency_key ≡ true)
  pub cli_key : (i.source ≢ "cli") ⊎ (is_cli_key i.idempotency_key ≡ true)
  pub native_ref_inside :
      (is_empty i.payload.native_ref ≡ true)
      ⊎ (starts_with (normalize_native_ref i.payload.native_ref) "runtime/native/" ≡ true)

validate_time-ok :
    (now ts t : ℕ)
    → validate_time now t ≡ ok ts
    → (ts ≡ t)
      × (ts ≢ 0)
      × (now ≤ ts + max_timestamp_drift_window)
      × (ts ≤ now + max_timestamp_drift_window)
validate_time-ok now ts t h = ground arith

inside :
    (ref : String)
    → bad_native_ref ref ≡ false
    → (is_empty ref ≡ true) ⊎ (starts_with (normalize_native_ref ref) "runtime/native/" ≡ true)
inside ref h = elim (Bool-cases (is_empty ref)) [
  | inl p ↦ inl p
  | inr p ↦ inr (ground (arith, h, p))
]

-- A guard that was passed.
passed :
    (b : Bool) (e : ApiError) (r : Result ApiError ℕ) (ts : ℕ)
    → Path (Result ApiError ℕ) (if b then err e else r) (ok ts)
    → (b ≡ false) × (r ≡ ok ts)
passed true e r ts h = absurd (cc)
passed false e r ts h = (refl, h)

differ : (s t : String) → (s ==ˢ t) ≡ false → s ≢ t
differ s t h e = ground (arith, h, eq_iff s t, e)

-- A guard on two tests, by the text of the first one.
second_false : (s t : String) (b : Bool) → (s ==ˢ t && b) ≡ false → (s ≢ t) ⊎ (b ≡ false)
second_false s t true h = inl (λ e. ground (arith, h, eq_iff s t, e))
second_false s t false h = inr refl

second_true : (s t : String) (b : Bool) → (s ==ˢ t && not b) ≡ false → (s ≢ t) ⊎ (b ≡ true)
second_true s t true h = inr refl
second_true s t false h = inl (λ e. ground (arith, h, eq_iff s t, e))

-- A request that passes `validateIngress` has every field that it needs, a channel that is not
-- reserved, a key in its source's format, a native reference whose cleaned path stands under
-- `runtime/native/`, and a timestamp within ten minutes of the clock.
pub validate_ingress-Admitted :
    (i : NormalizedIngress) (now ts : ℕ) → validate_ingress i now ≡ ok ts → Admitted i now ts
unfolding validate_ingress
validate_ingress-Admitted i now ts h =
    let g₁ = passed _ _ _ ts h in
    let g₂ = passed _ _ _ ts g₁.1 in
    let g₃ = passed _ _ _ ts g₂.1 in
    let g₄ = passed _ _ _ ts g₃.1 in
    let g₅ = passed _ _ _ ts g₄.1 in
    let g₆ = passed _ _ _ ts g₅.1 in
    let g₇ = passed _ _ _ ts g₆.1 in
    let g₈ = passed _ _ _ ts g₇.1 in
    let g₉ = passed _ _ _ ts g₈.1 in
    let g₁₀ = passed _ _ _ ts g₉.1 in
    let p = validate_time-ok now ts i.timestamp g₁₀.1 in
    record {
      time = p.0;
      time_set = p.1;
      not_late = p.2;
      not_early = p.3;
      has_source = g₁.0;
      has_conversation = g₂.0;
      has_channel = g₃.0;
      not_reserved = differ i.conversation.channel_type "channel" g₄.0;
      has_participant = second_false i.conversation.channel_type "dm" _ g₅.0;
      has_type = g₆.0;
      has_key = g₇.0;
      telegram_key = second_true i.source "telegram" _ g₈.0;
      cli_key = second_true i.source "cli" _ g₉.0;
      native_ref_inside = inside i.payload.native_ref g₁₀.0;
    }
