-- ===== src/Runner/Display/Redacted.antt =====
-- internal/runner/display.go: what is shown has no secrets and a bounded size.
use simiclaw.Base.{
  ℕ, zero, suc, ◌≤◌, ◌≡◌, refl, ◌⊎◌, inl, inr, String, true, false, arith, Bool-cases, leb,
}
use simiclaw.Model.{Value}
use simiclaw.Runner.Display.{
  Any, Entries, Items, Shown, redacted, child, is_sensitive_key, sanitize_text, rune_count,
  max_display_rune_size, sanitize_fields, sanitize_values, sanitize_display_value,
  max_display_items,
}

abbrev entries_count : Entries → ℕ
entries_count Entries.end = 0
entries_count (Entries.entry k v fs) = suc (entries_count fs)

abbrev items_count : Items → ℕ
items_count Items.stop = 0
items_count (Items.item v vs) = suc (items_count vs)

abbrev AllEntries : (String → Any → Type 0) → Entries → Type 0
AllEntries P Entries.end = Unit
AllEntries P (Entries.entry k v fs) = P k v × AllEntries P fs

abbrev AllItems : (Any → Type 0) → Items → Type 0
AllItems P Items.stop = Unit
AllItems P (Items.item v vs) = P v × AllItems P vs

-- `P` holds of every value of another type in a value.
unfoldable mutual
  pub Others : (Value → Type 0) → Any → Type 0
  Others P (Any.object fs) = OthersIn P fs
  Others P (Any.array vs) = OthersOf P vs
  Others P (Any.text s) = Unit
  Others P (Any.other w) = P w

  pub OthersIn : (Value → Type 0) → Entries → Type 0
  OthersIn P Entries.end = Unit
  OthersIn P (Entries.entry k v fs) = Others P v × OthersIn P fs

  pub OthersOf : (Value → Type 0) → Items → Type 0
  OthersOf P Items.stop = Unit
  OthersOf P (Items.item v vs) = Others P v × OthersOf P vs

-- Under a sensitive key nothing but a mark is shown.
abbrev CleanField : (Any → Type 0) → String → Any → Type 0
CleanField Q k v = ((is_sensitive_key k ≡ false) ⊎ (v ≡ redacted)) × Q v

module _ (P : Value → Type 0) where
  abbrev CleanLevel : (Any → Type 0) → Any → Type 0
  CleanLevel Q (Any.object fs) =
      (entries_count fs ≤ suc max_display_items) × AllEntries (CleanField Q) fs
  CleanLevel Q (Any.array vs) = (items_count vs ≤ max_display_items) × AllItems Q vs
  CleanLevel Q (Any.text s) = Unit
  CleanLevel Q (Any.other w) = P w

  -- No list and no map.
  abbrev Flat : Any → Type 0
  Flat (Any.object fs) = ⊥
  Flat (Any.array vs) = ⊥
  Flat (Any.text s) = Unit
  Flat (Any.other w) = P w

  -- What may be shown on so many levels: `[]any` and `map[string]any` of a bounded number of items,
  -- no value of a sensitive key of such a map, and of other types only values with `P`.
  abbrev pub Clean : ℕ → Any → Type 0
  Clean zero v = Flat v
  Clean (suc n) v = CleanLevel (Clean n) v

  Flat-Clean : (n : ℕ) (v : Any) → Flat v → Clean n v
  Flat-Clean zero v h = h
  Flat-Clean (suc n) (Any.object fs) h = absurd h
  Flat-Clean (suc n) (Any.array vs) h = absurd h
  Flat-Clean (suc n) (Any.text s) h = tt
  Flat-Clean (suc n) (Any.other w) h = h

-- `P` holds of the mark of a map that was cut.
module _ (P : Value → Type 0) (mark : P (Value.boolean true)) (n : ℕ) where
  child-Clean :
      (show : String → Any → Shown) (k : String) (v : Any)
      → Clean P n (show k v).0
      → CleanField (Clean P n) k (child show k v).0
  child-Clean show k v h = elim (Bool-cases (is_sensitive_key k)) [
    | inl s ↦ rw s (inr refl, Flat-Clean P n redacted tt)
    | inr s ↦ rw s (inl refl, h)
  ]

  module _ (show : String → Any → Shown)
      (clean : (k : String) (v : Any) → Others P v → Clean P n (show k v).0) where
    sanitize_fields-Clean :
        (m : ℕ) (fs : Entries)
        → OthersIn P fs
        → (entries_count (sanitize_fields show m fs).0 ≤ suc m)
          × AllEntries (CleanField (Clean P n)) (sanitize_fields show m fs).0
    unfolding sanitize_fields is_sensitive_key Others
    sanitize_fields-Clean m Entries.end h = (omega arith, tt)
    sanitize_fields-Clean zero (Entries.entry k v fs) h =
        (omega arith, ((inl refl, Flat-Clean P n (Any.other (Value.boolean true)) mark), tt))
    sanitize_fields-Clean (suc m) (Entries.entry k v fs) h =
        let rest = sanitize_fields-Clean m fs h.1 in
        (omega (arith, rest.0), (child-Clean show k v (clean k v h.0), rest.1))

  sanitize_values-Clean :
      (show : Any → Shown)
      → ((v : Any) → Others P v → Clean P n (show v).0)
      → (m : ℕ) (vs : Items) → OthersOf P vs
      → (items_count (sanitize_values show m vs).0 ≤ m)
        × AllItems (Clean P n) (sanitize_values show m vs).0
  unfolding sanitize_values Others
  sanitize_values-Clean show clean m Items.stop h = (omega arith, tt)
  sanitize_values-Clean show clean zero (Items.item v vs) h = (omega arith, tt)
  sanitize_values-Clean show clean (suc m) (Items.item v vs) h =
      let rest = sanitize_values-Clean show clean m vs h.1 in
      (omega (arith, rest.0), (clean v h.0, rest.1))

sanitize_text-Flat : (P : Value → Type 0) (key s : String) → Flat P (sanitize_text key s).0
unfolding sanitize_text
sanitize_text-Flat P key s = elim (Bool-cases (is_sensitive_key key)) [
  | inl h ↦ rw h tt
  | inr h ↦ rw h (elim (Bool-cases (leb (rune_count s) max_display_rune_size)) [
    | inl l ↦ rw l tt
    | inr l ↦ rw l tt
  ])
]

one_level :
    (P : Value → Type 0) (left : ℕ) (key : String)
    → P (Value.boolean true)
    → ((k : String) (w : Any) → Others P w → Clean P left (sanitize_display_value left k w).0)
    → (v : Any) → Others P v
    → Clean P (suc left) (sanitize_display_value (suc left) key v).0
unfolding sanitize_display_value Others
one_level P left key mark shown (Any.object fs) h =
    sanitize_fields-Clean P mark left (λ k w. sanitize_display_value left k w) shown
      max_display_items fs h
one_level P left key mark shown (Any.array vs) h =
    sanitize_values-Clean P mark left (λ w. sanitize_display_value left key w) (shown key)
      max_display_items vs h
one_level P left key mark shown (Any.text s) h =
    Flat-Clean P (suc left) (sanitize_text key s).0 (sanitize_text-Flat P key s)
one_level P left key mark shown (Any.other w) h = h

-- What is shown of a value on so many levels: no value of a sensitive key of a `map[string]any`, no
-- such map of more than twenty-one entries, no `[]any` of more than twenty items, and below the last level
-- neither. A value of another type, also a typed slice, map or struct, is shown as it is, or is left out,
-- so that what holds of all of those of the input, and of the mark `true`, holds of what is shown.
pub sanitize_display_value-Clean :
    (P : Value → Type 0) (left : ℕ) (key : String) (v : Any)
    → P (Value.boolean true)
    → Others P v
    → Clean P left (sanitize_display_value left key v).0
unfolding sanitize_display_value
sanitize_display_value-Clean P zero key v mark h = tt
sanitize_display_value-Clean P (suc left) key v mark h =
    one_level P left key mark (λ k w. sanitize_display_value-Clean P left k w mark) v h
