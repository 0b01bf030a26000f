-- ===== src/Runner/Display.antt =====
-- internal/runner/display.go: what a stream shows of a tool's arguments and results. A map's entries are in
-- the order of its iteration.
pub mod Redacted
use Prim.Native.Char.{code}
use Prim.Native.String.{◌++◌ as append}
use simiclaw.Base.{
  ℕ, zero, suc, String, Bool, true, false, ◌||◌, Option, none, some, List, [], ◌∷◌, leb, ◌==◌,
  ◌==ˢ◌, if◌then◌else◌, ◌≡◌, refl,
}
use simiclaw.Base.Text.{codes, folded, trim_space}
use simiclaw.Model.{Value}

-- A value of type `any`, as the type switch tells it: a `map[string]any`, a `[]any`, a string, or a
-- value of any other type, which is given by its JSON: a number, a boolean, nil, but also a list or a
-- map of a type of its own, such as the hits of memory_search.
mutual
  pub data Entries : Type 0 where
    end : Entries
    entry : String → Any → Entries → Entries

  pub data Any : Type 0 where
    object : Entries → Any
    array : Items → Any
    text : String → Any
    other : Value → Any

  pub data Items : Type 0 where
    stop : Items
    item : Any → Items → Items

-- maxDisplayDepth, maxDisplayItems and maxDisplayRuneSize
abbrev pub max_display_depth : ℕ
max_display_depth = 4

abbrev pub max_display_items : ℕ
max_display_items = 20

abbrev max_display_rune_size : ℕ
max_display_rune_size = 256

-- unicode.ToLower, where its result is in ASCII: two letters outside ASCII go to `k` and `i`.
abbrev lowered_rune : ℕ → ℕ
lowered_rune c = if c == 0x212A then b'k' else if c == 0x130 then b'i' else folded c

abbrev lowered : List ℕ → List ℕ
lowered [] = []
lowered (c ∷ s) = lowered_rune c ∷ lowered s

starts_with : List ℕ → List ℕ → Bool
starts_with [] s = true
starts_with (c ∷ p) [] = false
starts_with (c ∷ p) (d ∷ s) = if c == d then starts_with p s else false

-- strings.Contains
contains_text : List ℕ → List ℕ → Bool
contains_text s [] = starts_with [] s
contains_text [] (c ∷ p) = false
contains_text (d ∷ s) (c ∷ p) =
    let rest = contains_text s (c ∷ p) in if starts_with (c ∷ p) (d ∷ s) then true else rest

-- isSensitiveKey
unfoldable pub is_sensitive_key : String → Bool
unfolding trim_space starts_with contains_text
is_sensitive_key key =
    let k = lowered (codes (trim_space key)) in
    contains_text k (codes "token")
    || contains_text k (codes "secret")
    || contains_text k (codes "password")
    || contains_text k (codes "api_key")
    || contains_text k (codes "apikey")
    || contains_text k (codes "authorization")

rune_count : String → ℕ
rune_count String.[] = 0
rune_count (String.◌∷◌ c s) = suc (rune_count s)

first_runes : ℕ → String → String
first_runes zero s = String.[]
first_runes (suc n) String.[] = String.[]
first_runes (suc n) (String.◌∷◌ c s) = String.◌∷◌ c (first_runes n s)

-- What a value is shown as, and whether something was cut.
abbrev pub Shown : Type 0
Shown = Any × Bool

abbrev pub redacted : Any
redacted = Any.text "[redacted]"

sanitize_text : String → String → Shown
unfolding rune_count first_runes is_sensitive_key
sanitize_text key s =
    if is_sensitive_key key
    then (redacted, false)
    else if leb (rune_count s) max_display_rune_size
    then (Any.text s, false)
    else (Any.text (append (first_runes max_display_rune_size s) "..."), true)

abbrev child : (String → Any → Shown) → String → Any → Shown
child show k v = if is_sensitive_key k then (redacted, false) else show k v

-- The loop over a map; the number is that of the items that may still be shown.
sanitize_fields : (String → Any → Shown) → ℕ → Entries → Entries × Bool
unfolding is_sensitive_key
sanitize_fields show n Entries.end = (Entries.end, false)
sanitize_fields show zero (Entries.entry k v fs) =
    (Entries.entry "_truncated_items" (Any.other (Value.boolean true)) Entries.end, true)
sanitize_fields show (suc n) (Entries.entry k v fs) =
    let shown = child show k v in
    let rest = sanitize_fields show n fs in (Entries.entry k shown.0 rest.0, shown.1 || rest.1)

-- The loop over a list.
sanitize_values : (Any → Shown) → ℕ → Items → Items × Bool
sanitize_values show n Items.stop = (Items.stop, false)
sanitize_values show zero (Items.item v vs) = (Items.stop, true)
sanitize_values show (suc n) (Items.item v vs) =
    let shown = show v in
    let rest = sanitize_values show n vs in (Items.item shown.0 rest.0, shown.1 || rest.1)

abbrev as_object : Entries × Bool → Shown
as_object (fs, truncated) = (Any.object fs, truncated)

abbrev as_array : Items × Bool → Shown
as_array (vs, truncated) = (Any.array vs, truncated)

-- sanitizeDisplayValue; the number is that of the levels that may still be shown.
unfoldable pub sanitize_display_value : ℕ → String → Any → Shown
unfolding sanitize_fields sanitize_values sanitize_text
sanitize_display_value zero key v = (Any.text "[truncated]", true)
sanitize_display_value (suc left) key v =
    let show = λ (k : String) (w : Any). sanitize_display_value left k w in
    elim v [
      | Any.object fs ↦ as_object (sanitize_fields show max_display_items fs)
      | Any.array vs ↦ as_array (sanitize_values (λ w. show key w) max_display_items vs)
      | Any.text s ↦ sanitize_text key s
      | Any.other w ↦ (Any.other w, false)
    ]

-- sanitizeDisplayMap
unfoldable pub sanitize_display_map : Entries → Shown
unfolding sanitize_display_value
sanitize_display_map fields = sanitize_display_value max_display_depth "" (Any.object fields)
