-- ===== src/Base/Text.antt =====
-- Go's `strings.TrimSpace` and `strings.Fields` on texts read as sequences of code points.
use Prim.Native.Char.{Char, code}
use Prim.Native.Nat.{ℕ, ◌+◌, ◌<◌}
use Prim.Native.String.{String, ◌++◌}
use mathlib.Core.List.{List, [], ◌∷◌}
use mathlib.Core.Path.{◌≡◌, refl, ap, ◌∙◌}
use mathlib.Core.Bool.{Bool, true, false, ◌&&◌, ◌||◌}
use native.Mathlib.Omega.{arith}
use simiclaw.Base.Lists.{All}
use simiclaw.Base.Tests.{leb, ◌==◌, if◌then◌else◌}

-- unicode.IsSpace
unfoldable pub is_space : Char → Bool
is_space c =
    let n = code c in
    (leb 9 n && leb n 13)
    || n == 0x20
    || n == 0x85
    || n == 0xA0
    || n == 0x1680
    || (leb 0x2000 n && leb n 0x200A)
    || n == 0x2028
    || n == 0x2029
    || n == 0x202F
    || n == 0x205F
    || n == 0x3000

abbrev pub is_empty : String → Bool
is_empty String.[] = true
is_empty (String.◌∷◌ c s) = false

-- `%q`, without its escapes.
abbrev pub quoted : String → String
quoted s = "\"" ++ s ++ "\""

abbrev pub codes : String → List ℕ
codes String.[] = []
codes (String.◌∷◌ c s) = code c ∷ codes s

-- strings.EqualFold, where no letter of one of the texts has a partner outside ASCII.
abbrev pub folded : ℕ → ℕ
folded n = if leb b'A' n && leb n b'Z' then n + 32 else n

pub same_folded : List ℕ → List ℕ → Bool
same_folded [] [] = true
same_folded [] (y ∷ ys) = false
same_folded (x ∷ xs) [] = false
same_folded (x ∷ xs) (y ∷ ys) = if folded x == folded y then same_folded xs ys else false

unfoldable pub equal_fold : String → String → Bool
unfolding same_folded
equal_fold s t = same_folded (codes s) (codes t)

trim_left : String → String
trim_left String.[] = String.[]
trim_left (String.◌∷◌ c s) = if is_space c then trim_left s else String.◌∷◌ c s

-- Drops the spaces at the end.
trim_end : Char → String → String
trim_end c s = if is_empty s && is_space c then String.[] else String.◌∷◌ c s

trim_right : String → String
trim_right String.[] = String.[]
trim_right (String.◌∷◌ c s) = trim_end c (trim_right s)

unfoldable pub trim_space : String → String
unfolding trim_left trim_right trim_end is_space
trim_space s = trim_right (trim_left s)

-- A visible character of ASCII.
abbrev pub IsVisible : ℕ → Type 0
IsVisible n = (0x20 < n) × (n < 0x7F)

visible_no_space : (c : Char) → IsVisible (code c) → is_space c ≡ false
unfolding is_space
visible_no_space c h = ground arith

trim_right_visible : (s : String) → All IsVisible (codes s) → trim_right s ≡ s
unfolding trim_right trim_end
trim_right_visible String.[] h = refl
trim_right_visible (String.◌∷◌ c s) h =
    ap (trim_end c) (trim_right_visible s h.1)
    ∙ kept (is_empty s) (is_space c) (visible_no_space c h.0)
  where
    kept :
        (e b : Bool) → b ≡ false → (if e && b then String.[] else String.◌∷◌ c s) ≡ String.◌∷◌ c s
    kept e b p = ground (arith, p)

-- A text without spaces is its own trimmed text.
pub trim_space_visible : (s : String) → All IsVisible (codes s) → trim_space s ≡ s
unfolding trim_space
trim_space_visible String.[] h = refl
trim_space_visible (String.◌∷◌ c s) h =
    ap (λ b. trim_right (if b then trim_left s else String.◌∷◌ c s)) (visible_no_space c h.0)
    ∙ trim_right_visible (String.◌∷◌ c s) h

trim_test : trim_space "  /new \n" ≡ "/new"
unfolding trim_space
trim_test = refl

-- strings.Fields: the words of a text; `word` is the one that is being read.
finish : String → List String → List String
finish word rest = if is_empty word then rest else word ∷ rest

fields_from : String → String → List String
fields_from word String.[] = finish word []
fields_from word (String.◌∷◌ c s) =
    let ended = finish word (fields_from "" s) in
    let longer = fields_from (word ++ String.◌∷◌ c String.[]) s in
    if is_space c then ended else longer

unfoldable pub fields : String → List String
unfolding fields_from finish is_space
fields s = fields_from "" s

fields_test : fields "  one two  " ≡ "one" ∷ "two" ∷ []
unfolding fields
fields_test = refl
