-- ===== src/Workspace/Text.antt =====
-- internal/workspacefile/workspacefile.go: the text of a file, as its bytes.
pub mod Unique
pub mod Lines
use simiclaw.Base.{
  ℕ, zero, suc, ◌-◌, String, Bool, true, false, not, ◌&&◌, ◌||◌, Option, none, some, List, [], ◌∷◌,
  ◌++◌, length, drop, leb, ◌==◌, if◌then◌else◌, ◌≡◌, refl,
}

abbrev pub Bytes : Type 0
Bytes = List ℕ

abbrev pub has_no_text : Bytes → Bool
has_no_text [] = true
has_no_text (c ∷ s) = false

abbrev starts_line : Bytes → Bool
starts_line [] = false
starts_line (c ∷ s) = c == 10

-- strings.ReplaceAll(in, "\r\n", "\n")
crlf_to_lf : Bytes → Bytes
crlf_to_lf [] = []
crlf_to_lf (c ∷ s) = let rest = crlf_to_lf s in if c == 13 && starts_line s then rest else c ∷ rest

-- strings.ReplaceAll(in, "\r", "\n")
cr_to_lf : Bytes → Bytes
cr_to_lf [] = []
cr_to_lf (c ∷ s) = (if c == 13 then 10 else c) ∷ cr_to_lf s

-- normalizeText
unfoldable pub normalize_text : Bytes → Bytes
unfolding crlf_to_lf cr_to_lf
normalize_text s = cr_to_lf (crlf_to_lf s)

unfoldable pub has_prefix : Bytes → Bytes → Bool
has_prefix [] s = true
has_prefix (c ∷ p) [] = false
has_prefix (c ∷ p) (d ∷ s) = if c == d then has_prefix p s else false

-- strings.Count, for a text that is not empty; the number is that of the bytes of a match to pass over.
unfoldable pub count_from : ℕ → Bytes → Bytes → ℕ
unfolding has_prefix
count_from k old [] = 0
count_from (suc k) old (c ∷ s) = count_from k old s
count_from zero old (c ∷ s) =
    let here = has_prefix old (c ∷ s) in
    let rest = count_from (if here then length old - 1 else 0) old s in
    if here then suc rest else rest

-- strings.Replace with the limit 1, for an old text that is not empty.
unfoldable pub replace_first : Bytes → Bytes → Bytes → Bytes
unfolding has_prefix
replace_first old new [] = []
replace_first old new (c ∷ s) =
    let rest = replace_first old new s in
    if has_prefix old (c ∷ s) then new ++ drop (length old) (c ∷ s) else c ∷ rest

-- What a first byte of UTF-8 asks for: how many more, and the range of the next one.
abbrev first_byte : ℕ → Option (ℕ × ℕ × ℕ)
first_byte c =
    if leb c 0x7F
    then some (0, 0, 0)
    else if leb 0xC2 c && leb c 0xDF
    then some (1, 0x80, 0xBF)
    else if c == 0xE0
    then some (2, 0xA0, 0xBF)
    else if c == 0xED
    then some (2, 0x80, 0x9F)
    else if leb 0xE1 c && leb c 0xEF
    then some (2, 0x80, 0xBF)
    else if c == 0xF0
    then some (3, 0x90, 0xBF)
    else if leb 0xF1 c && leb c 0xF3
    then some (3, 0x80, 0xBF)
    else if c == 0xF4
    then some (3, 0x80, 0x8F)
    else none

abbrev or_fourth : Option (ℕ × ℕ × ℕ) → ℕ × ℕ × ℕ
or_fourth none = (4, 1, 0)
or_fourth (some r) = r

-- utf8.Valid; after a byte that cannot stand first, no byte is in the range of the next one.
valid_from : ℕ → ℕ → ℕ → Bytes → Bool
valid_from n low high [] = n == 0
valid_from zero low high (c ∷ s) =
    let (n, low', high') = or_fourth (first_byte c) in valid_from n low' high' s
valid_from (suc n) low high (c ∷ s) =
    let rest = valid_from n 0x80 0xBF s in if leb low c && leb c high then rest else false

unfoldable pub valid_utf8 : Bytes → Bool
unfolding valid_from
valid_utf8 s = valid_from 0 0 0 s

unfoldable pub has_nul : Bytes → Bool
has_nul [] = false
has_nul (c ∷ s) = if c == 0 then true else has_nul s

-- MaxBytes
abbrev pub max_bytes : ℕ
max_bytes = 262144

pub record Error : Type 0 where
  pub code : String
  pub message : String
  pub match_count : Option ℕ

abbrev pub error : String → String → Error
error code message = record { code = code; message = message; match_count = none }

-- validateTextContent
unfoldable pub validate_text_content : Bytes → Option Error
unfolding has_nul valid_utf8
validate_text_content content =
    if not (leb (length content) max_bytes)
    then some (error "forbidden" "file content exceeds 262144 bytes")
    else if has_nul content
    then some (error "forbidden" "file content contains NUL bytes")
    else if not (valid_utf8 content)
    then some (error "forbidden" "file content is not valid UTF-8 text")
    else none

normalize_test : normalize_text (97 ∷ 13 ∷ 13 ∷ 10 ∷ 98 ∷ 13 ∷ []) ≡ 97 ∷ 10 ∷ 10 ∷ 98 ∷ 10 ∷ []
unfolding normalize_text
normalize_test = refl

utf8_test : valid_utf8 (0xE5 ∷ 0xB7 ∷ 0xA5 ∷ 0x61 ∷ []) ≡ true
unfolding valid_utf8
utf8_test = refl

utf8_surrogate_test : valid_utf8 (0xED ∷ 0xA0 ∷ 0x80 ∷ []) ≡ false
unfolding valid_utf8
utf8_surrogate_test = refl

-- Matches do not overlap.
count_test : count_from 0 (97 ∷ 97 ∷ []) (97 ∷ 97 ∷ 97 ∷ []) ≡ 1
unfolding count_from
count_test = refl
