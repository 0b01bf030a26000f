-- ===== src/Base/Integer.antt =====
-- Go's `strconv.ParseInt` to base 10 and 64 bits, and `strconv.FormatInt`, on words in two's complement.
pub mod RoundTrip
use Prim.Native.Char.{Char, code}
use Prim.Native.String.{String}
use Prim.Native.String.{◌++◌ as append}
use Prim.Native.Nat.{ℕ, zero, suc, ◌+◌, ◌-◌, ◌*◌, ◌/◌, ◌%◌, ◌^◌, ◌<◌, ◌≤◌}
use mathlib.Core.Path.{◌≡◌, refl, sym, ap, ◌∙◌}
use mathlib.Core.Bool.{Bool, true, false, ◌&&◌}
use mathlib.Core.Logic.{◌⊎◌, inl, inr}
use mathlib.Core.Option.{Option, none, some}
use mathlib.Core.List.{List, [], ◌∷◌, ◌++◌}
use native.Mathlib.Omega.{arith}
use simiclaw.Base.Tests.{ltb, leb, ◌==◌, if◌then◌else◌, Bool-cases}
use simiclaw.Base.Text.{codes}
use simiclaw.Base.Int64.{word, half, slt}
use simiclaw.Base.Decimal.{decimal, digits, digit}

-- The digits to the end of the text, after the number that was read so far.
unfoldable pub read_digits : ℕ → List ℕ → Option ℕ
read_digits n [] = some n
read_digits n (c ∷ cs) =
    let rest = read_digits (n * 10 + (c - b'0')) cs in
    if leb b'0' c && leb c b'9' then rest else none

abbrev pub some_digits : List ℕ → Option ℕ
some_digits [] = none
some_digits (c ∷ cs) = read_digits 0 (c ∷ cs)

abbrev pub in_range : Option ℕ → ℕ → Option ℕ
in_range none limit = none
in_range (some n) limit = if leb n limit then some n else none

abbrev pub negated : Option ℕ → Option ℕ
negated none = none
negated (some n) = some ((word - n) % word)

abbrev pub parse_codes : List ℕ → Option ℕ
parse_codes [] = none
parse_codes (c ∷ cs) =
    if c == b'-'
    then negated (in_range (some_digits cs) half)
    else if c == b'+'
    then in_range (some_digits cs) (half - 1)
    else in_range (some_digits (c ∷ cs)) (half - 1)

-- ParseInt
unfoldable pub parse_int : String → Option ℕ
unfolding read_digits
parse_int s = parse_codes (codes s)

-- FormatInt
unfoldable pub format_int : ℕ → String
unfolding decimal
format_int w = if slt w 0 then append "-" (decimal (word - w)) else decimal w

parse_test : parse_int "-42" ≡ some (word - 42)
unfolding parse_int
parse_test = refl

format_test : format_int (word - 42) ≡ "-42"
unfolding format_int
format_test = refl
