-- ===== src/Base/Integer/RoundTrip.antt =====
-- strconv: a formatted integer is read back.
use Prim.Native.Char.{code}
use Prim.Native.String.{String, ◌++◌ as append}
use Prim.Native.Nat.{ℕ, zero, suc, ◌+◌, ◌-◌, ◌*◌, ◌/◌, ◌%◌, ◌^◌, ◌<◌, ◌≤◌}
use mathlib.Core.Path.{subst, ◌≡◌, refl, sym, ap, ◌∙◌}
use mathlib.Core.Bool.{false}
use mathlib.Core.Logic.{◌⊎◌, inl, inr}
use mathlib.Core.Option.{Option, none, some}
use mathlib.Core.List.{List, [], ◌∷◌, ◌++◌, append_assoc, append-nil}
use native.Mathlib.Omega.{arith}
use native.Mathlib.Numerals.{unary_clauses}
use text.Mathlib.TextLemmas.{nil-append, cons-append}
use simiclaw.Base.Tests.{ltb, ◌==◌, if◌then◌else◌, Bool-cases}
use simiclaw.Base.Lists.{All, All-append, All-map}
use simiclaw.Base.Text.{codes, IsVisible, trim_space, trim_space_visible}
use simiclaw.Base.Int64.{word, half, slt}
use simiclaw.Base.Decimal.{decimal, digits, digit}
use simiclaw.Base.Integer.{
  read_digits, some_digits, in_range, negated, parse_codes, parse_int, format_int,
}

codes-append : (s t : String) → codes (append s t) ≡ codes s ++ codes t
codes-append String.[] t = ap codes (nil-append t)
codes-append (String.◌∷◌ c s) t =
    ap codes (cons-append c s t) ∙ ap (λ cs. code c ∷ cs) (codes-append s t)

codes-digit : (n : ℕ) → n < 10 → codes (digit n) ≡ (b'0' + n) ∷ []
unfolding digit
codes-digit zero h = refl
codes-digit (suc zero) h = refl
codes-digit (suc (suc zero)) h = refl
codes-digit (suc (suc (suc zero))) h = refl
codes-digit (suc (suc (suc (suc zero)))) h = refl
codes-digit (suc (suc (suc (suc (suc zero))))) h = refl
codes-digit (suc (suc (suc (suc (suc (suc zero)))))) h = refl
codes-digit (suc (suc (suc (suc (suc (suc (suc zero))))))) h = refl
codes-digit (suc (suc (suc (suc (suc (suc (suc (suc zero)))))))) h = refl
codes-digit (suc (suc (suc (suc (suc (suc (suc (suc (suc zero))))))))) h = refl
codes-digit (suc (suc (suc (suc (suc (suc (suc (suc (suc (suc n)))))))))) h = absurd (omega arith)

read_digit :
    (m n : ℕ) (rest : List ℕ)
    → n < 10
    → read_digits m ((b'0' + n) ∷ rest) ≡ read_digits (m * 10 + n) rest
unfolding read_digits
read_digit m n rest h = ground arith

-- The fuel is enough for all digits.
abbrev Fits : ℕ → ℕ → Type 0
Fits zero n = ⊥
Fits (suc fuel) n = (n < 10) ⊎ Fits fuel (n / 10)

more : (fuel n : ℕ) → Fits (suc fuel) n → ltb n 10 ≡ false → Fits fuel (n / 10)
more fuel n (inl small) e = absurd (ground (arith, small, e))
more fuel n (inr f) e = f

read_digits-digits :
    (fuel n : ℕ) (rest : List ℕ)
    → Fits fuel n
    → read_digits 0 (codes (digits fuel n) ++ rest) ≡ read_digits n rest
unfolding digits
read_digits-digits zero n rest h = absurd h
read_digits-digits (suc fuel) n rest h = elim (Bool-cases (ltb n 10)) [
  | inl e ↦
      rw (e, codes-digit n (ground (arith, e)))
        (read_digit 0 n rest (ground (arith, e)) ∙ ap (λ m. read_digits m rest) (omega arith))
  | inr e ↦
      rw
        (
          e,
          codes-append (digits fuel (n / 10)) (digit (n % 10)),
          codes-digit (n % 10) (omega arith),
        )
        (ap (read_digits 0)
            (append_assoc (codes (digits fuel (n / 10))) ((b'0' + n % 10) ∷ []) rest)
          ∙ read_digits-digits fuel (n / 10) ((b'0' + n % 10) ∷ rest) (more fuel n h e)
          ∙ read_digit (n / 10) (n % 10) rest (omega arith)
          ∙ ap (λ m. read_digits m rest) (omega arith))
]

Fits-pow : (fuel n : ℕ) → n < 10 ^ fuel → Fits (suc fuel) n
Fits-pow zero n h = inl (omega arith)
Fits-pow (suc fuel) n h = inr (Fits-pow fuel (n / 10) (below (10 ^ fuel) (power h)))
  where
    step : 10 ^ suc fuel ≡ 10 * 10 ^ fuel
    step = simp unary_clauses (omega arith)

    power : n < 10 ^ suc fuel → n < 10 * 10 ^ fuel
    power h = omega (arith, step)

    below : (k : ℕ) → n < 10 * k → n / 10 < k
    below k h = omega arith

abbrev IsDigit : ℕ → Type 0
IsDigit c = (b'0' ≤ c) × (c ≤ b'9')

digit-IsDigit : (n : ℕ) → n < 10 → All IsDigit (codes (digit n))
digit-IsDigit n h = rw (codes-digit n h) (omega arith, tt)

-- A number's digits, of which there is one at least.
digits-IsDigit : (fuel n : ℕ) → Fits fuel n → All IsDigit (codes (digits fuel n))
unfolding digits
digits-IsDigit zero n h = absurd h
digits-IsDigit (suc fuel) n h = elim (Bool-cases (ltb n 10)) [
  | inl e ↦ rw e (digit-IsDigit n (ground (arith, e)))
  | inr e ↦
      rw (e, codes-append (digits fuel (n / 10)) (digit (n % 10)))
        (All-append IsDigit (codes (digits fuel (n / 10))) (codes (digit (n % 10)))
          (digits-IsDigit fuel (n / 10) (more fuel n h e)) (digit-IsDigit (n % 10) (omega arith)))
]

digits-cons :
    (fuel n : ℕ) → Fits fuel n → (c : ℕ) × (cs : List ℕ) × (codes (digits fuel n) ≡ c ∷ cs)
unfolding digits
digits-cons zero n h = absurd h
digits-cons (suc fuel) n h = elim (Bool-cases (ltb n 10)) [
  | inl e ↦ (
    b'0' + n,
    [],
    ap codes (ap (λ b. if b then digit n else append (digits fuel (n / 10)) (digit (n % 10))) e)
        ∙ codes-digit n (ground (arith, e)),
  )
  | inr e ↦
      let (c, cs, p) = digits-cons fuel (n / 10) (more fuel n h e) in
      (
        c,
        cs ++ codes (digit (n % 10)),
        ap codes (ap (λ b. if b then digit n else append (digits fuel (n / 10)) (digit (n % 10))) e)
            ∙ codes-append (digits fuel (n / 10)) (digit (n % 10))
            ∙ ap (λ xs. xs ++ codes (digit (n % 10))) p,
      )
]

small : (n : ℕ) → n ≤ half → Fits 20 n
small n h = Fits-pow 19 n (omega arith)

read_decimal : (n : ℕ) → n ≤ half → read_digits 0 (codes (decimal n)) ≡ some n
unfolding decimal
read_decimal n h =
    ap (read_digits 0) (sym (append-nil (codes (digits 20 n))))
    ∙ read_digits-digits 20 n [] (small n h)
    ∙ end_lem n
  where
    end_lem : (n : ℕ) → read_digits n [] ≡ some n
    end_lem n = unfold read_digits in refl

-- Reading what starts with a digit.
parse_digit :
    (c : ℕ) (cs : List ℕ) (n : ℕ)
    → IsDigit c
    → read_digits 0 (c ∷ cs) ≡ some n
    → n < half
    → parse_codes (c ∷ cs) ≡ some n
parse_digit c cs n d r h =
    ap
      (λ b.
        if b
        then negated (in_range (some_digits cs) half)
        else if c == b'+'
        then in_range (some_digits cs) (half - 1)
        else in_range (read_digits 0 (c ∷ cs)) (half - 1))
      no_minus
    ∙ ap
        (λ b.
          if b
          then in_range (some_digits cs) (half - 1)
          else in_range (read_digits 0 (c ∷ cs)) (half - 1))
        no_plus
    ∙ ap (λ o. in_range o (half - 1)) r
    ∙ ground (arith, h)
  where
    no_minus : (c == b'-') ≡ false
    no_minus = ground (arith, d)

    no_plus : (c == b'+') ≡ false
    no_plus = ground (arith, d)

parse_minus :
    (c : ℕ) (cs : List ℕ) (n : ℕ)
    → read_digits 0 (c ∷ cs) ≡ some n
    → n ≤ half
    → parse_codes (b'-' ∷ c ∷ cs) ≡ some ((word - n) % word)
parse_minus c cs n r h = ap (λ o. negated (in_range o half)) r ∙ ap negated (fits n h)
  where
    fits : (n : ℕ) → n ≤ half → in_range (some n) half ≡ some n
    fits n h = ground arith

parse_decimal : (n : ℕ) → n < half → parse_codes (codes (decimal n)) ≡ some n
parse_decimal n h =
    let f = small n (omega arith) in
    let (c, cs, p) = digits-cons 20 n f in
    let q : codes (decimal n) ≡ c ∷ cs = unfold decimal in p in
    let d : All IsDigit (c ∷ cs) = subst (All IsDigit) p (digits-IsDigit 20 n f) in
    ap parse_codes q
    ∙ parse_digit c cs n d.0 (ap (read_digits 0) (sym q) ∙ read_decimal n (omega arith)) h

parse_negative :
    (n : ℕ) → n ≤ half → parse_codes (codes (append "-" (decimal n))) ≡ some ((word - n) % word)
parse_negative n h =
    let (c, cs, p) = digits-cons 20 n (small n h) in
    let q : codes (decimal n) ≡ c ∷ cs = unfold decimal in p in
    ap parse_codes (codes-append "-" (decimal n) ∙ ap (λ xs. b'-' ∷ xs) q)
    ∙ parse_minus c cs n (ap (read_digits 0) (sym q) ∙ read_decimal n h) h

-- A 64-bit integer is read back from its text.
pub parse_int-format_int : (w : ℕ) → w < word → parse_int (format_int w) ≡ some w
unfolding parse_int format_int
parse_int-format_int w h = elim (Bool-cases (slt w 0)) [
  | inl e ↦
      rw e (parse_negative (word - w) (ground (arith, e)) ∙ ap some (back (ground (arith, e))))
  | inr e ↦ rw e (parse_decimal w (ground (arith, e)))
]
  where
    back : 0 < w → (word - (word - w)) % word ≡ w
    back p = omega arith

visible : (c : ℕ) → IsDigit c → IsVisible c
visible c d = omega arith

-- A formatted integer has no spaces.
pub trim_space-format_int : (w : ℕ) → w < word → trim_space (format_int w) ≡ format_int w
unfolding format_int
trim_space-format_int w h = elim (Bool-cases (slt w 0)) [
  | inl e ↦ rw e (
      trim_space_visible (append "-" (decimal (word - w))) (
        rw (codes-append "-" (decimal (word - w)))
          (omega arith, seen (word - w) (ground (arith, e)))))
  | inr e ↦ rw e (trim_space_visible (decimal w) (seen w (ground (arith, e))))
]
  where
    seen : (n : ℕ) → n ≤ half → All IsVisible (codes (decimal n))
    seen n k =
        unfold decimal in
        All-map IsDigit IsVisible (codes (digits 20 n)) visible (digits-IsDigit 20 n (small n k))

in_range-le : (o : Option ℕ) (l w : ℕ) → in_range o l ≡ some w → w ≤ l
in_range-le none l w h = cc
in_range-le (some n) l w h = ground (arith, h)

negated-lt : (o : Option ℕ) (w : ℕ) → negated o ≡ some w → w < word
negated-lt none w h = cc
negated-lt (some n) w h = let e : (word - n) % word ≡ w = cc in omega arith

parse_codes-lt : (cs : List ℕ) (w : ℕ) → parse_codes cs ≡ some w → w < word
parse_codes-lt [] w h = cc
parse_codes-lt (c ∷ cs) w h = elim (Bool-cases (c == b'-')) [
  | inl e ↦ negated-lt (in_range (some_digits cs) half) w (rw e at h)
  | inr e ↦ elim (Bool-cases (c == b'+')) [
    | inl p ↦ omega (arith, in_range-le (some_digits cs) (half - 1) w (rw (e, p) at h))
    | inr p ↦ omega (arith, in_range-le (some_digits (c ∷ cs)) (half - 1) w (rw (e, p) at h))
  ]
]

pub parse_int-lt-word : (s : String) (w : ℕ) → parse_int s ≡ some w → w < word
unfolding parse_int
parse_int-lt-word s w h = parse_codes-lt (codes s) w h
