-- ===== src/Base/Time.antt =====
-- Times, and the texts that the tables hold for them: `timeText` of internal/store/tx/record_codec.go
-- writes a UTC time in Go's RFC3339Nano layout, and SQLite compares such columns byte by byte.
-- A time is the number of nanoseconds since the zero value of `time.Time` (the first of January of
-- the year 1), up to the year 9999. The first 19 characters of the text have a fixed width and are
-- ordered as the whole seconds are, so they are kept as that number; the fraction is kept as text.
use simiclaw.Base.Tests.{ltb, ◌==◌, if◌then◌else◌, Bool-cases}
use Prim.Native.Nat.{ℕ, zero, suc, ◌+◌, ◌*◌, ◌/◌, ◌%◌, ◌^◌, ◌≤◌, ◌<◌}
use mathlib.Core.Path.{◌≡◌, refl}
use mathlib.Core.Bool.{Bool, true, false}
use mathlib.Core.Logic.{inl, inr}
use mathlib.Core.List.{List, [], ◌∷◌}
use native.Mathlib.Omega.{arith}

-- Nanoseconds in a second.
abbrev pub second : ℕ
second = 1000000000

-- The digits of a fraction of `k` digits without its zeros at the end, and the `Z` of UTC.
digits_z : ℕ → ℕ → List ℕ
digits_z zero n = b'Z' ∷ []
digits_z (suc k) n = if n == 0 then b'Z' ∷ [] else (b'0' + n / 10 ^ k) ∷ digits_z k (n % 10 ^ k)

unfoldable pub fraction : ℕ → List ℕ
unfolding digits_z
fraction n = if n == 0 then b'Z' ∷ [] else b'.' ∷ digits_z 9 n

-- memcmp, and the shorter text first.
unfoldable pub bytes_le : List ℕ → List ℕ → Bool
bytes_le [] ys = true
bytes_le (x ∷ xs) [] = false
bytes_le (x ∷ xs) (y ∷ ys) = if x == y then bytes_le xs ys else ltb x y

-- `text(t) <= text(u)` as SQLite decides it.
unfoldable pub text_le : ℕ → ℕ → Bool
text_le t u =
    if t / second == u / second
    then bytes_le (fraction (t % second)) (fraction (u % second))
    else ltb (t / second) (u / second)

-- A column that is empty or holds a time.
pub data Stamp : Type 0 where
  blank : Stamp
  at : ℕ → Stamp

-- The empty text comes before every other.
unfoldable pub stamp_le : Stamp → Stamp → Bool
stamp_le blank t = true
stamp_le (at t) blank = false
stamp_le (at t) (at u) = text_le t u

-- mustParseTime: an empty column reads as the zero time.
abbrev pub parse_time : Stamp → ℕ
parse_time blank = 0
parse_time (at t) = t

abbrev pub is_blank : Stamp → Bool
is_blank blank = true
is_blank (at t) = false

-- SQL's COALESCE(NULLIF(s, ''), t)
abbrev pub or_stamp : Stamp → Stamp → Stamp
or_stamp blank t = t
or_stamp (at s) t = at s

bytes_le_refl : (xs : List ℕ) → bytes_le xs xs ≡ true
unfolding bytes_le
bytes_le_refl [] = refl
bytes_le_refl (x ∷ xs) = ground (arith, bytes_le_refl xs)

pub text_le_refl : (t : ℕ) → text_le t t ≡ true
unfolding text_le
text_le_refl t = ground (arith, bytes_le_refl (fraction (t % second)))

pub text_le_of_second : (t u : ℕ) → t / second < u / second → text_le t u ≡ true
unfolding text_le
text_le_of_second t u h = ground arith

-- The order of the texts is that of the times, up to a second.
pub text_le_sound : (t u : ℕ) → text_le t u ≡ true → t < u + second
unfolding text_le
text_le_sound t u h = elim (Bool-cases (t / second == u / second)) [
  | inl e ↦ ground arith
  | inr e ↦ ground arith
]

pub text_le_complete : (t u : ℕ) → t + second ≤ u → text_le t u ≡ true
text_le_complete t u h = text_le_of_second t u (omega arith)

whole_after_fraction : (n : ℕ) → 0 < n → bytes_le (fraction 0) (fraction n) ≡ false
unfolding fraction bytes_le
whole_after_fraction n h = elim (Bool-cases (n == 0)) [
  | inl e ↦ absurd (ground arith)
  | inr e ↦ rw e refl
]

-- A whole second is not before its own later fractions: 'Z' comes after '.'.
pub text_le_whole_second :
    (s n : ℕ) → 0 < n → n < second → text_le (s * second) (s * second + n) ≡ false
unfolding text_le
text_le_whole_second s n p q =
    let a : s * second / second ≡ s = omega arith in
    let b : (s * second + n) / second ≡ s = omega arith in
    let c : s * second % second ≡ 0 = omega arith in
    let d : (s * second + n) % second ≡ n = omega arith in
    rw (a, b, c, d) (ground (arith, whole_after_fraction n p))
