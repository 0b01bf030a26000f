-- ===== src/Base/Int64.antt =====
-- Go's `int` and `time.Duration`: 64-bit words in two's complement, as numbers below 2 ^ 64.
use Prim.Native.Nat.{ℕ, ◌+◌, ◌-◌, ◌%◌, ◌^◌, ◌<◌}
use mathlib.Core.Path.{◌≡◌}
use mathlib.Core.Bool.{Bool}
use native.Mathlib.Omega.{arith}
use simiclaw.Base.Tests.{ltb, leb, if◌then◌else◌}

abbrev pub word : ℕ
word = 2 ^ 64

abbrev pub half : ℕ
half = 2 ^ 63

abbrev pub wrap : ℕ → ℕ
wrap n = n % word

-- The signed comparisons.
abbrev pub slt : ℕ → ℕ → Bool
slt a b = ltb (wrap (a + half)) (wrap (b + half))

abbrev pub sle : ℕ → ℕ → Bool
sle a b = leb (wrap (a + half)) (wrap (b + half))

-- time.Time.Add. A time before the year 1 is not represented.
abbrev pub add_duration : ℕ → ℕ → ℕ
add_duration t d = if slt d 0 then t - (word - d) else t + d

pub slt_nonneg : (a b : ℕ) → a < half → b < half → slt a b ≡ ltb a b
slt_nonneg a b p q = ground arith

pub sle_nonneg : (a b : ℕ) → a < half → b < half → sle a b ≡ leb a b
sle_nonneg a b p q = ground arith

pub add_duration_nonneg : (t d : ℕ) → d < half → add_duration t d ≡ t + d
add_duration_nonneg t d p = ground arith
