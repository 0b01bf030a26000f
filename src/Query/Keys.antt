-- ===== src/Query/Keys.antt =====
-- The keys by which internal/store/queries lists rows: a time column and an id column, both texts,
-- which SQLite compares byte by byte. A time's first 19 characters are one symbol, as in Base/Time,
-- and an id is its code points, which UTF-8 keeps in order.
use Prim.Native.Char.{code}
use text.Mathlib.TextEquality.{codes_equal}
use simiclaw.Base.{
  ℕ, ◌/◌, ◌%◌, ◌≡◌, ◌≢◌, refl, ap, inl, inr, String, Bool, true, false, ◌&&◌, ◌||◌, List, [], ◌∷◌,
  ltb, ◌==◌, if◌then◌else◌, arith, Bool-cases,
}
use simiclaw.Base.Text.{codes}
use simiclaw.Base.Time.{Stamp, blank, at, second, fraction}

-- `a < b` and `a = b` on texts.
pub bytes_lt : List ℕ → List ℕ → Bool
bytes_lt [] [] = false
bytes_lt [] (y ∷ ys) = true
bytes_lt (x ∷ xs) [] = false
bytes_lt (x ∷ xs) (y ∷ ys) = if x == y then bytes_lt xs ys else ltb x y

pub bytes_eq : List ℕ → List ℕ → Bool
bytes_eq [] [] = true
bytes_eq [] (y ∷ ys) = false
bytes_eq (x ∷ xs) [] = false
bytes_eq (x ∷ xs) (y ∷ ys) = if x == y then bytes_eq xs ys else false

abbrev pub stamp_bytes : Stamp → List ℕ
stamp_bytes blank = []
stamp_bytes (at t) = (t / second) ∷ fraction (t % second)

-- A row's time column and its id column.
abbrev pub Key : Type 0
Key = List ℕ × List ℕ

abbrev pub key_of : Stamp → String → Key
key_of time id = (stamp_bytes time, codes id)

-- time < ? OR (time = ? AND id < ?)
unfoldable pub key_lt : Key → Key → Bool
unfolding bytes_lt bytes_eq
key_lt (s, m) (t, n) = bytes_lt s t || (bytes_eq s t && bytes_lt m n)

bytes_lt_irrefl : (xs : List ℕ) → bytes_lt xs xs ≡ false
unfolding bytes_lt
bytes_lt_irrefl [] = refl
bytes_lt_irrefl (x ∷ xs) = ground (arith, bytes_lt_irrefl xs)

bytes_lt_trans :
    (xs ys zs : List ℕ) → bytes_lt xs ys ≡ true → bytes_lt ys zs ≡ true → bytes_lt xs zs ≡ true
unfolding bytes_lt
bytes_lt_trans [] [] zs p q = cc
bytes_lt_trans [] (y ∷ ys) [] p q = cc
bytes_lt_trans [] (y ∷ ys) (z ∷ zs) p q = refl
bytes_lt_trans (x ∷ xs) [] zs p q = cc
bytes_lt_trans (x ∷ xs) (y ∷ ys) [] p q = cc
bytes_lt_trans (x ∷ xs) (y ∷ ys) (z ∷ zs) p q = ground (arith, bytes_lt_trans xs ys zs)

pub bytes_eq_path : (xs ys : List ℕ) → bytes_eq xs ys ≡ true → xs ≡ ys
unfolding bytes_eq
bytes_eq_path [] [] h = refl
bytes_eq_path [] (y ∷ ys) h = cc
bytes_eq_path (x ∷ xs) [] h = cc
bytes_eq_path (x ∷ xs) (y ∷ ys) h = ground (arith, bytes_eq_path xs ys)

bytes_eq_self : (xs : List ℕ) → bytes_eq xs xs ≡ true
unfolding bytes_eq
bytes_eq_self [] = refl
bytes_eq_self (x ∷ xs) = ground (arith, bytes_eq_self xs)

bytes_total :
    (xs ys : List ℕ) → bytes_lt xs ys ≡ false → bytes_lt ys xs ≡ false → bytes_eq xs ys ≡ true
unfolding bytes_lt bytes_eq
bytes_total [] [] p q = refl
bytes_total [] (y ∷ ys) p q = cc
bytes_total (x ∷ xs) [] p q = cc
bytes_total (x ∷ xs) (y ∷ ys) p q = ground (arith, bytes_total xs ys)

pub key_lt_irrefl : (k : Key) → key_lt k k ≡ false
unfolding key_lt
key_lt_irrefl (s, m) = ground (arith, bytes_lt_irrefl s, bytes_lt_irrefl m)

-- Equal time columns may be exchanged.
lt_at_equal :
    (s t u : List ℕ)
    → bytes_eq s t ≡ true
    → (bytes_lt s u ≡ bytes_lt t u) × (bytes_lt u s ≡ bytes_lt u t) × (bytes_eq s u ≡ bytes_eq t u)
lt_at_equal s t u h =
    let e = bytes_eq_path s t h in
    (ap (λ s. bytes_lt s u) e, ap (λ s. bytes_lt u s) e, ap (λ s. bytes_eq s u) e)

pub key_lt_trans : (k l j : Key) → key_lt k l ≡ true → key_lt l j ≡ true → key_lt k j ≡ true
unfolding key_lt
key_lt_trans (s, m) (t, n) (u, o) p q =
    ground (arith, lt_at_equal s t u, lt_at_equal t u s, bytes_lt_trans s t u, bytes_lt_trans m n o)

pub key_lt_total : (k l : Key) → bytes_eq k.1 l.1 ≡ false → key_lt k l ≡ false → key_lt l k ≡ true
unfolding key_lt
key_lt_total (s, m) (t, n) d p =
    ground (arith, bytes_total s t, bytes_total m n, bytes_eq_self s, lt_at_equal s t s)

pub codes-inj : (s t : String) → codes s ≡ codes t → s ≡ t
codes-inj String.[] String.[] h = refl
codes-inj String.[] (String.◌∷◌ d t) h = cc
codes-inj (String.◌∷◌ c s) String.[] h = cc
codes-inj (String.◌∷◌ c s) (String.◌∷◌ d t) h =
    let e : code c ≡ code d = cc in
    let r = codes-inj s t (cc) in let f : c ≡ d = codes_equal c d (ground (arith, e)) in cc

pub codes-ne : (s t : String) → s ≢ t → bytes_eq (codes s) (codes t) ≡ false
codes-ne s t d = elim (Bool-cases (bytes_eq (codes s) (codes t))) [
  | inl e ↦ absurd (d (codes-inj s t (bytes_eq_path (codes s) (codes t) e)))
  | inr e ↦ e
]
