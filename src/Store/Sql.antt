-- ===== src/Store/Sql.antt =====
-- The statements that the transactions are made of, and `WithWriterTx` of internal/store/db.go.
pub mod Select
use Prim.Native.String.{compare}
use text.Mathlib.Text.{is_le}
use simiclaw.Base.{
  ℕ, ◌-◌, ◌*◌, ◌≡◌, refl, ap, String, Bool, true, false, Option, none, some, List, [], ◌∷◌,
  if◌then◌else◌,
}
use simiclaw.Base.Result.{Result, ok, err}
use simiclaw.Base.Decimal.{decimal}
use simiclaw.Base.Time.{second}
use Prim.Native.String.{◌++◌ as append}
use simiclaw.Store.Tables.{Db}

pub data DbError : Type 0 where
  no_mutation : DbError
  idempotency_conflict : DbError
  constraint : DbError

-- The statements of one transaction, on the tables so far.
abbrev pub Tx : Type 0 → Type 0
Tx A = Db → Result DbError (A × Db)

infixl 5 ◌>>=◌ ◌>>◌
abbrev pub ◌>>=◌ : {A B : Type 0} → Tx A → (A → Tx B) → Tx B
◌>>=◌ m f db = elim (m db) [ ok (a, db') ↦ f a db' | err e ↦ err e ]

abbrev pub ◌>>◌ : {B : Type 0} → Tx (Unit {0}) → Tx B → Tx B
m >> k = m >>= λ _. k

abbrev pub return : {A : Type 0} → A → Tx A
return a db = ok (a, db)

abbrev pub fail : {A : Type 0} → DbError → Tx A
fail e db = err e

abbrev pub read : {A : Type 0} → (Db → A) → Tx A
read f db = ok (f db, db)

abbrev pub modify : (Db → Db) → Tx (Unit {0})
modify f db = ok (tt, f db)

-- What the caller has after `WithWriterTx`: an error rolls the transaction back.
abbrev pub with_writer_tx : {A : Type 0} → Tx A → Db → Result DbError A × Db
with_writer_tx m db = elim (m db) [ ok (a, db') ↦ (ok a, db') | err e ↦ (err e, db) ]

-- `<prefix>%d` of a time's UnixNano, for times from 1970 on.
abbrev pub epoch : ℕ
epoch = 62135596800 * second

abbrev pub id_at : String → ℕ → String
id_at prefix now = append prefix (decimal (now - epoch))

module _ {A : Type 0} where
  -- UPDATE … WHERE
  unfoldable pub update_where : (A → Bool) → (A → A) → List A → List A
  update_where test f [] = []
  update_where test f (x ∷ xs) = (if test x then f x else x) ∷ update_where test f xs

  -- The first row that a SELECT of one row finds.
  unfoldable pub find_where : (A → Bool) → List A → Option A
  find_where test [] = none
  find_where test (x ∷ xs) = if test x then some x else find_where test xs

  abbrev pub is_some : Option A → Bool
  is_some none = false
  is_some (some a) = true

  -- EXISTS (SELECT 1 … WHERE)
  unfoldable pub exists_where : (A → Bool) → List A → Bool
  exists_where test [] = false
  exists_where test (x ∷ xs) = if test x then true else exists_where test xs

  abbrev pub better : (A → A → Bool) → A → Option A → A
  better le x none = x
  better le x (some y) = if le x y then x else y

  -- SELECT … WHERE … ORDER BY … LIMIT 1, with the order as a test.
  unfoldable pub least_where : (A → Bool) → (A → A → Bool) → List A → Option A
  least_where test le [] = none
  least_where test le (x ∷ xs) =
      let rest = least_where test le xs in if test x then some (better le x rest) else rest

  insert_by : (A → A → Bool) → A → List A → List A
  insert_by le x [] = x ∷ []
  insert_by le x (y ∷ ys) = if le x y then x ∷ y ∷ ys else y ∷ insert_by le x ys

  -- SELECT … WHERE … ORDER BY …
  unfoldable pub select_sorted : (A → Bool) → (A → A → Bool) → List A → List A
  unfolding insert_by
  select_sorted test le [] = []
  select_sorted test le (x ∷ xs) =
      if test x then insert_by le x (select_sorted test le xs) else select_sorted test le xs

-- The order of texts in SQLite.
abbrev pub text_before : String → String → Bool
text_before s t = is_le (compare s t)

-- A chain of two steps that succeeds went through both.
pub >>=-eq-ok :
    {A B : Type 0} (m : Tx A) (f : A → Tx B) (db : Db) (b : B) (db'' : Db)
    → (m >>= f) db ≡ ok (b, db'')
    → (a : A) × (db' : Db) × (m db ≡ ok (a, db')) × (f a db' ≡ ok (b, db''))
>>=-eq-ok {A} {B} m f db b db'' h = invert (m db) refl h
  where
    invert :
        (r : Result DbError (A × Db))
        → m db ≡ r
        → Path
            (Result DbError (B × Db))
            (elim r [ ok (a, db') ↦ f a db' | err e ↦ err e ])
            (ok (b, db''))
        → (a : A) × (db' : Db) × (m db ≡ ok (a, db')) × (f a db' ≡ ok (b, db''))
    invert (ok (a, db')) e p = (a, db', e, p)
    invert (err x) e p = absurd (cc)

abbrev after : {A B : Type 0} → (A → Tx B) → Result DbError (A × Db) → Result DbError (B × Db)
after f r = elim r [ ok (a, db') ↦ f a db' | err e ↦ err e ]

pub >>=-ok :
    {A B : Type 0} (m : Tx A) (f : A → Tx B) (db : Db) (a : A) (db' : Db)
    → m db ≡ ok (a, db')
    → (m >>= f) db ≡ f a db'
>>=-ok m f db a db' h = ap (after f) h

pub >>=-err :
    {A B : Type 0} (m : Tx A) (f : A → Tx B) (db : Db) (e : DbError)
    → m db ≡ err e
    → (m >>= f) db ≡ err e
>>=-err m f db e h = ap (after f) h
