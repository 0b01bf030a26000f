-- ===== src/Store/Outbox/Queue.antt =====
-- internal/store/tx/outbox.go: which row a claim takes.
use simiclaw.Base.{
  ℕ, ◌≡◌, refl, sym, ap, ◌∙◌, String, Bool, true, false, Option, none, some, List, [], ◌∷◌,
  if◌then◌else◌, arith, inl, inr, Option-cases, All, some-path,
}
use mathlib.Core.Path.{subst}
use simiclaw.Model.{sending}
use simiclaw.Model.Run.{ClaimedOutbox}
use simiclaw.Store.Tables.{Db, OutboxRow}
use simiclaw.Store.Sql.{update_where, least_where, better}
use simiclaw.Store.Outbox.{
  is_due, sooner, locked, claimed_outbox, claim_due, claim_runtime_outbox, mirror, update_outbox,
}

module _ {A : Type 0} (test : A → Bool) (le : A → A → Bool) where
  pub least_where-holds :
      (P : A → Type 0) (xs : List A) (x : A)
      → All P xs
      → least_where test le xs ≡ some x
      → P x × (test x ≡ true)
  unfolding least_where
  least_where-holds P [] x hs h = cc
  least_where-holds P (y ∷ ys) x hs h =
      pick (λ z. least_where-holds P ys z hs.1) (test y) (least_where test le ys) refl refl h
    where
      chosen : (z : A) → P z × (test z ≡ true) → some z ≡ some x → P x × (test x ≡ true)
      chosen z h e = subst (λ w. P w × (test w ≡ true)) (some-path z x e) h

      pick :
          ((z : A) → least_where test le ys ≡ some z → P z × (test z ≡ true))
          → (b : Bool) (o : Option A) → test y ≡ b
          → least_where test le ys ≡ o
          → (if b then some (better le y o) else o) ≡ some x
          → P x × (test x ≡ true)
      pick rest false o p q r = rest x (q ∙ r)
      pick rest true none p q r = chosen y (hs.0, p) r
      pick rest true (some z) p q r = either (le y z) r
        where
          either : (b : Bool) → some (if b then y else z) ≡ some x → P x × (test x ≡ true)
          either true e = chosen y (hs.0, p) e
          either false e = chosen z (rest z q) e

  -- A row that passes the test is enough for a least one.
  pub least_where-some :
      (xs : List A) → least_where test le xs ≡ none → All (λ x. test x ≡ false) xs
  unfolding least_where
  least_where-some [] h = tt
  least_where-some (x ∷ xs) h = (ground (arith, h), least_where-some xs (ground (arith, h)))

module _ {A : Type 0} (P : A → Type 0) where
  pub All-update_where :
      (test : A → Bool) (f : A → A) (xs : List A)
      → ((x : A) → test x ≡ true → P x → P (f x))
      → All P xs
      → All P (update_where test f xs)
  unfolding update_where
  All-update_where test f [] h hs = tt
  All-update_where test f (x ∷ xs) h hs = (head (test x) refl, All-update_where test f xs h hs.1)
    where
      head : (b : Bool) → test x ≡ b → P (if b then f x else x)
      head true p = h x p hs.0
      head false p = hs.0

  pub All-update_where_sets :
      (test : A → Bool) (f : A → A) (xs : List A)
      → ((x : A) → test x ≡ true → P (f x))
      → ((x : A) → test x ≡ false → P x)
      → All P (update_where test f xs)
  unfolding update_where
  All-update_where_sets test f [] h k = tt
  All-update_where_sets test f (x ∷ xs) h k =
      (head (test x) refl, All-update_where_sets test f xs h k)
    where
      head : (b : Bool) → test x ≡ b → P (if b then f x else x)
      head true p = h x p
      head false p = k x p

-- The claim by the row it takes.
pub claim_runtime_outbox-found :
    (owner : String) (now : ℕ) (db : Db) (o : Option OutboxRow)
    → least_where (is_due now) sooner db.outbox ≡ o
    → claim_runtime_outbox owner now db ≡ claim_due owner now o db
unfolding claim_runtime_outbox
claim_runtime_outbox-found owner now db o h = ap (λ o. claim_due owner now o db) h

-- What holds of every row of the outbox holds of the row that was claimed, which was due.
pub record Taken (P : OutboxRow → Type 0) (owner : String) (now : ℕ) (db db' : Db)
    (m : ClaimedOutbox) : Type 0 where
  pub row : OutboxRow
  pub holds : P row
  pub due : is_due now row ≡ true
  pub message : m ≡ claimed_outbox row
  pub after :
      db' ≡ mirror row.event_id sending now (update_outbox row.outbox_id (locked owner now) db)

pub claim_runtime_outbox-Taken :
    (P : OutboxRow → Type 0) (owner : String) (now : ℕ) (db db' : Db) (m : ClaimedOutbox)
    → All P db.outbox
    → claim_runtime_outbox owner now db ≡ (some m, db')
    → Taken P owner now db db' m
unfolding claim_due
claim_runtime_outbox-Taken P owner now db db' m hs h =
    elim (Option-cases (least_where (is_due now) sooner db.outbox)) [
      | inl p ↦ absurd (no_row (sym (claim_runtime_outbox-found owner now db none p) ∙ h))
      | inr (o, p) ↦
          let q = row_of o (sym (claim_runtime_outbox-found owner now db (some o) p) ∙ h) in
          let (held, due) = least_where-holds (is_due now) sooner P db.outbox o hs p in
          record { row = o; holds = held; due = due; message = q.0; after = q.1 }
    ]
  where
    no_row : claim_due owner now none db ≡ (some m, db') → ⊥
    no_row p = cc

    row_of :
        (o : OutboxRow)
        → claim_due owner now (some o) db ≡ (some m, db')
        → (m ≡ claimed_outbox o)
          × (db' ≡ mirror o.event_id sending now (update_outbox o.outbox_id (locked owner now) db))
    row_of o p = (ground arith, ground arith)
