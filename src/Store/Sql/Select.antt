-- ===== src/Store/Sql/Select.antt =====
-- internal/store: what the reading statements find.
use simiclaw.Base.{
  true, All, ◌≡◌, refl, ◌∙◌, Bool, ◌&&◌, List, [], ◌∷◌, arith, Bool-cases, inl, inr,
}
use simiclaw.Store.Sql.{exists_where, insert_by, select_sorted}

module _ {A : Type 0} (q : A → Bool) (le : A → A → Bool) where
  exists_where-insert_by :
      (x : A) (xs : List A) → exists_where q (insert_by le x xs) ≡ exists_where q (x ∷ xs)
  unfolding exists_where insert_by
  exists_where-insert_by x [] = refl
  exists_where-insert_by x (y ∷ ys) = elim (Bool-cases (le x y)) [
    | inl h ↦ ground (arith, h)
    | inr h ↦ ground (arith, h, exists_where-insert_by x ys)
  ]

  pub exists_where-select_sorted :
      (test : A → Bool) (xs : List A)
      → exists_where q (select_sorted test le xs) ≡ exists_where (λ x. q x && test x) xs
  unfolding exists_where select_sorted
  exists_where-select_sorted test [] = refl
  exists_where-select_sorted test (x ∷ xs) = elim (Bool-cases (test x)) [
    | inl h ↦ rw h (
        exists_where-insert_by x (select_sorted test le xs)
        ∙ ground (arith, h, exists_where-select_sorted test xs))
    | inr h ↦ ground (arith, h, exists_where-select_sorted test xs)
  ]

module _ {A : Type 0} (P : A → Type 0) (le : A → A → Bool) where
  All-insert_by : (x : A) (xs : List A) → P x → All P xs → All P (insert_by le x xs)
  unfolding insert_by
  All-insert_by x [] p h = (p, tt)
  All-insert_by x (y ∷ ys) p (q, h) = elim (Bool-cases (le x y)) [
    | inl e ↦ rw e (p, (q, h))
    | inr e ↦ rw e (q, All-insert_by x ys p h)
  ]

  All-select_sorted : (test : A → Bool) (xs : List A) → All P xs → All P (select_sorted test le xs)
  unfolding select_sorted
  All-select_sorted test [] h = tt
  All-select_sorted test (x ∷ xs) (p, h) = elim (Bool-cases (test x)) [
    | inl e ↦ rw e (All-insert_by x (select_sorted test le xs) p (All-select_sorted test xs h))
    | inr e ↦ rw e (All-select_sorted test xs h)
  ]

module _ {A : Type 0} (test : A → Bool) (le : A → A → Bool) where
  insert_by-first : (x : A) (xs : List A) → All (λ y. le x y ≡ true) xs → insert_by le x xs ≡ x ∷ xs
  unfolding insert_by
  insert_by-first x [] h = refl
  insert_by-first x (y ∷ ys) (e, h) = rw e refl

  -- A row that comes before all others is the first one that is read.
  pub select_sorted-first :
      (x : A) (xs : List A)
      → test x ≡ true
      → All (λ y. le x y ≡ true) xs
      → select_sorted test le (x ∷ xs) ≡ x ∷ select_sorted test le xs
  unfolding select_sorted
  select_sorted-first x xs t h = rw t (
      insert_by-first x (select_sorted test le xs)
        (All-select_sorted (λ y. le x y ≡ true) le test xs h))
