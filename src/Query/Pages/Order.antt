-- ===== src/Query/Pages/Order.antt =====
-- The listings' order: rows by falling keys, and the rows after an anchor.
use simiclaw.Base.{
  ℕ, zero, suc, ◌≤◌, ◌≡◌, String, refl, ap, ◌∙◌, inl, inr, Bool, true, false, ◌&&◌, ◌||◌, Option,
  none, some, List, [], ◌∷◌, length, keep_if, drop, if◌then◌else◌, arith, Bool-cases, All, NoTwo,
  All-map, ◌==◌,
}
use simiclaw.Base.Text.{codes}
use simiclaw.Base.Time.{at}
use simiclaw.Query.{Anchor, take, insert_desc, sort_desc, after_anchor, last_of, is_blank_text}
use simiclaw.Query.Keys.{
  Key, key_of, key_lt, bytes_eq, codes-ne, key_lt_irrefl, key_lt_trans, key_lt_total,
}

module _ {A : Type 0} where
  pub keep_if_and :
      (p q : A → Bool) (xs : List A) → keep_if (λ x. p x && q x) xs ≡ keep_if q (keep_if p xs)
  keep_if_and p q [] = refl
  keep_if_and p q (x ∷ xs) = ground (arith, keep_if_and p q xs)

  pub keep_if_of_implied :
      (p q : A → Bool) (xs : List A)
      → ((x : A) → q x ≡ true → p x ≡ true)
      → keep_if q (keep_if p xs) ≡ keep_if q xs
  keep_if_of_implied p q [] h = refl
  keep_if_of_implied p q (x ∷ xs) h = ground (arith, h x, keep_if_of_implied p q xs h)

  pub keep_if-true : (p : A → Bool) (xs : List A) → All (λ x. p x ≡ true) xs → keep_if p xs ≡ xs
  keep_if-true p [] h = refl
  keep_if-true p (x ∷ xs) h = ground (arith, keep_if-true p xs h.1)

  pub All-true : (xs : List A) → All (λ x. true ≡ true) xs
  All-true [] = tt
  All-true (x ∷ xs) = (refl, All-true xs)

  pub All-kept {κ} : (P : A → Type κ) (p : A → Bool) (xs : List A) → All P xs → All P (keep_if p xs)
  All-kept P p [] h = tt
  All-kept P p (x ∷ xs) h = elim (Bool-cases (p x)) [
    | inl e ↦ rw e (h.0, All-kept P p xs h.1)
    | inr e ↦ rw e (All-kept P p xs h.1)
  ]

  pub All-last {κ} :
      (P : A → Type κ) (x : A) (n : ℕ) (xs : List A) → P x → All P xs → P (last_of x (take n xs))
  All-last P x zero xs p h = p
  All-last P x (suc n) [] p h = p
  All-last P x (suc n) (y ∷ ys) p h = All-last P y n ys h.0 h.1

  module _ (key : A → Key) where
    -- A row's key is above those of the rows that come after it.
    abbrev pub Ordered : List A → Type 0
    Ordered [] = Unit
    Ordered (x ∷ xs) = All (λ y. key_lt (key y) (key x) ≡ true) xs × Ordered xs

    -- No two rows have one id column.
    abbrev pub DistinctIds : List A → Type 0
    DistinctIds [] = Unit
    DistinctIds (x ∷ xs) = All (λ y. bytes_eq (key x).1 (key y).1 ≡ false) xs × DistinctIds xs

    pub NoTwo-DistinctIds :
        (id : A → String) (xs : List A)
        → ((x : A) → (key x).1 ≡ codes (id x))
        → NoTwo id xs
        → DistinctIds xs
    NoTwo-DistinctIds id [] same d = tt
    NoTwo-DistinctIds id (x ∷ xs) same d = (
      All-map _ _ xs (λ y ne. rw (same x, same y) (codes-ne (id x) (id y) ne)) d.0,
      NoTwo-DistinctIds id xs same d.1,
    )

    All-insert_desc {κ} :
        (P : A → Type κ) (x : A) (xs : List A) → P x → All P xs → All P (insert_desc key x xs)
    All-insert_desc P x [] p h = (p, tt)
    All-insert_desc P x (y ∷ ys) p h = elim (Bool-cases (key_lt (key x) (key y))) [
      | inl e ↦ rw e (h.0, All-insert_desc P x ys p h.1)
      | inr e ↦ rw e (p, h)
    ]

    pub All-sort_desc {κ} : (P : A → Type κ) (xs : List A) → All P xs → All P (sort_desc key xs)
    unfolding sort_desc
    All-sort_desc P [] h = tt
    All-sort_desc P (x ∷ xs) h = All-insert_desc P x (sort_desc key xs) h.0 (All-sort_desc P xs h.1)

    Ordered-insert_desc :
        (x : A) (xs : List A)
        → All (λ y. bytes_eq (key x).1 (key y).1 ≡ false) xs
        → Ordered xs
        → Ordered (insert_desc key x xs)
    Ordered-insert_desc x [] d o = (tt, tt)
    Ordered-insert_desc x (y ∷ ys) d o = elim (Bool-cases (key_lt (key x) (key y))) [
      | inl e ↦ rw e (
        All-insert_desc (λ z. key_lt (key z) (key y) ≡ true) x ys e o.0,
        Ordered-insert_desc x ys d.1 o.1,
      )
      | inr e ↦
          let below = key_lt_total (key x) (key y) d.0 e in
          rw e
            ((below, All-map _ _ ys (λ z h. key_lt_trans (key z) (key y) (key x) h below) o.0), o)
    ]

    pub Ordered-sort_desc : (xs : List A) → DistinctIds xs → Ordered (sort_desc key xs)
    unfolding sort_desc
    Ordered-sort_desc [] d = tt
    Ordered-sort_desc (x ∷ xs) d =
        Ordered-insert_desc x (sort_desc key xs) (All-sort_desc _ xs d.0) (Ordered-sort_desc xs d.1)

    length-insert_desc : (x : A) (xs : List A) → length (insert_desc key x xs) ≡ suc (length xs)
    length-insert_desc x [] = refl
    length-insert_desc x (y ∷ ys) = ground (arith, length-insert_desc x ys)

    pub length-sort_desc : (xs : List A) → length (sort_desc key xs) ≡ length xs
    unfolding sort_desc
    length-sort_desc [] = refl
    length-sort_desc (x ∷ xs) =
        length-insert_desc x (sort_desc key xs) ∙ ap suc (length-sort_desc xs)

    pub Ordered-drop : (n : ℕ) (xs : List A) → Ordered xs → Ordered (drop n xs)
    Ordered-drop zero xs o = o
    Ordered-drop (suc n) [] o = o
    Ordered-drop (suc n) (x ∷ xs) o = Ordered-drop n xs o.1

    pub keep_if-Ordered : (p : A → Bool) (xs : List A) → Ordered xs → Ordered (keep_if p xs)
    keep_if-Ordered p [] o = tt
    keep_if-Ordered p (x ∷ xs) o = elim (Bool-cases (p x)) [
      | inl e ↦ rw e (All-kept _ p xs o.0, keep_if-Ordered p xs o.1)
      | inr e ↦ rw e (keep_if-Ordered p xs o.1)
    ]

    not_above : (k l : Key) → key_lt l k ≡ true → key_lt k l ≡ false
    not_above k l h = elim (Bool-cases (key_lt k l)) [
      | inl e ↦ absurd (ground (arith, key_lt_trans k l k, key_lt_irrefl k))
      | inr e ↦ e
    ]

    -- The rows below the last one of a beginning are the others.
    pub keep_if-last :
        (x : A) (n : ℕ) (xs : List A)
        → Ordered (x ∷ xs)
        → n ≤ length xs
        → keep_if (λ y. key_lt (key y) (key (last_of x (take n xs)))) (x ∷ xs) ≡ drop n xs
    keep_if-last x zero xs o h =
        ground (arith, key_lt_irrefl (key x), keep_if-true (λ y. key_lt (key y) (key x)) xs o.0)
    keep_if-last x (suc n) [] o h = absurd (omega arith)
    keep_if-last x (suc n) (y ∷ ys) o h =
        let b : A = last_of y (take n ys) in
        let low =
          not_above (key x) (key b)
            (All-last (λ z. key_lt (key z) (key x) ≡ true) y n ys o.0.0 o.0.1) in
        ap
          (λ c.
            if c
            then x ∷ keep_if (λ z. key_lt (key z) (key b)) (y ∷ ys)
            else keep_if (λ z. key_lt (key z) (key b)) (y ∷ ys))
          low
        ∙ keep_if-last y n ys o.1 (omega arith)

-- Below a key that comes after an anchor, all keys do.
pub after_anchor-below :
    (cursor : Option Anchor) (k l : Key)
    → after_anchor cursor l ≡ true
    → key_lt k l ≡ true
    → after_anchor cursor k ≡ true
after_anchor-below none k l p q = refl
after_anchor-below (some (time, id)) k l p q = elim (Bool-cases (time == 0 || is_blank_text id)) [
  | inl e ↦ rw e refl
  | inr e ↦ rw e (key_lt_trans k l (key_of (at time) id) q (rw e at p))
]
