-- ===== src/Query/Pages.antt =====
-- internal/query: what the pages of a listing make together.
pub mod Order
use mathlib.Core.Path.{subst, fun_ext}
use simiclaw.Base.{
  ℕ, zero, suc, ◌+◌, ◌-◌, ◌≤◌, ◌<◌, ◌≡◌, ◌≢◌, refl, sym, ap, ◌∙◌, inl, inr, String, Bool, true,
  false, ◌&&◌, Option, none, some, List, [], ◌∷◌, ◌++◌, length, keep_if, drop, length-drop, leb,
  ltb, ◌==◌, if◌then◌else◌, arith, Bool-cases, All, All-keep_if, All-drop, length-keep_if,
}
use simiclaw.Base.Time.{at}
use simiclaw.Store.Tables.{Db, EventRow}
use simiclaw.Query.{
  Anchor, Page, EventFilter, take, sort_desc, after_anchor, is_blank_text, page_fetch_limit,
  normalize_list_limit, build_page, last_of, anchor_of_last, event_key, event_anchor, event_matches,
  list_event_records, list_events,
}
use simiclaw.Query.Keys.{Key, key_of, key_lt, key_lt_trans}
use simiclaw.Query.Pages.Order.{
  Ordered, Ordered-sort_desc, keep_if-Ordered, keep_if-last, keep_if_of_implied, keep_if_and,
  All-last, All-sort_desc, All-kept, after_anchor-below, Ordered-drop, keep_if-true, All-true,
  length-sort_desc, DistinctIds, NoTwo-DistinctIds,
}

module _ {A : Type 0} where
  take_all : (n : ℕ) (xs : List A) → length xs ≤ n → take n xs ≡ xs
  take_all zero [] h = refl
  take_all zero (x ∷ xs) h = absurd (omega arith)
  take_all (suc n) [] h = refl
  take_all (suc n) (x ∷ xs) h = ap (λ ys. x ∷ ys) (take_all n xs (omega arith))

  take-take : (n : ℕ) (xs : List A) → take n (take (suc n) xs) ≡ take n xs
  take-take zero xs = refl
  take-take (suc n) [] = refl
  take-take (suc n) (x ∷ xs) = ap (λ ys. x ∷ ys) (take-take n xs)

  length-take_long : (n : ℕ) (xs : List A) → n ≤ length xs → length (take n xs) ≡ n
  length-take_long zero xs h = refl
  length-take_long (suc n) [] h = absurd (omega arith)
  length-take_long (suc n) (x ∷ xs) h = ap suc (length-take_long n xs (omega arith))

  take-append-drop : (n : ℕ) (xs : List A) → take n xs ++ drop n xs ≡ xs
  take-append-drop zero xs = refl
  take-append-drop (suc n) [] = refl
  take-append-drop (suc n) (x ∷ xs) = ap (λ ys. x ∷ ys) (take-append-drop n xs)

  abbrev prefixed : List A → Option (List A) → Option (List A)
  prefixed xs none = none
  prefixed xs (some ys) = some (xs ++ ys)

  abbrev continued : Page A → (Anchor → Option (List A)) → Option (List A)
  continued p more = elim p.next [
    | none ↦ some p.items
    | some anchor ↦ prefixed p.items (more anchor)
  ]

  -- A reader that follows the cursors from page to page.
  unfoldable pub collect : (Option Anchor → Page A) → ℕ → Option Anchor → Option (List A)
  collect page zero cursor = none
  collect page (suc fuel) cursor =
      continued (page cursor) (λ anchor. collect page fuel (some anchor))

module _ {A : Type 0} (key : A → Key) (anchor : A → Anchor) (keep : A → Bool) (rows : List A)
    (m : ℕ) (page : Option Anchor → Page A)
    (page_lem : (c : Option Anchor)
      → page c
        ≡ build_page anchor
            (take
              (suc (suc m))
              (keep_if (λ a. keep a && after_anchor c (key a)) (sort_desc key rows)))
            (suc m)) where
  -- The row's anchor leads back to its key, and is not taken for none.
  abbrev pub Anchored : A → Type 0
  Anchored a =
      (key a ≡ key_of (at (anchor a).0) (anchor a).1)
      × ((anchor a).0 ≢ 0)
      × (is_blank_text (anchor a).1 ≡ false)

  kept : List A
  kept = keep_if keep (sort_desc key rows)

  page_at :
      (c : Option Anchor) (rest : List A)
      → keep_if (λ a. after_anchor c (key a)) kept ≡ rest
      → page c ≡ build_page anchor (take (suc (suc m)) rest) (suc m)
  unfolding kept
  page_at c rest e =
      page_lem c
      ∙ ap (λ xs. build_page anchor (take (suc (suc m)) xs) (suc m))
          (keep_if_and keep (λ a. after_anchor c (key a)) (sort_desc key rows) ∙ e)

  last_page :
      (rest : List A)
      → length rest ≤ suc m
      → build_page anchor (take (suc (suc m)) rest) (suc m) ≡ record { items = rest; next = none }
  unfolding build_page
  last_page rest h =
      ap (λ xs. build_page anchor xs (suc m)) (take_all (suc (suc m)) rest (omega arith))
      ∙ ground arith

  cut_page :
      (items : List A)
      → suc m < length items
      → build_page anchor items (suc m)
        ≡ record { items = take (suc m) items; next = anchor_of_last anchor (take (suc m) items) }
  unfolding build_page
  cut_page items h = ground arith

  full_page :
      (x : A) (rest : List A)
      → suc m ≤ length rest
      → build_page anchor (take (suc (suc m)) (x ∷ rest)) (suc m)
        ≡ record { items = x ∷ take m rest; next = some (anchor (last_of x (take m rest))) }
  full_page x rest h =
      let n : suc m < length (take (suc (suc m)) (x ∷ rest)) =
        omega (arith, length-take_long (suc (suc m)) (x ∷ rest) (omega arith)) in
      cut_page (take (suc (suc m)) (x ∷ rest)) n
      ∙ ap (λ xs. record { items = xs; next = anchor_of_last anchor xs })
          (take-take (suc m) (x ∷ rest))

  after_some : (b : A) (k : Key) → Anchored b → after_anchor (some (anchor b)) k ≡ key_lt k (key b)
  after_some b k h = ground (arith, h.0, h.2, ap (key_lt k) h.0)

  -- What a cursor at the last row of a page leaves.
  rest_after :
      (c : Option Anchor) (x : A) (rest : List A)
      → keep_if (λ a. after_anchor c (key a)) kept ≡ x ∷ rest
      → Ordered key (x ∷ rest)
      → All Anchored (x ∷ rest)
      → m ≤ length rest
      → keep_if (λ a. after_anchor (some (anchor (last_of x (take m rest)))) (key a)) kept
        ≡ drop m rest
  rest_after c x rest e o a h =
      let b : A = last_of x (take m rest) in
      let anchored = All-last Anchored x m rest a.0 a.1 in
      let all : All (λ y. after_anchor c (key y) ≡ true) (x ∷ rest) =
        subst (All (λ y. after_anchor c (key y) ≡ true)) e
          (All-keep_if (λ y. after_anchor c (key y)) kept) in
      let inside = All-last (λ y. after_anchor c (key y) ≡ true) x m rest all.0 all.1 in
      ap (λ f. keep_if f kept) (fun_ext (λ y. after_some b (key y) anchored))
      ∙ sym (
          keep_if_of_implied (λ y. after_anchor c (key y)) (λ y. key_lt (key y) (key b)) kept
            (λ y below. after_anchor-below c (key y) (key b) inside below))
      ∙ ap (keep_if (λ y. key_lt (key y) (key b))) e
      ∙ keep_if-last key x m rest o h

  collect-rest :
      (fuel : ℕ) (c : Option Anchor) (rest : List A)
      → keep_if (λ a. after_anchor c (key a)) kept ≡ rest
      → Ordered key rest
      → All Anchored rest
      → length rest < fuel
      → collect page fuel c ≡ some rest
  unfolding collect
  collect-rest zero c rest e o a h = absurd (omega arith)
  collect-rest (suc fuel) c [] e o a h =
      ap (λ p. continued p (λ anchor. collect page fuel (some anchor)))
        (page_at c [] e ∙ last_page [] (omega arith))
  collect-rest (suc fuel) c (x ∷ rest) e o a h = elim (Bool-cases (leb (length rest) m)) [
    | inl short ↦
        ap (λ p. continued p (λ anchor. collect page fuel (some anchor)))
          (page_at c (x ∷ rest) e ∙ last_page (x ∷ rest) (ground arith))
    | inr long ↦
        ap (λ p. continued p (λ anchor. collect page fuel (some anchor)))
          (page_at c (x ∷ rest) e ∙ full_page x rest (ground arith))
        ∙ ap (prefixed (x ∷ take m rest)) (
            collect-rest fuel (some (anchor (last_of x (take m rest)))) (drop m rest)
              (rest_after c x rest e o a (ground arith)) (Ordered-drop key m rest o.1)
              (All-drop Anchored m rest a.1) (omega (arith, length-drop m rest)))
        ∙ ap (λ ys. some (x ∷ ys)) (take-append-drop m rest)
  ]

  -- All pages together, from the first one on.
  pub collect_lem :
      (fuel : ℕ)
      → DistinctIds key rows
      → All Anchored rows
      → length rows < fuel
      → collect page fuel none ≡ some (keep_if keep (sort_desc key rows))
  unfolding kept
  collect_lem fuel d a h =
      collect-rest fuel none kept (keep_if-true (λ y. true) kept (All-true kept))
        (keep_if-Ordered key keep (sort_desc key rows) (Ordered-sort_desc key rows d))
        (All-kept Anchored keep (sort_desc key rows) (All-sort_desc key Anchored rows a))
        (omega (arith, length-keep_if keep (sort_desc key rows), length-sort_desc key rows))
