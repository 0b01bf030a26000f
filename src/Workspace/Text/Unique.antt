-- ===== src/Workspace/Text/Unique.antt =====
-- internal/workspacefile/workspacefile.go: what a replacement changes.
use simiclaw.Base.{
  ℕ, zero, suc, ◌-◌, ◌≡◌, refl, sym, ap, ◌∙◌, inl, inr, true, false, [], ◌∷◌, ◌++◌, length, drop,
  ◌==◌, arith, Bool-cases,
}
use simiclaw.Workspace.Text.{Bytes, has_prefix, count_from, replace_first}

-- The text around the first match of the old one.
pub record Around (old new s result : Bytes) : Type 0 where
  pub before : Bytes
  pub after : Bytes
  pub found : s ≡ before ++ old ++ after
  pub replaced : result ≡ before ++ new ++ after
  pub once : count_from 0 old s ≡ suc (count_from 0 old after)

has_prefix-eq : (p s : Bytes) → has_prefix p s ≡ true → s ≡ p ++ drop (length p) s
unfolding has_prefix
has_prefix-eq [] s h = refl
has_prefix-eq (c ∷ p) [] h = absurd (cc)
has_prefix-eq (c ∷ p) (d ∷ s) h = elim (Bool-cases (c == d)) [
  | inl e ↦ head e (has_prefix-eq p s (ground (arith, h, e)))
  | inr e ↦ absurd (ground (arith, h, e))
]
  where
    head : (c == d) ≡ true → s ≡ p ++ drop (length p) s → d ∷ s ≡ c ∷ (p ++ drop (length p) s)
    head e f = ap (λ x. x ∷ s) (sym (ground (arith, e))) ∙ ap (λ l. c ∷ l) f

count_from-drop : (k : ℕ) (old s : Bytes) → count_from k old s ≡ count_from 0 old (drop k s)
unfolding count_from
count_from-drop zero old s = refl
count_from-drop (suc k) old [] = refl
count_from-drop (suc k) old (c ∷ s) = count_from-drop k old s

module _ (x : ℕ) (p new : Bytes) where
  Around-here :
      (c : ℕ) (s : Bytes)
      → has_prefix (x ∷ p) (c ∷ s) ≡ true
      → Around (x ∷ p) new (c ∷ s) (replace_first (x ∷ p) new (c ∷ s))
  unfolding count_from replace_first
  Around-here c s h = record {
    before = [];
    after = drop (length p) s;
    found = has_prefix-eq (x ∷ p) (c ∷ s) h;
    replaced = rw h refl;
    once =
        rw h (
          ap suc
            (ap (λ k. count_from k (x ∷ p) s) one_less ∙ count_from-drop (length p) (x ∷ p) s));
  }
    where
      one_less : suc (length p) - 1 ≡ length p
      one_less = omega arith

  Around-later :
      (c : ℕ) (s : Bytes)
      → has_prefix (x ∷ p) (c ∷ s) ≡ false
      → Around (x ∷ p) new s (replace_first (x ∷ p) new s)
      → Around (x ∷ p) new (c ∷ s) (replace_first (x ∷ p) new (c ∷ s))
  unfolding count_from replace_first
  Around-later c s h a = record {
    before = c ∷ a.before;
    after = a.after;
    found = ap (λ l. c ∷ l) a.found;
    replaced = rw h (ap (λ l. c ∷ l) a.replaced);
    once = rw h a.once;
  }

  -- If the old text occurs, its first occurrence is replaced and nothing else is changed; what comes after
  -- it has one occurrence less.
  pub replace_first-Around :
      (s : Bytes) (n : ℕ)
      → count_from 0 (x ∷ p) s ≡ suc n
      → Around (x ∷ p) new s (replace_first (x ∷ p) new s)
  unfolding count_from
  replace_first-Around [] n h = absurd (omega (arith, h))
  replace_first-Around (c ∷ s) n h = elim (Bool-cases (has_prefix (x ∷ p) (c ∷ s))) [
    | inl e ↦ Around-here c s e
    | inr e ↦ Around-later c s e (replace_first-Around s n (ground (arith, h, e)))
  ]
