-- ===== src/Base/Dict.antt =====
-- Go's maps with text keys, as association lists. Iteration order plays no part where they are used.
use Prim.Native.String.{String}
use mathlib.Core.Path.{◌≡◌, refl, subst}
use mathlib.Core.Logic.{inl, inr}
use mathlib.Core.Bool.{Bool, true}
use mathlib.Core.Option.{Option, none, some}
use mathlib.Core.List.{List, [], ◌∷◌}
use native.Mathlib.Omega.{arith}
use text.Mathlib.TextEquality.{eq_iff}
use simiclaw.Base.Lists.{All}
use simiclaw.Base.Tests.{◌==ˢ◌, if◌then◌else◌, Bool-cases}

module _ {ℓ} {V : Type ℓ} where
  -- m[k]
  unfoldable pub get : String → List (String × V) → Option V
  get k [] = none
  get k ((j, v) ∷ m) = if j ==ˢ k then some v else get k m

  -- m[k] = v
  unfoldable pub put : String → V → List (String × V) → List (String × V)
  put k v [] = (k, v) ∷ []
  put k v ((j, w) ∷ m) = if j ==ˢ k then (k, v) ∷ m else (j, w) ∷ put k v m

  -- delete(m, k)
  unfoldable pub remove : String → List (String × V) → List (String × V)
  remove k [] = []
  remove k ((j, v) ∷ m) = if j ==ˢ k then remove k m else (j, v) ∷ remove k m

  -- The entries that pass a test, for a loop that deletes the others.
  unfoldable pub retain : (String → V → Bool) → List (String × V) → List (String × V)
  retain p [] = []
  retain p ((j, v) ∷ m) = if p j v then (j, v) ∷ retain p m else retain p m

  pub get-put :
      (k j : String) (v : V) (m : List (String × V))
      → get j (put k v m) ≡ (if k ==ˢ j then some v else get j m)
  unfolding get put
  get-put k j v [] = refl
  get-put k j v ((i, w) ∷ m) = ground (arith, eq_iff k j, eq_iff i k, eq_iff i j, get-put k j v m)

  pub get-remove :
      (k j : String) (m : List (String × V))
      → get j (remove k m) ≡ (if k ==ˢ j then none else get j m)
  unfolding get remove
  get-remove k j [] = ground arith
  get-remove k j ((i, w) ∷ m) = ground (arith, eq_iff k j, eq_iff i k, eq_iff i j, get-remove k j m)

  pub get-put_self : (k : String) (v : V) (m : List (String × V)) → get k (put k v m) ≡ some v
  get-put_self k v m = ground (arith, get-put k k v m, eq_iff k k)

  -- A predicate on every value of a map.
  abbrev pub AllValues {κ} : (V → Type κ) → List (String × V) → Type κ
  AllValues P m = All (λ e. P e.1) m

  pub AllValues-put {κ} :
      (P : V → Type κ) (k : String) (v : V) (m : List (String × V))
      → P v
      → AllValues P m
      → AllValues P (put k v m)
  unfolding put
  AllValues-put P k v [] p h = (p, tt)
  AllValues-put P k v ((j, w) ∷ m) p h = elim (Bool-cases (j ==ˢ k)) [
    | inl e ↦ rw e (p, h.1)
    | inr e ↦ rw e (h.0, AllValues-put P k v m p h.1)
  ]

  pub AllValues-retain {κ} :
      (P : V → Type κ) (p : String → V → Bool) (m : List (String × V))
      → AllValues P m
      → AllValues P (retain p m)
  unfolding retain
  AllValues-retain P p [] h = h
  AllValues-retain P p ((j, w) ∷ m) h = elim (Bool-cases (p j w)) [
    | inl e ↦ rw e (h.0, AllValues-retain P p m h.1)
    | inr e ↦ rw e (AllValues-retain P p m h.1)
  ]

  some_path :
      (b : Bool) (v w : V) (o : Option V) → b ≡ true → (if b then some w else o) ≡ some v → w ≡ v
  some_path b v w o p e = ground arith

  pub AllValues-get {κ} :
      (P : V → Type κ) (k : String) (v : V) (m : List (String × V))
      → AllValues P m
      → get k m ≡ some v
      → P v
  unfolding get
  AllValues-get P k v [] h e = cc
  AllValues-get P k v ((j, w) ∷ m) h e = elim (Bool-cases (j ==ˢ k)) [
    | inl same ↦ subst P (some_path (j ==ˢ k) v w (get k m) same e) h.0
    | inr other ↦ AllValues-get P k v m h.1 (rw other at e)
  ]
