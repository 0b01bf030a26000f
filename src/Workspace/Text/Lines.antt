-- ===== src/Workspace/Text/Lines.antt =====
-- internal/workspacefile/workspacefile.go: line ends.
use simiclaw.Base.{ℕ, ◌≡◌, refl, ap, Bool, true, false, ◌&&◌, [], ◌∷◌, ◌==◌, if◌then◌else◌, arith}
use simiclaw.Workspace.Text.{Bytes, normalize_text, crlf_to_lf, cr_to_lf, starts_line, has_no_text}

pub if_known :
    {A : Type 0} (P : A → Type 0) (b : Bool) (x y : A)
    → (b ≡ true → P x)
    → (b ≡ false → P y)
    → P (if b then x else y)
if_known P true x y p q = p refl
if_known P false x y p q = q refl

-- A text with a first byte.
pub record Nonempty (s : Bytes) : Type 0 where
  pub first : ℕ
  pub rest : Bytes
  pub is : s ≡ first ∷ rest

crlf_to_lf-Nonempty : (c : ℕ) (s : Bytes) → Nonempty (crlf_to_lf (c ∷ s))
unfolding crlf_to_lf
crlf_to_lf-Nonempty c [] =
    if_known Nonempty (c == 13 && false) _ _ (λ h. absurd (no (c == 13) h))
      (λ h. record { first = c; rest = []; is = refl })
  where
    no : (b : Bool) → (b && false) ≡ true → ⊥
    no b h = ground (arith, h)
crlf_to_lf-Nonempty c (d ∷ s) =
    if_known Nonempty (c == 13 && starts_line (d ∷ s)) _ _ (λ h. crlf_to_lf-Nonempty d s)
      (λ h. record { first = c; rest = crlf_to_lf (d ∷ s); is = refl })

pub normalize_text-Nonempty : (s : Bytes) → has_no_text s ≡ false → Nonempty (normalize_text s)
unfolding normalize_text cr_to_lf
normalize_text-Nonempty [] h = absurd (cc)
normalize_text-Nonempty (c ∷ s) h =
    let kept = crlf_to_lf-Nonempty c s in
    record {
      first = if kept.first == 13 then 10 else kept.first;
      rest = cr_to_lf kept.rest;
      is = ap cr_to_lf kept.is;
    }
