-- ===== src/Store/Claim/Listed.antt =====
-- internal/store/tx/claim_work.go: what ListRunnable lists.
use simiclaw.Base.{
  ℕ, zero, suc, ◌≡◌, refl, ap, ◌∙◌, ◌⊎◌, inl, inr, String, Bool, true, ◌&&◌, List, [], ◌∷◌, length,
  ◌==ˢ◌, ◌<◌, if◌then◌else◌, arith, Bool-cases,
}
use simiclaw.Model.{WorkItem}
use simiclaw.Store.Tables.{Db, EventRow}
use simiclaw.Store.Sql.{exists_where, select_sorted}
use simiclaw.Store.Sql.Select.{exists_where-select_sorted}
use simiclaw.Store.Claim.{list_runnable, works, take, is_runnable, older}

abbrev pub is_of : String → WorkItem → Bool
is_of id work = work.event_id ==ˢ id

-- A row of the event that can be run.
abbrev pub may_run : String → EventRow → Bool
may_run id e = e.event_id ==ˢ id && is_runnable e.status

length-works : (es : List EventRow) → length (works es) ≡ length es
unfolding works
length-works [] = refl
length-works (e ∷ es) = ap suc (length-works es)

exists_where-works :
    (id : String) (es : List EventRow)
    → exists_where (is_of id) (works es) ≡ exists_where (λ (e : EventRow). e.event_id ==ˢ id) es
unfolding works exists_where
exists_where-works id [] = refl
exists_where-works id (e ∷ es) =
    ap (λ b. if e.event_id ==ˢ id then true else b) (exists_where-works id es)

exists_where-take :
    {A : Type 0} (q : A → Bool) (n : ℕ) (xs : List A)
    → exists_where q xs ≡ true
    → (length (take n xs) ≡ n) ⊎ (exists_where q (take n xs) ≡ true)
unfolding exists_where
exists_where-take q zero xs h = inl refl
exists_where-take q (suc n) [] h = absurd (cc)
exists_where-take q (suc n) (x ∷ xs) h = elim (Bool-cases (q x)) [
  | inl p ↦ inr (ground (arith, p))
  | inr p ↦ elim (exists_where-take q n xs (ground (arith, h, p))) [
    | inl e ↦ inl (ap suc e)
    | inr e ↦ inr (ground (arith, p, e))
  ]
]

-- A listing lists every event that can be run, unless it is as long as its limit.
pub list_runnable-lists :
    (db : Db) (limit : ℕ) (id : String)
    → 0 < limit
    → exists_where (may_run id) db.events ≡ true
    → (length (list_runnable db limit) ≡ limit)
      ⊎ (exists_where (is_of id) (list_runnable db limit) ≡ true)
unfolding list_runnable
list_runnable-lists db zero id positive h = absurd (omega (arith, positive))
list_runnable-lists db (suc n) id positive h =
    let sorted = select_sorted (λ (e : EventRow). is_runnable e.status) older db.events in
    elim (exists_where-take (λ (e : EventRow). e.event_id ==ˢ id) (suc n) sorted
      (exists_where-select_sorted (λ (e : EventRow). e.event_id ==ˢ id) older
          (λ (e : EventRow). is_runnable e.status) db.events
        ∙ h)) [
          | inl e ↦ inl (length-works (take (suc n) sorted) ∙ e)
          | inr e ↦ inr (exists_where-works id (take (suc n) sorted) ∙ e)
        ]
