-- ===== src/Runtime/EventLoop/Repump.antt =====
-- internal/runtime/eventloop.go: what a repump finds.
use mathlib.Core.List.{append_assoc}
use simiclaw.Base.{
  ◌<◌, ◌≤◌, ◌≡◌, refl, ap, ◌∙◌, ◌⊎◌, inl, inr, String, Bool, true, List, [], ◌∷◌, ◌++◌, length,
  length-append, ltb, arith, Bool-cases,
}
use simiclaw.Model.{WorkItem}
use simiclaw.Store.Tables.{Db}
use simiclaw.Store.Sql.{exists_where}
use simiclaw.Store.Claim.{list_runnable}
use simiclaw.Store.Claim.Listed.{is_of, may_run, list_runnable-lists}
use simiclaw.Runtime.EventLoop.{EventLoop, enqueue_items, repump}

abbrev pub IsBounded : EventLoop → Type 0
IsBounded l = length l.queue ≤ l.capacity

-- What a repump leaves: a queue within its capacity, either full or with all items behind those that it had.
Filled : List WorkItem → EventLoop → EventLoop → Type 0
Filled items l l' =
    (length l'.queue ≤ l.capacity)
    × ((length l'.queue ≡ l.capacity) ⊎ (l'.queue ≡ l.queue ++ items))

append-nil : {A : Type 0} (xs : List A) → xs ≡ xs ++ []
append-nil [] = refl
append-nil (x ∷ xs) = ap (λ l. x ∷ l) (append-nil xs)

Filled-more :
    (work : WorkItem) (items : List WorkItem) (l l' : EventLoop)
    → Filled items (record l { queue = l.queue ++ work ∷ [] }) l'
    → Filled (work ∷ items) l l'
unfolding Filled
Filled-more work items l l' (b, inl full) = (b, inl full)
Filled-more work items l l' (b, inr e) = (b, inr (e ∙ append_assoc l.queue (work ∷ []) items))

enqueue_items-Filled :
    (items : List WorkItem) (l : EventLoop) → IsBounded l → Filled items l (enqueue_items items l)
unfolding enqueue_items Filled
enqueue_items-Filled [] l b = (b, inr (append-nil l.queue))
enqueue_items-Filled (work ∷ items) l b = elim (Bool-cases (ltb (length l.queue) l.capacity)) [
  | inl h ↦
      let more : EventLoop = record l { queue = l.queue ++ work ∷ [] } in
      rw h (
        Filled-more work items l (enqueue_items items more)
          (enqueue_items-Filled items more (ground (arith, h, length-append l.queue (work ∷ [])))))
  | inr h ↦ rw h (b, inl (ground (arith, h, b)))
]

pub exists_where-append :
    {A : Type 0} (q : A → Bool) (xs ys : List A)
    → exists_where q ys ≡ true
    → exists_where q (xs ++ ys) ≡ true
unfolding exists_where
exists_where-append q [] ys h = h
exists_where-append q (x ∷ xs) ys h = ground (arith, exists_where-append q xs ys h)

-- No event is forgotten: after a repump an event that can be run stands in the queue, unless the queue is
-- full, whatever the queue held before.
pub repump-queued :
    (db : Db) (l : EventLoop) (id : String)
    → IsBounded l
    → 0 < l.capacity
    → exists_where (may_run id) db.events ≡ true
    → (length (repump db l).queue ≡ l.capacity)
      ⊎ (exists_where (is_of id) (repump db l).queue ≡ true)
unfolding repump Filled
repump-queued db l id b c h =
    let items = list_runnable db l.capacity in
    let (within, filled) = enqueue_items-Filled items l b in
    elim filled [
      | inl full ↦ inl full
      | inr all ↦ elim (list_runnable-lists db l.capacity id c h) [
        | inl long ↦ inl (omega (arith, within, long, ap length all ∙ length-append l.queue items))
        | inr listed ↦
            inr (
              ap (exists_where (is_of id)) all
              ∙ exists_where-append (is_of id) l.queue items listed)
      ]
    ]
