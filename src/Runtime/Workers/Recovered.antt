-- ===== src/Runtime/Workers/Recovered.antt =====
-- internal/runtime/workers/processing_recovery.go: an event whose lease ran out is queued again.
use mathlib.Core.Path.{subst}
use simiclaw.Base.{
  ℕ, ◌-◌, ◌≡◌, refl, ap, ◌∙◌, ◌⊎◌, inl, inr, String, Bool, true, false, ◌&&◌, List, [], ◌∷◌, ◌++◌,
  map, length, length-append, ltb, ◌==ˢ◌, str_eq_self, eq_iff, if◌then◌else◌, arith, Bool-cases,
}
use simiclaw.Model.{WorkItem}
use simiclaw.Store.Tables.{EventRow}
use simiclaw.Store.Sql.{exists_where, select_sorted}
use simiclaw.Store.Sql.Select.{exists_where-select_sorted}
use simiclaw.Store.Claim.{older}
use simiclaw.Store.Claim.Listed.{is_of}
use simiclaw.Store.Recover.{is_expired, recover_expired_processing}
use simiclaw.Store.Heartbeat.{beat_heartbeat}
use simiclaw.Runtime.EventLoop.{EventLoop, try_enqueue_work, event_work}
use simiclaw.Runtime.EventLoop.Repump.{IsBounded, exists_where-append}
use simiclaw.Runtime.Workers.{Host, try_enqueue_to, enqueue_ids, recovery_tick, processing_lease}

-- The event stands in the queue, or there is no room.
abbrev pub InQueue : String → EventLoop → Type 0
InQueue id l = (length l.queue ≡ l.capacity) ⊎ (exists_where (is_of id) l.queue ≡ true)

exists_where-front :
    {A : Type 0} (q : A → Bool) (xs ys : List A)
    → exists_where q xs ≡ true
    → exists_where q (xs ++ ys) ≡ true
unfolding exists_where
exists_where-front q [] ys h = absurd (cc)
exists_where-front q (x ∷ xs) ys h = elim (Bool-cases (q x)) [
  | inl p ↦ ground (arith, p)
  | inr p ↦ ground (arith, p, exists_where-front q xs ys (ground (arith, h, p)))
]

-- Whatever a try leaves: the same queue if it is full, or one more item.
module _ (work : WorkItem) (l : EventLoop) where
  try_cases :
      (P : EventLoop → Type 0)
      → (ltb (length l.queue) l.capacity ≡ true → P (record l { queue = l.queue ++ work ∷ [] }))
      → (ltb (length l.queue) l.capacity ≡ false → P l)
      → P (try_enqueue_work work l).1
  try_cases P more same = elim (Bool-cases (ltb (length l.queue) l.capacity)) [
    | inl h ↦ rw h (more h)
    | inr h ↦ rw h (same h)
  ]

  try-IsBounded : IsBounded l → IsBounded (try_enqueue_work work l).1
  try-IsBounded b =
      try_cases IsBounded (λ h. ground (arith, h, length-append l.queue (work ∷ []))) (λ h. b)

  try-InQueue : (id : String) → InQueue id l → InQueue id (try_enqueue_work work l).1
  try-InQueue id q = try_cases (InQueue id) (λ h. kept h q) (λ h. q)
    where
      kept :
          ltb (length l.queue) l.capacity ≡ true
          → InQueue id l
          → InQueue id (record l { queue = l.queue ++ work ∷ [] })
      kept h (inl full) = absurd (ground (arith, h, full))
      kept h (inr e) = inr (exists_where-front (is_of id) l.queue (work ∷ []) e)

  try-own : IsBounded l → InQueue work.event_id (try_enqueue_work work l).1
  unfolding exists_where
  try-own b =
      try_cases (InQueue work.event_id)
        (λ h. inr (
          exists_where-append (is_of work.event_id) l.queue (work ∷ [])
            (rw (str_eq_self work.event_id) refl)))
        (λ h. inl (ground (arith, h, b)))

enqueue_ids-InQueue :
    (id : String) (ids : List String) (h : Host)
    → InQueue id h.loop
    → InQueue id (enqueue_ids ids h).loop
unfolding enqueue_ids
enqueue_ids-InQueue id [] h q = q
enqueue_ids-InQueue id (i ∷ ids) h q =
    enqueue_ids-InQueue id ids (try_enqueue_to i h) (try-InQueue (event_work i) h.loop id q)

enqueue_ids-own :
    (id : String) (ids : List String) (h : Host)
    → IsBounded h.loop
    → exists_where (λ i. i ==ˢ id) ids ≡ true
    → InQueue id (enqueue_ids ids h).loop
unfolding enqueue_ids exists_where
enqueue_ids-own id [] h b e = absurd (cc)
enqueue_ids-own id (i ∷ ids) h b e = elim (Bool-cases (i ==ˢ id)) [
  | inl p ↦ enqueue_ids-InQueue id ids (try_enqueue_to i h) (
      subst (λ x. InQueue x (try_enqueue_work (event_work i) h.loop).1) ((eq_iff i id).0 p)
        (try-own (event_work i) h.loop b))
  | inr p ↦
      enqueue_ids-own id ids (try_enqueue_to i h) (try-IsBounded (event_work i) h.loop b)
        (ground (arith, e, p))
]

exists_where-map :
    {A : Type 0} (f : A → String) (id : String) (xs : List A)
    → exists_where (λ i. i ==ˢ id) (map f xs) ≡ exists_where (λ x. f x ==ˢ id) xs
unfolding exists_where
exists_where-map f id [] = refl
exists_where-map f id (x ∷ xs) = ap (λ b. if f x ==ˢ id then true else b) (exists_where-map f id xs)

-- A row of the event whose lease ran out.
abbrev pub lease_over : ℕ → String → EventRow → Bool
lease_over now id e = e.event_id ==ˢ id && is_expired (now - processing_lease) e

-- After a tick of the recovery worker every event whose lease had run out stands in the queue, unless the
-- queue is full.
pub recovery_tick-queued :
    (now : ℕ) (h : Host) (id : String)
    → IsBounded h.loop
    → exists_where (lease_over now id) h.db.events ≡ true
    → InQueue id (recovery_tick now h).loop
unfolding recovery_tick recover_expired_processing beat_heartbeat
recovery_tick-queued now h id b e =
    let rows = select_sorted (is_expired (now - processing_lease)) older h.db.events in
    enqueue_ids-own id (map (λ (e : EventRow). e.event_id) rows) _ b (
      exists_where-map (λ (e : EventRow). e.event_id) id rows
      ∙ exists_where-select_sorted (λ (e : EventRow). e.event_id ==ˢ id) older
          (is_expired (now - processing_lease)) h.db.events
      ∙ e)
