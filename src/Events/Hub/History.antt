-- ===== src/Events/Hub/History.antt =====
-- internal/runtime/events/hub.go: `appendHistory`, in closed form.
use mathlib.Core.List.{append-nil, append_assoc}
use simiclaw.Base.{
  ℕ, zero, suc, ◌+◌, ◌≤◌, ◌<◌, ◌≡◌, refl, ap, ◌∙◌, Bool, true, false, List, [], ◌∷◌, ◌++◌, arith,
  length, length-append, length-drop, drop, ltb, ◌-◌, lt→ltb, leb, if◌then◌else◌, inl, inr,
  Bool-cases, ◌==◌,
}
use simiclaw.Events.Subscription.{QueuedEvent}
use simiclaw.Events.Hub.{filter_loop, cut, append_history}

-- Nothing is dropped while there is room, and the last item only if it may be.
filter_loop_last :
    (max : ℕ) (filtered xs : List QueuedEvent) (item : QueuedEvent)
    → length filtered + length xs ≡ max
    → filter_loop max filtered (xs ++ item ∷ [])
      ≡ (filtered ++ xs) ++ (if item.droppable then [] else item ∷ [])
unfolding filter_loop
filter_loop_last max filtered [] item h = ground (arith, append-nil filtered)
filter_loop_last max filtered (x ∷ xs) item h =
    let roomy : ltb (length filtered) max ≡ true = lt→ltb _ _ (omega arith) in
    rw (roomy, filter_loop)
      (filter_loop_last max (filtered ++ x ∷ []) xs item
          (omega (arith, length-append filtered (x ∷ [])))
        ∙ ap (λ l. l ++ (if item.droppable then [] else item ∷ []))
            (append_assoc filtered (x ∷ []) xs))

drop_append :
    (xs : List QueuedEvent) (q : QueuedEvent) (n : ℕ)
    → n ≤ length xs
    → drop n (xs ++ q ∷ []) ≡ drop n xs ++ q ∷ []
drop_append xs q zero h = refl
drop_append [] q (suc n) h = elim h [ ]
drop_append (x ∷ xs) q (suc n) h = drop_append xs q n (omega arith)

cut_full :
    (history : List QueuedEvent) (item : QueuedEvent) (droppable : Bool) (max : ℕ)
    → 0 < max
    → length history ≡ max
    → cut max (history ++ (if droppable then [] else item ∷ []))
      ≡ (if droppable then history else drop 1 history ++ item ∷ [])
cut_full history item true max p e = rw (append-nil history) (ground arith)
cut_full history item false max p e =
    let size : length (history ++ item ∷ []) ≡ suc max =
      omega (arith, length-append history (item ∷ [])) in
    let over : leb (suc max) max ≡ false = ground arith in
    let one : suc max - max ≡ 1 = omega arith in
    rw (size, over, one) (drop_append history item 1 (omega arith))

-- A history of at most `max` events grows while it is shorter. When it is full, an event that may be
-- dropped is not recorded, and any other takes the place of the oldest one, whether or not that one
-- may be dropped.
pub append_history_lem :
    (history : List QueuedEvent) (item : QueuedEvent) (max : ℕ)
    → 0 < max
    → length history ≤ max
    → append_history history item max ≡ (
        if ltb (length history) max
        then history ++ item ∷ []
        else if item.droppable
        then history
        else drop 1 history ++ item ∷ [])
unfolding append_history
append_history_lem history item max p h = elim (Bool-cases (ltb (length history) max)) [
  | inl room ↦ ground (arith, length-append history (item ∷ []))
  | inr full ↦
      let size : length history ≡ max = ground arith in
      rw
        (
          filter_loop_last max [] history item (omega (arith, size)),
          (let e : (max == 0) ≡ false = ground arith in e),
          (let e : leb (length (history ++ item ∷ [])) max ≡ false =
                ground (arith, length-append history (item ∷ [])) in
              e),
          full,
        )
        (cut_full history item item.droppable max p size)
]

-- So a history never grows past `max`.
pub append_history-le :
    (history : List QueuedEvent) (item : QueuedEvent) (max : ℕ)
    → 0 < max
    → length history ≤ max
    → length (append_history history item max) ≤ max
append_history-le history item max p h = ground (
  arith,
  append_history_lem history item max p h,
  length-append history (item ∷ []),
  length-append (drop 1 history) (item ∷ []),
  length-drop 1 history,
)
