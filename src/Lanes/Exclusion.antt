-- ===== src/Lanes/Exclusion.antt =====
-- internal/runtime/lanes/scheduler.go: what the scheduler promises to its callers.
use mathlib.Core.Path.{subst}
use simiclaw.Base.{
  ℕ, zero, suc, ◌≡◌, refl, sym, ap, ◌⊎◌, String, true, false, none, some, List, [], ◌∷◌, arith, inl,
  inr, Bool-cases, Option-cases, get_elem?, total, total-ge, total-ge_two, All, All-get_elem?,
}
use native.Mathlib.Decide.{ℕ_discrete}
use simiclaw.Base.Dict.{get}
use simiclaw.Lanes.{
  World, Task, idle, waiting, holding, releasing, new_scheduler, set_token, move, Step, takes,
  sends, Reach,
}
use simiclaw.Lanes.Invariant.{at, holds, Valid, Reach-Valid}

-- No goroutine has called `Acquire` yet.
abbrev pub AllIdle : List Task → Type 0
AllIdle = All (λ t. t ≡ idle)

AllIdle-total : (f : Task → ℕ) (ts : List Task) → f idle ≡ 0 → AllIdle ts → total f ts ≡ 0
unfolding total
AllIdle-total f [] z h = refl
AllIdle-total f (t ∷ ts) z h = omega (arith, ap f h.0, AllIdle-total f ts z h.1)

All-idle : (P : Task → Type 0) (ts : List Task) → P idle → AllIdle ts → All P ts
All-idle P [] p h = tt
All-idle P (t ∷ ts) p h = (subst P (sym h.0) p, All-idle P ts p h.1)

abbrev pub start : List Task → World
start ts = record { sched = new_scheduler; tasks = ts }

start-Valid : (ts : List Task) → AllIdle ts → Valid (start ts)
unfolding new_scheduler get
start-Valid ts h = record {
  counted = λ p. sym (AllIdle-total (at p) ts refl h);
  one_token = λ k p e. cc;
  placed = All-idle _ ts tt h;
  allocated = λ k p e. cc;
  unused = λ p l. AllIdle-total (at p) ts refl h;
  apart = λ k j p e₁ e₂. cc;
  live = λ k p e. cc;
}

holds_self : (key : String) (p : ℕ) → holds p (holding key p) ≡ 1
holds_self key p = ground arith

-- Mutual exclusion: in whatever order the goroutines step, no two of them hold the same lane.
pub one_holder :
    (ts : List Task) (w : World) (i j : ℕ) (key : String) (p q : ℕ)
    → AllIdle ts
    → Reach (start ts) w
    → get_elem? w.tasks i ≡ some (holding key p)
    → get_elem? w.tasks j ≡ some (holding key q)
    → i ≡ j
one_holder ts w i j key p q h r a b = elim (ℕ_discrete i j) [
  | yes same ↦ same
  | no differ ↦
      let v = Reach-Valid (start ts) w r (start-Valid ts h) in
      let e = All-get_elem? _ w.tasks i _ v.placed a in
      let f = All-get_elem? _ w.tasks j _ v.placed b in
      ground (
        arith,
        v.one_token key p e,
        total-ge_two (holds p) w.tasks i j (holding key p) (holding key q) differ a b,
        f,
      )
]

-- No lane is left behind: once every goroutine is outside again, the map is empty.
pub no_lane_left :
    (ts : List Task) (w : World) (key : String)
    → AllIdle ts
    → Reach (start ts) w
    → AllIdle w.tasks
    → get key w.sched.lanes ≡ none
no_lane_left ts w key h r quiet = elim (Option-cases (get key w.sched.lanes)) [
  | inl e ↦ e
  | inr (p, e) ↦
      let v = Reach-Valid (start ts) w r (start-Valid ts h) in
      absurd (omega (arith, v.live key p e, v.counted p, AllIdle-total (at p) w.tasks refl quiet))
]

-- The holder's index, where the weights of a list add up to one.
find_holder :
    (p : ℕ) (ts : List Task)
    → total (holds p) ts ≡ 1
    → (j : ℕ) × (k : String) × (get_elem? ts j ≡ some (holding k p))
unfolding total
find_holder p [] h = absurd (omega arith)
find_holder p (idle ∷ ts) h = let (j, k, e) = find_holder p ts (omega arith) in (suc j, k, e)
find_holder p (waiting k₁ q ∷ ts) h =
    let (j, k, e) = find_holder p ts (omega arith) in (suc j, k, e)
find_holder p (releasing k₁ q ∷ ts) h =
    let (j, k, e) = find_holder p ts (omega arith) in (suc j, k, e)
find_holder p (holding k₁ q ∷ ts) h = elim (ℕ_discrete q p) [
  | yes same ↦ (zero, k₁, ap (λ n. some (holding k₁ n)) same)
  | no differ ↦ let (j, k, e) = find_holder p ts (ground arith) in (suc j, k, e)
]

-- A goroutine that holds a lane can always send its token back.
pub holder_releases :
    (ts : List Task) (w : World) (i : ℕ) (key : String) (p : ℕ)
    → AllIdle ts
    → Reach (start ts) w
    → get_elem? w.tasks i ≡ some (holding key p)
    → Step w (move i (releasing key p) (set_token true p w.sched) w)
holder_releases ts w i key p h r a =
    let v = Reach-Valid (start ts) w r (start-Valid ts h) in
    let e = All-get_elem? _ w.tasks i _ v.placed a in
    sends i key p a
      (ground (arith, v.one_token key p e, total-ge (holds p) w.tasks i (holding key p) a)) refl

-- No goroutine waits for nothing: one that waits can take its lane at once, unless another one holds
-- that lane at that moment.
pub waiter_or_holder :
    (ts : List Task) (w : World) (i : ℕ) (key : String) (p : ℕ)
    → AllIdle ts
    → Reach (start ts) w
    → get_elem? w.tasks i ≡ some (waiting key p)
    → Step w (move i (holding key p) (set_token false p w.sched) w)
      ⊎ ((j : ℕ) × (get_elem? w.tasks j ≡ some (holding key p)))
waiter_or_holder ts w i key p h r a =
    let v = Reach-Valid (start ts) w r (start-Valid ts h) in
    let e = All-get_elem? _ w.tasks i _ v.placed a in
    elim (Bool-cases (w.sched.cells p).token) [
      | inl full ↦ inl (takes i key p a full refl)
      | inr empty ↦
          let (j, k, f) = find_holder p w.tasks (ground (arith, v.one_token key p e)) in
          let g = All-get_elem? _ w.tasks j _ v.placed f in
          inr (j, subst (λ k. get_elem? w.tasks j ≡ some (holding k p)) (v.apart k key p g e) f)
    ]
