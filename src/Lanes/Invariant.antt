-- ===== src/Lanes/Invariant.antt =====
-- internal/runtime/lanes/scheduler.go: what holds of the scheduler and its goroutines between steps.
use simiclaw.Base.{
  ℕ, ◌+◌, ◌-◌, ◌≤◌, ◌<◌, ◌≡◌, refl, sym, String, Bool, true, false, ◌&&◌, Option, none, some, List,
  ◌==◌, arith, if◌then◌else◌, inl, inr, Bool-cases, eq_iff, get_elem?, set, total, total-set,
  total_mono, All, All-set, All-get_elem?, All-map, All-total_zero, All-zip,
}
use mathlib.Core.Path.{subst}
use simiclaw.Base.Dict.{get, put, remove, get-put, get-remove}
use simiclaw.Lanes.{
  Scheduler, World, Task, idle, waiting, holding, releasing, retain_in, retain, set_token,
  drop_lane, write, Step, acquires, takes, cancels, sends, drops, Reach, here, later,
}

abbrev unit_at : ℕ → ℕ → ℕ
unit_at q p = if q == p then 1 else 0

-- Whether a goroutine counts in `refs` of the lane state `p`.
abbrev pub at : ℕ → Task → ℕ
at p idle = 0
at p (waiting key q) = unit_at q p
at p (holding key q) = unit_at q p
at p (releasing key q) = unit_at q p

-- Whether it has the token of `p`.
abbrev pub holds : ℕ → Task → ℕ
holds p (holding key q) = unit_at q p
holds p _ = 0

abbrev bit : Bool → ℕ
bit true = 1
bit false = 0

-- The lane state that a goroutine uses is the one of its key.
abbrev pub Placed : List (String × ℕ) → Task → Type 0
Placed lanes idle = Unit
Placed lanes (waiting key p) = get key lanes ≡ some p
Placed lanes (holding key p) = get key lanes ≡ some p
Placed lanes (releasing key p) = get key lanes ≡ some p

pub record Inv (s : Scheduler) (ts : List Task) : Type 0 where
  pub counted : (p : ℕ) → (s.cells p).refs ≡ total (at p) ts
  pub one_token :
      (k : String) (p : ℕ) → get k s.lanes ≡ some p → bit (s.cells p).token + total (holds p) ts ≡ 1
  pub placed : All (Placed s.lanes) ts
  pub allocated : (k : String) (p : ℕ) → get k s.lanes ≡ some p → p < s.next
  pub unused : (p : ℕ) → s.next ≤ p → total (at p) ts ≡ 0
  pub apart : (k j : String) (p : ℕ) → get k s.lanes ≡ some p → get j s.lanes ≡ some p → k ≡ j
  pub live : (k : String) (p : ℕ) → get k s.lanes ≡ some p → 0 < (s.cells p).refs

holds-le-at : (p : ℕ) (t : Task) → holds p t ≤ at p t
holds-le-at p idle = omega arith
holds-le-at p (waiting key q) = ground arith
holds-le-at p (holding key q) = ground arith
holds-le-at p (releasing key q) = ground arith

-- A goroutine enters the lane that its key has.
retain_some-Inv :
    (s : Scheduler) (ts : List Task) (i : ℕ) (key : String) (p : ℕ)
    → Inv s ts
    → get_elem? ts i ≡ some idle
    → get key s.lanes ≡ some p
    → Inv (retain_in key (some p) s).0 (set ts i (waiting key p))
retain_some-Inv s ts i key p v e g = record {
  counted = λ q. ground (arith, v.counted q, total-set (at q) ts i idle (waiting key p) e);
  one_token =
      λ k q h. ground (arith, v.one_token k q h, total-set (holds q) ts i idle (waiting key p) e);
  placed = All-set (Placed s.lanes) ts i (waiting key p) v.placed g;
  allocated = v.allocated;
  unused = λ q h.
      ground
        (arith, v.unused q h, v.allocated key p g, total-set (at q) ts i idle (waiting key p) e);
  apart = v.apart;
  live = λ k q h. ground (arith, v.live k q h);
}

Placed-put :
    (key : String) (p : ℕ) (lanes : List (String × ℕ)) (t : Task)
    → get key lanes ≡ none
    → Placed lanes t
    → Placed (put key p lanes) t
Placed-put key p lanes idle g h = tt
Placed-put key p lanes (waiting k q) g h = ground (arith, get-put key k p lanes, eq_iff key k, h)
Placed-put key p lanes (holding k q) g h = ground (arith, get-put key k p lanes, eq_iff key k, h)
Placed-put key p lanes (releasing k q) g h = ground (arith, get-put key k p lanes, eq_iff key k, h)

-- A goroutine makes the lane of its key.
retain_none-Inv :
    (s : Scheduler) (ts : List Task) (i : ℕ) (key : String)
    → Inv s ts
    → get_elem? ts i ≡ some idle
    → get key s.lanes ≡ none
    → Inv (retain_in key none s).0 (set ts i (waiting key s.next))
retain_none-Inv s ts i key v e g = record {
  counted = λ q.
      ground (arith, v.counted q, v.unused q, total-set (at q) ts i idle (waiting key s.next) e);
  one_token = λ k q h. ground (
    arith,
    get-put key k s.next s.lanes,
    v.one_token k q,
    v.allocated k q,
    v.unused q,
    total_mono (holds q) (at q) ts (holds-le-at q),
    total-set (holds q) ts i idle (waiting key s.next) e,
  );
  placed =
      All-set _ ts i (waiting key s.next)
        (All-map _ _ ts (λ t. Placed-put key s.next s.lanes t g) v.placed)
        (ground (arith, get-put key key s.next s.lanes, eq_iff key key));
  allocated = λ k q h. ground (arith, get-put key k s.next s.lanes, v.allocated k q);
  unused = λ q h. ground (arith, v.unused q, total-set (at q) ts i idle (waiting key s.next) e);
  apart = λ k j q h₁ h₂. ground (
    arith,
    get-put key k s.next s.lanes,
    get-put key j s.next s.lanes,
    eq_iff key k,
    eq_iff key j,
    v.apart k j q,
    v.allocated k q,
    v.allocated j q,
  );
  live = λ k q h. ground (arith, get-put key k s.next s.lanes, v.live k q, v.allocated k q);
}

-- A goroutine takes the token of its lane, or gives it back.
set_token-Inv :
    (b : Bool) (s : Scheduler) (ts : List Task) (i : ℕ) (key : String) (p : ℕ) (t u : Task)
    → Inv s ts
    → get_elem? ts i ≡ some t
    → ((q : ℕ) → at q t ≡ at q u)
    → ((q : ℕ)
        → (if p == q then bit b else bit (s.cells q).token) + holds q u
          ≡ bit (s.cells q).token + holds q t)
    → Placed s.lanes u
    → Inv (set_token b p s) (set ts i u)
unfolding set_token
set_token-Inv b s ts i key p t u v e same moved placed = record {
  counted = λ q. ground (arith, v.counted q, same q, total-set (at q) ts i t u e);
  one_token = λ k q h. ground (arith, v.one_token k q h, moved q, total-set (holds q) ts i t u e);
  placed = All-set (Placed s.lanes) ts i u v.placed placed;
  allocated = v.allocated;
  unused = λ q h. ground (arith, v.unused q h, same q, total-set (at q) ts i t u e);
  apart = v.apart;
  live = λ k q h. ground (arith, v.live k q h);
}

Placed-remove :
    (key : String) (p : ℕ) (lanes : List (String × ℕ)) (t : Task)
    → ((k : String) → get k lanes ≡ some p → k ≡ key)
    → get key lanes ≡ some p
    → Placed lanes t × (at p t ≡ 0)
    → Placed (remove key lanes) t
Placed-remove key p lanes idle a g h = tt
Placed-remove key p lanes (waiting k q) a g h =
    ground (arith, get-remove key k lanes, eq_iff key k, h.0, h.1)
Placed-remove key p lanes (holding k q) a g h =
    ground (arith, get-remove key k lanes, eq_iff key k, h.0, h.1)
Placed-remove key p lanes (releasing k q) a g h =
    ground (arith, get-remove key k lanes, eq_iff key k, h.0, h.1)

module _ (s : Scheduler) (ts : List Task) (i : ℕ) (key : String) (p : ℕ) (t : Task) (v : Inv s ts)
    (e : get_elem? ts i ≡ some t) (one : (q : ℕ) → at q t ≡ unit_at p q)
    (free : (q : ℕ) → holds q t ≡ 0) (g : get key s.lanes ≡ some p) where
  -- One reference less.
  abbrev fewer : Scheduler
  fewer = write p (record (s.cells p) { refs = (s.cells p).refs - 1 }) s

  fewer-counted : (q : ℕ) → (fewer.cells q).refs ≡ total (at q) (set ts i idle)
  fewer-counted q =
      ground (arith, v.counted q, v.live key p g, one q, total-set (at q) ts i t idle e)

  fewer-holds : (q : ℕ) → total (holds q) (set ts i idle) ≡ total (holds q) ts
  fewer-holds q = ground (arith, free q, total-set (holds q) ts i t idle e)

  fewer-unused : (q : ℕ) → s.next ≤ q → total (at q) (set ts i idle) ≡ 0
  fewer-unused q h = ground (arith, v.unused q h, total-set (at q) ts i t idle e)

  delete-Inv :
      (s.cells p).refs ≡ 1 → Inv (record fewer { lanes = remove key s.lanes }) (set ts i idle)
  delete-Inv last = record {
    counted = fewer-counted;
    one_token = λ k q h. ground (
      arith,
      get-remove key k s.lanes,
      eq_iff key k,
      v.one_token k q,
      v.apart key k p,
      fewer-holds q,
    );
    placed =
        All-map _ _ (set ts i idle)
          (λ u. Placed-remove key p s.lanes u (λ k h. v.apart k key p h g) g)
          (All-zip _ _ (set ts i idle) (All-set (Placed s.lanes) ts i idle v.placed tt)
            (All-total_zero (at p) (set ts i idle) (ground (arith, fewer-counted p))));
    allocated = λ k q h. ground (arith, get-remove key k s.lanes, v.allocated k q);
    unused = fewer-unused;
    apart = λ k j q h₁ h₂.
        ground (arith, get-remove key k s.lanes, get-remove key j s.lanes, v.apart k j q);
    live = λ k q h.
        ground (arith, get-remove key k s.lanes, eq_iff key k, v.live k q, v.apart key k p);
  }

  keep-Inv : ((s.cells p).refs - 1 == 0 && (s.cells p).token) ≡ false → Inv fewer (set ts i idle)
  keep-Inv more = record {
    counted = fewer-counted;
    one_token = λ k q h. ground (arith, v.one_token k q h, fewer-holds q);
    placed = All-set (Placed s.lanes) ts i idle v.placed tt;
    allocated = v.allocated;
    unused = fewer-unused;
    apart = v.apart;
    live = λ k q h. ground (
      arith,
      v.live k q h,
      v.one_token k q h,
      fewer-holds q,
      fewer-counted q,
      total_mono (holds q) (at q) (set ts i idle) (holds-le-at q),
    );
  }

  -- A goroutine without the token leaves its lane, and the last one deletes it.
  drop_lane-Inv : Inv (drop_lane key p s) (set ts i idle)
  unfolding drop_lane
  drop_lane-Inv =
      rw (g, (let same : (p == p) ≡ true = ground arith in same))
        (elim (Bool-cases ((s.cells p).refs - 1 == 0 && (s.cells p).token)) [
          | inl last ↦ rw last (delete-Inv (ground (arith, v.live key p g)))
          | inr more ↦ rw more (keep-Inv more)
        ])

-- The invariant of the whole.
abbrev pub Valid : World → Type 0
Valid w = Inv w.sched w.tasks

retain-Inv :
    (s : Scheduler) (ts : List Task) (i : ℕ) (key : String) (o : Option ℕ)
    → get key s.lanes ≡ o
    → Inv s ts
    → get_elem? ts i ≡ some idle
    → Inv (retain_in key o s).0 (set ts i (waiting key (retain_in key o s).1))
retain-Inv s ts i key none g v e = retain_none-Inv s ts i key v e g
retain-Inv s ts i key (some p) g v e = retain_some-Inv s ts i key p v e g

Placed-at :
    (w : World) (i : ℕ) (t : Task) → Valid w → get_elem? w.tasks i ≡ some t → Placed w.sched.lanes t
Placed-at w i t v e = All-get_elem? _ w.tasks i t v.placed e

-- Every step of every goroutine keeps the invariant.
pub Step-Valid : (w u : World) → Step w u → Valid w → Valid u
unfolding retain
Step-Valid w u (acquires i key e d) v =
    subst Valid (sym d) (retain-Inv w.sched w.tasks i key (get key w.sched.lanes) refl v e)
Step-Valid w u (takes i key p e full d) v = subst Valid (sym d) (
    set_token-Inv false w.sched w.tasks i key p _ (holding key p) v e (λ q. refl)
      (λ q. ground arith) (Placed-at w i _ v e))
Step-Valid w u (cancels i key p e d) v =
    subst Valid (sym d)
      (drop_lane-Inv w.sched w.tasks i key p _ v e (λ q. refl) (λ q. refl) (Placed-at w i _ v e))
Step-Valid w u (sends i key p e empty d) v = subst Valid (sym d) (
    set_token-Inv true w.sched w.tasks i key p _ (releasing key p) v e (λ q. refl)
      (λ q. ground arith) (Placed-at w i _ v e))
Step-Valid w u (drops i key p e d) v =
    subst Valid (sym d)
      (drop_lane-Inv w.sched w.tasks i key p _ v e (λ q. refl) (λ q. refl) (Placed-at w i _ v e))

pub Reach-Valid : (w u : World) → Reach w u → Valid w → Valid u
Reach-Valid w u here v = v
Reach-Valid w u (later {u = x} r st) v = Step-Valid x u st (Reach-Valid w x r v)
