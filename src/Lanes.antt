-- ===== src/Lanes.antt =====
-- internal/runtime/lanes: one lane for each key, held by one work item at a time.
pub mod Key
pub mod Invariant
pub mod Exclusion
mod Tests
use simiclaw.Base.{
  ℕ, suc, ◌+◌, ◌-◌, ◌≡◌, String, Bool, true, false, ◌&&◌, Option, none, some, List, [], ◌∷◌, ◌==◌,
  if◌then◌else◌, get_elem?, set,
}
use simiclaw.Base.Dict.{get, put, remove}

-- internal/runtime/lanes/scheduler.go. `token` is a channel of capacity one: whether it is full.
pub record LaneState : Type 0 where
  pub token : Bool
  pub refs : ℕ

-- A pointer to a lane state is its index in `cells`; those from `next` on are not allocated.
pub record Scheduler : Type 0 where
  pub lanes : List (String × ℕ)
  pub cells : ℕ → LaneState
  pub next : ℕ

abbrev pub write : ℕ → LaneState → Scheduler → Scheduler
write p c s = record s { cells = λ q. if p == q then c else s.cells q }

unfoldable pub new_scheduler : Scheduler
new_scheduler = record { lanes = []; cells = λ p. record { token = false; refs = 0 }; next = 0 }

abbrev retain_in : String → Option ℕ → Scheduler → Scheduler × ℕ
retain_in key (some p) s = (write p (record (s.cells p) { refs = (s.cells p).refs + 1 }) s, p)
retain_in key none s = (
  write s.next (record { token = true; refs = 1 })
      (record s { lanes = put key s.next s.lanes; next = suc s.next }),
  s.next,
)

unfoldable pub retain : String → Scheduler → Scheduler × ℕ
retain key s = retain_in key (get key s.lanes) s

-- A receive from, and a send to, the token channel.
unfoldable pub set_token : Bool → ℕ → Scheduler → Scheduler
set_token b p s = write p (record (s.cells p) { token = b }) s

abbrev points_to : Option ℕ → ℕ → Bool
points_to none p = false
points_to (some q) p = q == p

unfoldable pub drop_lane : String → ℕ → Scheduler → Scheduler
drop_lane key p s =
    let refs = (s.cells p).refs - 1 in
    let s₁ = write p (record (s.cells p) { refs = refs }) s in
    if points_to (get key s.lanes) p
    then (if refs == 0 && (s.cells p).token then record s₁ { lanes = remove key s.lanes } else s₁)
    else s

-- Where a goroutine stands: outside; in the `select` of `Acquire`; with a lease; in the release
-- function of the lease, which `sync.Once` runs once, between the send and `drop`.
pub data Task : Type 0 where
  idle : Task
  waiting holding releasing : String → ℕ → Task

pub record World : Type 0 where
  pub sched : Scheduler
  pub tasks : List Task

abbrev pub move : ℕ → Task → Scheduler → World → World
move i t s w = record { sched = s; tasks = set w.tasks i t }

-- The steps of the goroutines, in any order. The mutex makes `retain` and `drop` one step each.
pub data Step (w v : World) : Type 0 where
  acquires :
      (i : ℕ) (key : String)
      → get_elem? w.tasks i ≡ some idle
      → v ≡ move i (waiting key (retain key w.sched).1) (retain key w.sched).0 w
      → Step w v
  takes :
      (i : ℕ) (key : String) (p : ℕ)
      → get_elem? w.tasks i ≡ some (waiting key p)
      → (w.sched.cells p).token ≡ true
      → v ≡ move i (holding key p) (set_token false p w.sched) w
      → Step w v
  cancels :
      (i : ℕ) (key : String) (p : ℕ)
      → get_elem? w.tasks i ≡ some (waiting key p)
      → v ≡ move i idle (drop_lane key p w.sched) w
      → Step w v
  sends :
      (i : ℕ) (key : String) (p : ℕ)
      → get_elem? w.tasks i ≡ some (holding key p)
      → (w.sched.cells p).token ≡ false
      → v ≡ move i (releasing key p) (set_token true p w.sched) w
      → Step w v
  drops :
      (i : ℕ) (key : String) (p : ℕ)
      → get_elem? w.tasks i ≡ some (releasing key p)
      → v ≡ move i idle (drop_lane key p w.sched) w
      → Step w v

pub data Reach (w : World) : World → Type 0 where
  here : Reach w w
  later : {u v : World} → Reach w u → Step u v → Reach w v
