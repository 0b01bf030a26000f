-- ===== src/Runtime/EventLoop.antt =====
-- internal/runtime/eventloop.go: the queue in front of the kernel. One goroutine takes work from it, and
-- another one fills it from the tables. Contexts, their timeouts and logs are left out.
pub mod Repump
pub mod Again
use simiclaw.Base.{
  ℕ, zero, suc, String, Bool, true, false, not, ◌&&◌, Option, none, some, List, [], ◌∷◌, ◌++◌,
  length, ltb, if◌then◌else◌,
}
use simiclaw.Base.Text.{is_empty}
use simiclaw.Model.{WorkItem, EventRecord}
use simiclaw.Lanes.Key.{resolve}
use simiclaw.Store.Tables.{Db}
use simiclaw.Store.Claim.{list_runnable}
use simiclaw.Runtime.Kernel.{Env, Processed, process}

-- The channel `queue`.
pub record EventLoop : Type 0 where
  pub capacity : ℕ
  pub queue : List WorkItem

-- NewEventLoop
abbrev pub new_event_loop : ℕ → EventLoop
new_event_loop zero = record { capacity = 1024; queue = [] }
new_event_loop (suc n) = record { capacity = suc n; queue = [] }

abbrev pub event_work : String → WorkItem
event_work event_id = record {
  event_id = event_id;
  session_key = "";
  lane_key = "";
  source = "";
  channel = "";
  metadata = [];
}

-- tryEnqueueWork
abbrev pub try_enqueue_work : WorkItem → EventLoop → Bool × EventLoop
try_enqueue_work work l =
    if ltb (length l.queue) l.capacity
    then (true, record l { queue = l.queue ++ work ∷ [] })
    else (false, l)

-- TryEnqueue
abbrev pub try_enqueue : String → EventLoop → Bool × EventLoop
try_enqueue event_id l = try_enqueue_work (event_work event_id) l

-- The loop of a repump, which ends at the first item that the queue does not take.
unfoldable pub enqueue_items : List WorkItem → EventLoop → EventLoop
enqueue_items [] l = l
enqueue_items (work ∷ items) l =
    let tried = try_enqueue_work work l in
    let rest = enqueue_items items tried.1 in if tried.0 then rest else l

-- One tick of repumpLoop whose reading succeeds.
unfoldable pub repump : Db → EventLoop → EventLoop
unfolding enqueue_items list_runnable
repump db l = enqueue_items (list_runnable db l.capacity) l

abbrev with_session : Option EventRecord → WorkItem → WorkItem
with_session none work = work
with_session (some rec) work = record work { session_key = rec.session_key }

abbrev with_lane : WorkItem → WorkItem
with_lane work = if is_empty work.lane_key then record work { lane_key = resolve work } else work

-- prepareWorkForScheduling; a failing view gives nothing.
unfoldable pub prepare_work_for_scheduling : (String → Option EventRecord) → WorkItem → WorkItem
unfolding resolve
prepare_work_for_scheduling view work = with_lane (
    if is_empty work.session_key && not (is_empty work.event_id)
    then with_session (view work.event_id) work
    else work)

-- processWork, once it has its lane.
unfoldable pub process_work : Env → WorkItem → Db → Processed
unfolding prepare_work_for_scheduling process
process_work env work db = process env (prepare_work_for_scheduling (env.view db) work) db

-- One round of consumeLoop: what is processed, if the queue has an item.
unfoldable pub consume : Env → Db → EventLoop → Option Processed × EventLoop
unfolding process_work
consume env db l = elim l.queue [
  | [] ↦ (none, l)
  | work ∷ rest ↦ (some (process_work env work db), record l { queue = rest })
]
