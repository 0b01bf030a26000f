-- ===== src/Store/Claim.antt =====
-- internal/store/tx/claim_work.go: an event becomes the work of one run.
pub mod Listed
pub mod Work
pub mod Exclusive
use simiclaw.Base.{
  ℕ, zero, suc, String, Bool, true, false, not, ◌&&◌, ◌||◌, Option, none, some, List, [], ◌∷◌,
  ◌==ˢ◌, if◌then◌else◌,
}
use simiclaw.Base.Result.{Result, ok, err}
use simiclaw.Base.Text.{is_empty}
use simiclaw.Base.Time.{at, blank, stamp_le, parse_time}
use simiclaw.Model.{
  EventStatus, received, queued, processing, RunStatus, started, RunMode, normal, no_reply,
  WorkItem, Conversation,
}
use simiclaw.Model.Run.{InternalEvent, ClaimContext}
use simiclaw.Lanes.Key.{resolve}
use simiclaw.Store.Tables.{Db, EventRow, RunRow}
use simiclaw.Store.Sql.{
  DbError, Tx, ◌>>=◌, ◌>>◌, return, fail, read, modify, update_where, find_where, exists_where,
  select_sorted, no_mutation, constraint, with_writer_tx, text_before,
}

abbrev pub is_runnable : EventStatus → Bool
is_runnable received = true
is_runnable queued = true
is_runnable _ = false

abbrev pub is_started : RunStatus → Bool
is_started started = true
is_started _ = false

abbrev pub is_no_reply_payload : String → Bool
is_no_reply_payload type = type ==ˢ "memory_flush" || type ==ˢ "compaction" || type ==ˢ "cron_fire"

-- ORDER BY updated_at ASC, event_id ASC
abbrev pub older : EventRow → EventRow → Bool
older e f =
    if stamp_le e.updated_at f.updated_at
    then (if stamp_le f.updated_at e.updated_at then text_before e.event_id f.event_id else true)
    else false

abbrev take : {A : Type 0} → ℕ → List A → List A
take zero xs = []
take (suc n) [] = []
take (suc n) (x ∷ xs) = x ∷ take n xs

abbrev listed_work : EventRow → WorkItem
listed_work e =
    let work : WorkItem = record {
      event_id = e.event_id;
      session_key = e.session_key;
      lane_key = "";
      source = "";
      channel = "";
      metadata = [];
    } in
    record work { lane_key = resolve work }

works : List EventRow → List WorkItem
works [] = []
works (e ∷ es) = listed_work e ∷ works es

-- ListRunnable; a limit of 0 stands for the default.
unfoldable pub list_runnable : Db → ℕ → List WorkItem
unfolding works select_sorted stamp_le resolve
list_runnable db zero = works (take 64 (select_sorted (λ e. is_runnable e.status) older db.events))
list_runnable db (suc n) =
    works (take (suc n) (select_sorted (λ e. is_runnable e.status) older db.events))

-- A run of this event that has not ended.
abbrev pub running : String → RunRow → Bool
running event_id r = r.event_id ==ˢ event_id && is_started r.status

-- The WHERE of the claiming UPDATE.
abbrev pub claimable : Db → String → EventRow → Bool
claimable db event_id e =
    e.event_id ==ˢ event_id
    && is_runnable e.status
    && not (exists_where (running e.event_id) db.runs)

abbrev pub as_claimed : String → ℕ → EventRow → EventRow
as_claimed run_id now e = record e {
  status = processing;
  processing_started_at = at now;
  updated_at = at now;
  run_id = run_id;
  run_mode = normal;
}

abbrev pub run_mode_for : String → RunMode
run_mode_for type = if is_no_reply_payload type then no_reply else normal

abbrev pub new_run : String → EventRow → ℕ → RunRow
new_run run_id e now = record {
  run_id = run_id;
  event_id = e.event_id;
  session_key = e.session_key;
  session_id = e.session_id;
  run_mode = run_mode_for e.payload.type;
  status = started;
  provider = "";
  model = "";
  prompt_tokens = 0;
  completion_tokens = 0;
  total_tokens = 0;
  latency_ms = 0;
  finish_reason = "";
  raw_finish_reason = "";
  provider_request_id = "";
  output_text = "";
  tool_calls = [];
  diagnostics = [];
  error_code = "";
  error_message = "";
  started_at = at now;
  finished_at = blank;
}

-- The claimed event, from what RETURNING gave.
abbrev pub claimed_event : String → EventRow → InternalEvent
claimed_event event_id e = record {
  event_id = event_id;
  source = e.source;
  tenant_id = e.tenant_id;
  scopes = [];
  conversation = record {
    conversation_id = e.conversation_id;
    thread_id = "";
    channel_type = e.channel_type;
    participant_id = e.participant_id;
  };
  session_key = e.session_key;
  idempotency_key = e.idempotency_key;
  timestamp = parse_time e.created_at;
  payload = e.payload;
  active_session_id = e.session_id;
}

-- The run's id is the primary key of its table.
unfoldable pub insert_run : RunRow → Tx (Unit {0})
insert_run r db =
    if exists_where (λ (x : RunRow). x.run_id ==ˢ r.run_id) db.runs
    then fail constraint db
    else modify (λ db. record db { runs = r ∷ db.runs }) db

abbrev pub claim_row : String → String → ℕ → EventRow → Tx EventRow
claim_row event_id run_id now e = do
  modify λ db. record db {
    events = update_where (claimable db event_id) (as_claimed run_id now) db.events;
  }
  insert_run (new_run run_id e now)
  modify λ db. record db {
    events =
        update_where (λ (f : EventRow). f.event_id ==ˢ event_id)
          (λ f. record f { run_mode = run_mode_for e.payload.type }) db.events;
  }
  return e

abbrev pub claim_found : String → String → ℕ → Option EventRow → Tx EventRow
claim_found event_id run_id now none = fail no_mutation
claim_found event_id run_id now (some e) = claim_row event_id run_id now e

-- The transaction of `claimEvent`; its result is the row that RETURNING gave.
unfoldable pub claim_tx : String → String → ℕ → Tx EventRow
claim_tx event_id run_id now = do
  found ← read λ db. find_where (claimable db event_id) db.events
  claim_found event_id run_id now found

-- An event that is not to be claimed is no error.
abbrev pub claim_result : String → Result DbError EventRow → Result DbError (Option EventRow)
claim_result event_id (ok e) = if is_empty event_id then ok none else ok (some e)
claim_result event_id (err no_mutation) = ok none
claim_result event_id (err e) = err e

unfoldable pub claim_event : String → String → ℕ → Db → Result DbError (Option EventRow) × Db
unfolding claim_tx insert_run find_where exists_where update_where
claim_event event_id run_id now db =
    let (r, db') = with_writer_tx (claim_tx event_id run_id now) db in
    (claim_result event_id r, db')

abbrev claim_channel : String → String
claim_channel source = if source ==ˢ "telegram" then "telegram" else ""

abbrev pub claim_context : WorkItem → String → EventRow → ClaimContext
claim_context work run_id e =
    let claimed : WorkItem = record work {
      event_id = if is_empty work.event_id then e.event_id else work.event_id;
      session_key = e.session_key;
      source = e.source;
      channel = claim_channel e.source;
    } in
    record {
      work = record claimed { lane_key = resolve claimed };
      event = claimed_event work.event_id e;
      run_id = run_id;
      run_mode = run_mode_for e.payload.type;
      session_key = e.session_key;
      session_id = e.session_id;
      source = e.source;
      channel = claim_channel e.source;
      metadata = [];
    }

abbrev claimed_work :
    WorkItem → String → Result DbError (Option EventRow) → Result DbError (Option ClaimContext)
claimed_work work run_id (ok none) = ok none
claimed_work work run_id (ok (some e)) = ok (some (claim_context work run_id e))
claimed_work work run_id (err e) = err e

-- ClaimWork
unfoldable pub claim_work : WorkItem → String → ℕ → Db → Result DbError (Option ClaimContext) × Db
unfolding claim_event resolve
claim_work work run_id now db =
    let (r, db') = claim_event work.event_id run_id now db in (claimed_work work run_id r, db')
