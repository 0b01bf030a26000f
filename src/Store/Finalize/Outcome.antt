-- ===== src/Store/Finalize/Outcome.antt =====
-- internal/store/tx/finalize_run.go: what a finalize makes of each row.
use simiclaw.Base.{
  ◌≡◌, ◌≢◌, refl, ◌⊎◌, inl, inr, String, Bool, true, false, not, ◌&&◌, Option, none, some, List, [],
  ◌∷◌, ◌==ˢ◌, Bool-cases,
}
use simiclaw.Base.Result.{ok}
use simiclaw.Base.Text.{trim_space, is_empty}
use simiclaw.Base.Time.{at, blank}
use simiclaw.Model.{EventStatus, processed, OutboxStatus, pending, ErrorBlock}
use simiclaw.Model.Run.{StoredMessage, FinalizeCommand}
use simiclaw.Store.Tables.{Db, MessageRow, RunRow, EventRow, OutboxRow}
use simiclaw.Store.Sql.{id_at, update_where}
use simiclaw.Store.Finalize.{
  message_row, finished_run, is_processed, has_delivery, new_outbox, finished_event, finalize,
  error_code_of, error_message_of,
}
use simiclaw.Store.Finalize.Rows.{finalize_lem, stored, delivery, delivered}

-- A row holds a message of the command.
pub record Holds (m : StoredMessage) (x : MessageRow) : Type 0 where
  pub message_id : x.message_id ≡ m.message_id
  pub session_key : x.session_key ≡ m.session_key
  pub session_id : x.session_id ≡ m.session_id
  pub run_id : x.run_id ≡ m.run_id
  pub role : x.role ≡ m.role
  pub content : x.content ≡ m.content
  pub visible : x.visible ≡ m.visible
  pub tool_call_id : x.tool_call_id ≡ m.tool_call_id
  pub tool_name : x.tool_name ≡ m.tool_name
  pub tool_args : x.tool_args ≡ m.tool_args
  pub tool_result : x.tool_result ≡ m.tool_result
  pub meta : x.meta ≡ m.meta
  pub tool_calls : x.tool_calls ≡ m.tool_calls
  pub created_at : x.created_at ≡ at m.created_at

-- One row more for each message, in their order; the newest row is the first one.
abbrev Appended : List StoredMessage → List MessageRow → List MessageRow → Type 0
Appended [] rows rows' = rows' ≡ rows
Appended (m ∷ ms) rows rows' = (x : MessageRow) × Holds m x × Appended ms (x ∷ rows) rows'

stored-Appended :
    (ms : List StoredMessage) (rows : List MessageRow) → Appended ms rows (stored ms rows)
stored-Appended [] rows = refl
stored-Appended (m ∷ ms) rows = (
  message_row m,
  record {
    message_id = refl;
    session_key = refl;
    session_id = refl;
    run_id = refl;
    role = refl;
    content = refl;
    visible = refl;
    tool_call_id = refl;
    tool_name = refl;
    tool_args = refl;
    tool_result = refl;
    meta = refl;
    tool_calls = refl;
    created_at = refl;
  },
  stored-Appended ms (message_row m ∷ rows),
)

-- The rows with an id are changed as `R` says, the others stay, and none comes or goes.
abbrev Changed : {A : Type 0} → (A → String) → String → (A → A → Type 0) → List A → List A → Type 0
Changed id k R [] [] = Unit
Changed id k R [] (y ∷ ys) = ⊥
Changed id k R (x ∷ xs) [] = ⊥
Changed id k R (x ∷ xs) (y ∷ ys) =
    (((id x ==ˢ k) ≡ true × R x y) ⊎ ((id x ==ˢ k) ≡ false × (y ≡ x))) × Changed id k R xs ys

update_where-Changed :
    {A : Type 0} (id : A → String) (k : String) (R : A → A → Type 0) (f : A → A)
    → ((x : A) → R x (f x))
    → (xs : List A) → Changed id k R xs (update_where (λ x. id x ==ˢ k) f xs)
unfolding update_where
update_where-Changed id k R f h [] = tt
update_where-Changed id k R f h (x ∷ xs) = (
  elim (Bool-cases (id x ==ˢ k)) [
    | inl e ↦ rw e (inl (refl, h x))
    | inr e ↦ rw e (inr (refl, refl))
  ],
  update_where-Changed id k R f h xs,
)

-- The error's columns are blank where the run had no error.
abbrev Error : Option ErrorBlock → String → String → Type 0
Error none code message = (code ≡ "") × (message ≡ "")
Error (some e) code message = (code ≡ e.code) × (message ≡ e.message)

error-Error : (e : Option ErrorBlock) → Error e (error_code_of e) (error_message_of e)
error-Error none = (refl, refl)
error-Error (some e) = (refl, refl)

-- The run has ended with the command's outcome, and is the run of the same event as before.
pub record RunEnded (cmd : FinalizeCommand) (r r' : RunRow) : Type 0 where
  pub same_run : r'.run_id ≡ r.run_id
  pub same_event : r'.event_id ≡ r.event_id
  pub same_session : (r'.session_key ≡ r.session_key) × (r'.session_id ≡ r.session_id)
  pub same_start : r'.started_at ≡ r.started_at
  pub status : r'.status ≡ cmd.run_status
  pub run_mode : r'.run_mode ≡ cmd.run_mode
  pub provider : r'.provider ≡ cmd.provider
  pub model : r'.model ≡ cmd.model
  pub tokens :
      (r'.prompt_tokens ≡ cmd.prompt_tokens)
      × (r'.completion_tokens ≡ cmd.completion_tokens)
      × (r'.total_tokens ≡ cmd.total_tokens)
  pub latency_ms : r'.latency_ms ≡ cmd.latency_ms
  pub finish_reason : r'.finish_reason ≡ cmd.finish_reason
  pub raw_finish_reason : r'.raw_finish_reason ≡ cmd.raw_finish_reason
  pub provider_request_id : r'.provider_request_id ≡ cmd.provider_request_id
  pub output_text : r'.output_text ≡ cmd.output_text
  pub tool_calls : r'.tool_calls ≡ cmd.tool_calls
  pub diagnostics : r'.diagnostics ≡ cmd.diagnostics
  pub error : Error cmd.error r'.error_code r'.error_message
  pub finished_at : r'.finished_at ≡ at cmd.now

finished_run-RunEnded : (cmd : FinalizeCommand) (r : RunRow) → RunEnded cmd r (finished_run cmd r)
finished_run-RunEnded cmd r = record {
  same_run = refl;
  same_event = refl;
  same_session = (refl, refl);
  same_start = refl;
  status = refl;
  run_mode = refl;
  provider = refl;
  model = refl;
  tokens = (refl, refl, refl);
  latency_ms = refl;
  finish_reason = refl;
  raw_finish_reason = refl;
  provider_request_id = refl;
  output_text = refl;
  tool_calls = refl;
  diagnostics = refl;
  error = error-Error cmd.error;
  finished_at = refl;
}

-- A reply that waits for its first attempt at once, and that nobody holds.
pub record Fresh (cmd : FinalizeCommand) (o : OutboxRow) : Type 0 where
  pub outbox_id : o.outbox_id ≡ id_at "out_" cmd.now
  pub event_id : o.event_id ≡ cmd.event_id
  pub session_key : o.session_key ≡ cmd.session_key
  pub channel : o.channel ≡ cmd.outbox_channel
  pub target_id : o.target_id ≡ cmd.outbox_target_id
  pub body : o.body ≡ cmd.outbox_body
  pub status : o.status ≡ pending
  pub due : o.next_attempt_at ≡ at cmd.now
  pub no_lock : (o.locked_at ≡ blank) × (o.lock_owner ≡ "")
  pub no_attempt : (o.attempt_count ≡ 0) × (o.last_error ≡ "") × (o.sent_at ≡ blank)
  pub times : (o.created_at ≡ at cmd.now) × (o.updated_at ≡ at cmd.now)

-- What the outbox gets: a reply exactly if its text is not blank and the event is processed.
abbrev Queued : FinalizeCommand → Option OutboxRow → List OutboxRow → List OutboxRow → Type 0
Queued cmd none rows rows' =
    ((is_empty (trim_space cmd.outbox_body) ≡ true) ⊎ (cmd.event_status ≢ processed))
    × (rows' ≡ rows)
Queued cmd (some o) rows rows' =
    (is_empty (trim_space cmd.outbox_body) ≡ false)
    × (cmd.event_status ≡ processed)
    × Fresh cmd o
    × (rows' ≡ o ∷ rows)

-- The event's columns of its reply.
abbrev ReplyOf : Option OutboxRow → EventRow → Type 0
ReplyOf none e = (e.outbox_id ≡ "") × (e.outbox_status ≡ none)
ReplyOf (some o) e = (e.outbox_id ≡ o.outbox_id) × (e.outbox_status ≡ some o.status)

-- The event has ended with the command's outcome under the command's run, whatever run it had, and
-- has no lease.
pub record EventEnded (cmd : FinalizeCommand) (reply : Option OutboxRow) (e e' : EventRow)
    : Type 0 where
  pub same_event : e'.event_id ≡ e.event_id
  pub same_session : (e'.session_key ≡ e.session_key) × (e'.session_id ≡ e.session_id)
  pub same_payload : (e'.payload ≡ e.payload) × (e'.payload_hash ≡ e.payload_hash)
  pub same_key : e'.idempotency_key ≡ e.idempotency_key
  pub same_creation : e'.created_at ≡ e.created_at
  pub status : e'.status ≡ cmd.event_status
  pub run_id : e'.run_id ≡ cmd.run_id
  pub run_mode : e'.run_mode ≡ cmd.run_mode
  pub assistant_reply : e'.assistant_reply ≡ cmd.assistant_reply
  pub replied : ReplyOf reply e'
  pub no_lease : e'.processing_started_at ≡ blank
  pub provider : e'.provider ≡ cmd.provider
  pub model : e'.model ≡ cmd.model
  pub provider_request_id : e'.provider_request_id ≡ cmd.provider_request_id
  pub error : Error cmd.error e'.error_code e'.error_message
  pub updated_at : e'.updated_at ≡ at cmd.now

finished_event-EventEnded :
    (cmd : FinalizeCommand) (reply : Option OutboxRow) (out : String × Option OutboxStatus)
    → ((e : EventRow) → ReplyOf reply (finished_event cmd out e))
    → (e : EventRow) → EventEnded cmd reply e (finished_event cmd out e)
finished_event-EventEnded cmd reply out h e = record {
  same_event = refl;
  same_session = (refl, refl);
  same_payload = (refl, refl);
  same_key = refl;
  same_creation = refl;
  status = refl;
  run_id = refl;
  run_mode = refl;
  assistant_reply = refl;
  replied = h e;
  no_lease = refl;
  provider = refl;
  model = refl;
  provider_request_id = refl;
  error = error-Error cmd.error;
  updated_at = refl;
}

pub record Outcome (cmd : FinalizeCommand) (db db' : Db) : Type 0 where
  pub reply : Option OutboxRow
  pub messages : Appended cmd.messages db.messages db'.messages
  pub runs : Changed (λ (r : RunRow). r.run_id) cmd.run_id (RunEnded cmd) db.runs db'.runs
  pub outbox : Queued cmd reply db.outbox db'.outbox
  pub events :
      Changed
        (λ (e : EventRow). e.event_id)
        cmd.event_id
        (EventEnded cmd reply)
        db.events
        db'.events
  pub keys : db'.keys ≡ db.keys

-- Whether a reply is due, told by the two conditions.
due :
    (blank_ : Bool) (status : EventStatus)
    → not blank_ && is_processed status ≡ true
    → (blank_ ≡ false) × (status ≡ processed)
due false processed h = (refl, refl)
due false EventStatus.received h = absurd (cc)
due false EventStatus.queued h = absurd (cc)
due false EventStatus.processing h = absurd (cc)
due false EventStatus.suppressed h = absurd (cc)
due false EventStatus.failed h = absurd (cc)
due true status h = absurd (cc)

not_due :
    (blank_ : Bool) (status : EventStatus)
    → not blank_ && is_processed status ≡ false
    → (blank_ ≡ true) ⊎ (status ≢ processed)
not_due true status h = inl refl
not_due false status h = inr (other status h)
  where
    other : (status : EventStatus) → is_processed status ≡ false → status ≢ processed
    other status h e = cc

new_outbox-Fresh : (cmd : FinalizeCommand) → Fresh cmd (new_outbox cmd)
new_outbox-Fresh cmd = record {
  outbox_id = refl;
  event_id = refl;
  session_key = refl;
  channel = refl;
  target_id = refl;
  body = refl;
  status = refl;
  due = refl;
  no_lock = (refl, refl);
  no_attempt = (refl, refl, refl);
  times = (refl, refl);
}

-- The reply of a command, and what the outbox and the event's row have of it.
reply_of :
    (cmd : FinalizeCommand) (rows : List OutboxRow) (b : Bool)
    → has_delivery cmd ≡ b
    → (reply : Option OutboxRow) × Queued cmd reply rows (delivered b cmd rows)
      × ((e : EventRow) → ReplyOf reply (finished_event cmd (delivery b cmd) e))
unfolding has_delivery
reply_of cmd rows true h =
    let (text, status) = due (is_empty (trim_space cmd.outbox_body)) cmd.event_status h in
    (some (new_outbox cmd), (text, status, new_outbox-Fresh cmd, refl), λ e. (refl, refl))
reply_of cmd rows false h = (
  none,
  (not_due (is_empty (trim_space cmd.outbox_body)) cmd.event_status h, refl),
  λ e. (refl, refl),
)

-- Finalize, where it succeeds, and whatever run the event's row belonged to: the messages of the
-- command are appended in their order with all that they hold; the rows of the command's run have
-- ended with its outcome, and the other runs stay; the outbox gets a pending row of the reply exactly
-- if the reply's text is not blank and the event is processed; the rows of the command's event have the
-- command's status and run, the reply and no lease any more, and the other events stay; no
-- idempotency key changes.
pub finalize-Outcome :
    (cmd : FinalizeCommand) (db db' : Db) → finalize cmd db ≡ ok (tt, db') → Outcome cmd db db'
finalize-Outcome cmd db db' h =
    let rows = finalize_lem cmd db db' h in
    let (reply, queued, shown) = reply_of cmd db.outbox (has_delivery cmd) refl in
    record {
      reply = reply;
      messages = rw rows.messages_stored (stored-Appended cmd.messages db.messages);
      runs = rw rows.run_finished (
          update_where-Changed (λ (r : RunRow). r.run_id) cmd.run_id (RunEnded cmd)
            (finished_run cmd) (finished_run-RunEnded cmd) db.runs);
      outbox = rw rows.reply_queued queued;
      events = rw rows.event_finished (
          update_where-Changed (λ (e : EventRow). e.event_id) cmd.event_id (EventEnded cmd reply)
            (finished_event cmd (delivery (has_delivery cmd) cmd))
            (finished_event-EventEnded cmd reply (delivery (has_delivery cmd) cmd) shown)
            db.events);
      keys = rows.keys_kept;
    }
