-- ===== src/Store/Finalize.antt =====
-- internal/store/tx/finalize_run.go: the end of a run, in one transaction.
pub mod Rows
pub mod Outcome
use simiclaw.Base.{
  ℕ, String, Bool, true, false, not, ◌&&◌, Option, none, some, List, [], ◌∷◌, ◌==ˢ◌, if◌then◌else◌,
}
use simiclaw.Base.Text.{trim_space, is_empty}
use simiclaw.Base.Time.{at, blank}
use simiclaw.Model.{EventStatus, processed, OutboxStatus, pending, ErrorBlock}
use simiclaw.Model.Run.{StoredMessage, FinalizeCommand}
use simiclaw.Store.Tables.{Db, MessageRow, RunRow, EventRow, OutboxRow}
use simiclaw.Store.Sql.{
  Tx, ◌>>=◌, ◌>>◌, return, fail, modify, id_at, update_where, exists_where, constraint,
}
use simiclaw.Store.Sessions.{recompute_session_aggregate}

abbrev pub message_row : StoredMessage → MessageRow
message_row m = record {
  message_id = m.message_id;
  session_key = m.session_key;
  session_id = m.session_id;
  run_id = m.run_id;
  role = m.role;
  content = m.content;
  visible = m.visible;
  tool_call_id = m.tool_call_id;
  tool_name = m.tool_name;
  tool_args = m.tool_args;
  tool_result = m.tool_result;
  meta = m.meta;
  tool_calls = m.tool_calls;
  created_at = at m.created_at;
}

-- A message's id is unique.
abbrev pub insert_message : MessageRow → Tx (Unit {0})
insert_message m db =
    if exists_where (λ (x : MessageRow). x.message_id ==ˢ m.message_id) db.messages
    then fail constraint db
    else modify (λ db. record db { messages = m ∷ db.messages }) db

-- The loop over the command's messages.
unfoldable pub insert_messages : List StoredMessage → Tx (Unit {0})
unfolding exists_where
insert_messages [] = return tt
insert_messages (m ∷ ms) = insert_message (message_row m) >> insert_messages ms

abbrev pub error_code_of : Option ErrorBlock → String
error_code_of none = ""
error_code_of (some e) = e.code

abbrev pub error_message_of : Option ErrorBlock → String
error_message_of none = ""
error_message_of (some e) = e.message

abbrev pub finished_run : FinalizeCommand → RunRow → RunRow
finished_run cmd r = record r {
  run_mode = cmd.run_mode;
  status = cmd.run_status;
  provider = cmd.provider;
  model = cmd.model;
  prompt_tokens = cmd.prompt_tokens;
  completion_tokens = cmd.completion_tokens;
  total_tokens = cmd.total_tokens;
  latency_ms = cmd.latency_ms;
  finish_reason = cmd.finish_reason;
  raw_finish_reason = cmd.raw_finish_reason;
  provider_request_id = cmd.provider_request_id;
  output_text = cmd.output_text;
  tool_calls = cmd.tool_calls;
  diagnostics = cmd.diagnostics;
  error_code = error_code_of cmd.error;
  error_message = error_message_of cmd.error;
  finished_at = at cmd.now;
}

abbrev pub update_run : FinalizeCommand → Tx (Unit {0})
update_run cmd = modify λ db. record db {
  runs = update_where (λ (r : RunRow). r.run_id ==ˢ cmd.run_id) (finished_run cmd) db.runs;
}

abbrev pub is_processed : EventStatus → Bool
is_processed processed = true
is_processed _ = false

-- Whether the command has a reply to deliver.
unfoldable pub has_delivery : FinalizeCommand → Bool
unfolding trim_space
has_delivery cmd = not (is_empty (trim_space cmd.outbox_body)) && is_processed cmd.event_status

abbrev pub new_outbox : FinalizeCommand → OutboxRow
new_outbox cmd = record {
  outbox_id = id_at "out_" cmd.now;
  event_id = cmd.event_id;
  session_key = cmd.session_key;
  channel = cmd.outbox_channel;
  target_id = cmd.outbox_target_id;
  body = cmd.outbox_body;
  status = pending;
  next_attempt_at = at cmd.now;
  locked_at = blank;
  lock_owner = "";
  attempt_count = 0;
  last_error = "";
  created_at = at cmd.now;
  updated_at = at cmd.now;
  sent_at = blank;
}

-- The outbox id is the primary key of its table.
unfoldable pub insert_outbox : OutboxRow → Tx (Unit {0})
unfolding exists_where
insert_outbox o db =
    if exists_where (λ (x : OutboxRow). x.outbox_id ==ˢ o.outbox_id) db.outbox
    then fail constraint db
    else modify (λ db. record db { outbox = o ∷ db.outbox }) db

-- The outbox step: the id and the status that the event gets.
unfoldable pub deliver_if : Bool → FinalizeCommand → Tx (String × Option OutboxStatus)
unfolding insert_outbox
deliver_if true cmd = insert_outbox (new_outbox cmd) >> return (id_at "out_" cmd.now, some pending)
deliver_if false cmd = return ("", none)

abbrev pub finished_event : FinalizeCommand → String × Option OutboxStatus → EventRow → EventRow
finished_event cmd out e = record e {
  status = cmd.event_status;
  run_id = cmd.run_id;
  run_mode = cmd.run_mode;
  assistant_reply = cmd.assistant_reply;
  outbox_id = out.0;
  outbox_status = out.1;
  processing_started_at = blank;
  provider = cmd.provider;
  model = cmd.model;
  provider_request_id = cmd.provider_request_id;
  error_code = error_code_of cmd.error;
  error_message = error_message_of cmd.error;
  updated_at = at cmd.now;
}

abbrev pub update_event : FinalizeCommand → String × Option OutboxStatus → Tx (Unit {0})
update_event cmd out = modify λ db. record db {
  events =
      update_where (λ (e : EventRow). e.event_id ==ˢ cmd.event_id) (finished_event cmd out)
        db.events;
}

-- From the outbox step on.
abbrev pub finish : FinalizeCommand → Tx (Unit {0})
finish cmd = do
  out ← deliver_if (has_delivery cmd) cmd
  update_event cmd out
  recompute_session_aggregate cmd.session_key cmd.now

-- Finalize
unfoldable pub finalize : FinalizeCommand → Tx (Unit {0})
unfolding insert_messages deliver_if has_delivery update_where recompute_session_aggregate
finalize cmd = do insert_messages cmd.messages; update_run cmd; finish cmd
