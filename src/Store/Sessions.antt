-- ===== src/Store/Sessions.antt =====
-- internal/store/projections/sessions.go: the sessions table, a cache over messages and runs.
use simiclaw.Base.{
  ℕ, String, Bool, true, false, ◌&&◌, ◌||◌, Option, none, some, ◌∷◌, ◌==ˢ◌, if◌then◌else◌, length,
  keep_if, total,
}
use simiclaw.Base.Time.{Stamp, at, stamp_le}
use simiclaw.Model.{Conversation, RunStatus, completed}
use simiclaw.Store.Tables.{Db, SessionRow, MessageRow, RunRow}
use simiclaw.Store.Sql.{
  Tx, ◌>>=◌, ◌>>◌, return, read, modify, id_at, update_where, find_where, least_where, text_before,
}

abbrev session_of : String → SessionRow → Bool
session_of key s = s.session_key ==ˢ key

abbrev pub new_session : String → String → Conversation → String → ℕ → SessionRow
new_session key id conv dm_scope now = record {
  session_key = key;
  active_session_id = id;
  conversation_id = conv.conversation_id;
  channel_type = conv.channel_type;
  participant_id = conv.participant_id;
  dm_scope = dm_scope;
  message_count = 0;
  prompt_tokens_total = 0;
  completion_tokens_total = 0;
  total_tokens_total = 0;
  last_model = "";
  last_run_id = "";
  last_activity_at = at now;
  created_at = at now;
  updated_at = at now;
}

abbrev pub session_found : String → Conversation → String → ℕ → Option SessionRow → Tx String
session_found key conv dm_scope now (some s) = return s.active_session_id
session_found key conv dm_scope now none = do
  modify λ db. record db {
    sessions = new_session key (id_at "ses_" now) conv dm_scope now ∷ db.sessions;
  }
  return (id_at "ses_" now)

-- ResolveSessionTx
unfoldable pub resolve_session : String → Conversation → String → ℕ → Tx String
unfolding find_where
resolve_session key conv dm_scope now = do
  found ← read λ db. find_where (session_of key) db.sessions
  session_found key conv dm_scope now found

abbrev is_counted_role : String → Bool
is_counted_role role = role ==ˢ "user" || role ==ˢ "assistant" || role ==ˢ "tool"

abbrev pub counted_message : String → MessageRow → Bool
counted_message key m = m.session_key ==ˢ key && m.visible && is_counted_role m.role

abbrev is_completed : RunStatus → Bool
is_completed completed = true
is_completed _ = false

abbrev pub completed_run : String → RunRow → Bool
completed_run key r = r.session_key ==ˢ key && is_completed r.status

-- ORDER BY finished_at DESC, run_id DESC
abbrev later_run : RunRow → RunRow → Bool
later_run r t =
    if stamp_le r.finished_at t.finished_at
    then (if stamp_le t.finished_at r.finished_at then text_before t.run_id r.run_id else false)
    else true

abbrev last_model_of : Option RunRow → String
last_model_of none = ""
last_model_of (some r) = r.model

abbrev last_id_of : Option RunRow → String
last_id_of none = ""
last_id_of (some r) = r.run_id

abbrev last_activity_of : ℕ → Option RunRow → Stamp
last_activity_of now none = at now
last_activity_of now (some r) = r.finished_at

-- What `RecomputeSessionAggregateTx` writes to the row of the session.
unfoldable pub aggregate : Db → String → ℕ → SessionRow → SessionRow
unfolding total least_where stamp_le
aggregate db key now s =
    let done = keep_if (completed_run key) db.runs in
    let last = least_where (completed_run key) later_run db.runs in
    record s {
      message_count = length (keep_if (counted_message key) db.messages);
      prompt_tokens_total = total (λ r. r.prompt_tokens) done;
      completion_tokens_total = total (λ r. r.completion_tokens) done;
      total_tokens_total = total (λ r. r.total_tokens) done;
      last_model = last_model_of last;
      last_run_id = last_id_of last;
      last_activity_at = last_activity_of now last;
      updated_at = at now;
    }

-- RecomputeSessionAggregateTx
unfoldable pub recompute_session_aggregate : String → ℕ → Tx (Unit {0})
unfolding update_where
recompute_session_aggregate key now =
    modify λ db. record db {
      sessions = update_where (session_of key) (aggregate db key now) db.sessions;
    }
