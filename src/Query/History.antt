-- ===== src/Query/History.antt =====
-- internal/store/queries: history.go, the history that a run is given, and LookupEvent of events.go.
pub mod Continued
use simiclaw.Base.{
  ℕ, zero, suc, String, Bool, true, false, Option, none, some, List, [], ◌∷◌, map, ◌==ˢ◌,
  if◌then◌else◌,
}
use simiclaw.Base.Time.{stamp_le}
use simiclaw.Store.Tables.{Db, MessageRow, KeyRow}
use simiclaw.Store.Sql.{select_sorted, find_where}
use simiclaw.Runner.Model.{HistoryMessage, field_of}
use simiclaw.Runner.History.{is_skipped}
use simiclaw.Query.{take, reversed}

abbrev pub in_session : String → MessageRow → Bool
in_session session_id m = m.session_id ==ˢ session_id

-- ORDER BY created_at DESC, fts_rowid DESC, for rows of which the one with the greater rowid is given first.
unfoldable pub newer : MessageRow → MessageRow → Bool
unfolding stamp_le
newer m older = stamp_le older.created_at m.created_at

abbrev pub history_row : MessageRow → HistoryMessage
history_row m = record {
  role = m.role;
  content = m.content;
  tool_calls = m.tool_calls;
  tool_call_id = m.tool_call_id;
  tool_name = m.tool_name;
  meta = m.meta;
}

-- The rows that both statements read, the newest first.
unfoldable pub session_rows : Db → String → List HistoryMessage
unfolding select_sorted newer
session_rows db session_id =
    map history_row (select_sorted (in_session session_id) newer db.messages)

abbrev or_default : ℕ → ℕ
or_default zero = 20
or_default (suc n) = suc n

-- LoadRecentHistory
unfoldable pub load_recent_history : Db → String → ℕ → List HistoryMessage
unfolding session_rows
load_recent_history db session_id limit =
    reversed (take (or_default limit) (session_rows db session_id))

-- The loop of LoadPromptHistory; the number is that of the messages that are still taken.
unfoldable pub prompt_rows : ℕ → List HistoryMessage → List HistoryMessage
unfolding field_of
prompt_rows zero rows = []
prompt_rows (suc n) [] = []
prompt_rows (suc n) (m ∷ rows) =
    let rest = prompt_rows (if is_skipped m then suc n else n) rows in
    if is_skipped m then rest else m ∷ rest

-- LoadPromptHistory
unfoldable pub load_prompt_history : Db → String → ℕ → List HistoryMessage
unfolding session_rows prompt_rows
load_prompt_history db session_id limit =
    reversed (prompt_rows (or_default limit) (session_rows db session_id))

-- LookupEvent
unfoldable pub lookup_event : Db → String → Option KeyRow
unfolding find_where
lookup_event db key = find_where (λ (k : KeyRow). k.key ==ˢ key) db.keys
