-- ===== src/Query.antt =====
-- internal/query and internal/store/queries: the listings in pages. A record that is read from a row is
-- kept as the row; `scanEvent` and the like copy its columns.
pub mod Keys
pub mod Pages
pub mod Listing
pub mod History
mod Tests
use simiclaw.Base.{
  ℕ, zero, suc, ◌+◌, ◌-◌, ◌≡◌, refl, String, Bool, true, false, not, ◌&&◌, ◌||◌, Option, none, some,
  List, [], ◌∷◌, ◌++◌, length, keep_if, leb, ◌==◌, ◌==ˢ◌, if◌then◌else◌,
}
use simiclaw.Base.Text.{is_empty, trim_space}
use simiclaw.Base.Time.{Stamp, at, parse_time}
use simiclaw.Model.{EventStatus}
use simiclaw.Store.Tables.{Db, SessionRow, EventRow, RunRow, MessageRow}
use simiclaw.Store.Sql.{find_where}
use simiclaw.Query.Keys.{Key, key_of, key_lt}

-- A cursor's anchor: a time and an id.
abbrev pub Anchor : Type 0
Anchor = ℕ × String

module _ {A : Type 0} where
  abbrev pub take : ℕ → List A → List A
  take zero xs = []
  take (suc n) [] = []
  take (suc n) (x ∷ xs) = x ∷ take n xs

  -- ORDER BY time DESC, id DESC
  abbrev pub insert_desc : (A → Key) → A → List A → List A
  insert_desc key x [] = x ∷ []
  insert_desc key x (y ∷ ys) =
      if key_lt (key x) (key y) then y ∷ insert_desc key x ys else x ∷ y ∷ ys

  unfoldable pub sort_desc : (A → Key) → List A → List A
  unfolding key_lt
  sort_desc key [] = []
  sort_desc key (x ∷ xs) = insert_desc key x (sort_desc key xs)

  abbrev pub reversed : List A → List A
  reversed [] = []
  reversed (x ∷ xs) = reversed xs ++ x ∷ []

abbrev pub is_blank_text : String → Bool
is_blank_text s = is_empty (trim_space s)

-- AND column = ?, where the filter gives a text.
abbrev pub matches : String → String → Bool
matches wanted column = if is_blank_text wanted then true else column ==ˢ wanted

-- AND (time < ? OR (time = ? AND id < ?)), where the cursor is set.
abbrev pub after_anchor : Option Anchor → Key → Bool
after_anchor none k = true
after_anchor (some (time, id)) k =
    if time == 0 || is_blank_text id then true else key_lt k (key_of (at time) id)

-- normalizeListLimit
abbrev pub normalize_list_limit : ℕ → ℕ
normalize_list_limit zero = 50
normalize_list_limit (suc n) = suc n

-- pageFetchLimit
abbrev pub page_fetch_limit : ℕ → ℕ
page_fetch_limit zero = 51
page_fetch_limit (suc n) = suc n + 1

pub record Page (A : Type 0) : Type 0 where
  pub items : List A
  pub next : Option Anchor

abbrev pub last_of : {A : Type 0} → A → List A → A
last_of x [] = x
last_of x (y ∷ ys) = last_of y ys

abbrev pub anchor_of_last : {A : Type 0} → (A → Anchor) → List A → Option Anchor
anchor_of_last anchor [] = none
anchor_of_last anchor (x ∷ xs) = some (anchor (last_of x xs))

-- buildEventPage, buildRunPage and buildSessionPage
unfoldable pub build_page : {A : Type 0} → (A → Anchor) → List A → ℕ → Page A
build_page anchor items limit =
    if limit == 0 || leb (length items) limit
    then record { items = items; next = none }
    else record { items = take limit items; next = anchor_of_last anchor (take limit items) }

pub record EventFilter : Type 0 where
  pub session_key : String
  pub status : Option EventStatus
  pub limit : ℕ
  pub cursor : Option Anchor

pub record RunFilter : Type 0 where
  pub session_key : String
  pub session_id : String
  pub limit : ℕ
  pub cursor : Option Anchor

pub record SessionFilter : Type 0 where
  pub session_key : String
  pub conversation_id : String
  pub limit : ℕ
  pub cursor : Option Anchor

pub record SessionHistoryFilter : Type 0 where
  pub session_id : String
  pub visible_only : Bool
  pub limit : ℕ
  pub cursor : Option Anchor

abbrev same_status : EventStatus → EventStatus → Bool
same_status EventStatus.received EventStatus.received = true
same_status EventStatus.queued EventStatus.queued = true
same_status EventStatus.processing EventStatus.processing = true
same_status EventStatus.processed EventStatus.processed = true
same_status EventStatus.suppressed EventStatus.suppressed = true
same_status EventStatus.failed EventStatus.failed = true
same_status _ _ = false

abbrev has_status : Option EventStatus → EventStatus → Bool
has_status none s = true
has_status (some wanted) s = same_status s wanted

abbrev pub event_key : EventRow → Key
event_key e = key_of e.created_at e.event_id

abbrev pub event_matches : EventFilter → EventRow → Bool
event_matches f e = matches f.session_key e.session_key && has_status f.status e.status

-- ListEventRecords
unfoldable pub list_event_records : Db → EventFilter → List EventRow
unfolding sort_desc key_lt trim_space
list_event_records db f = take (normalize_list_limit f.limit) (
    keep_if (λ e. event_matches f e && after_anchor f.cursor (event_key e))
      (sort_desc event_key db.events))

abbrev pub event_anchor : EventRow → Anchor
event_anchor e = (parse_time e.created_at, e.event_id)

-- ListEvents
unfoldable pub list_events : Db → EventFilter → Page EventRow
unfolding list_event_records build_page
list_events db f =
    let limit = page_fetch_limit f.limit in
    build_page event_anchor (list_event_records db (record f { limit = limit })) (limit - 1)

abbrev pub run_key : RunRow → Key
run_key r = key_of r.started_at r.run_id

abbrev pub run_matches : RunFilter → RunRow → Bool
run_matches f r = matches f.session_key r.session_key && matches f.session_id r.session_id

-- ListRunTraces
unfoldable pub list_run_traces : Db → RunFilter → List RunRow
unfolding sort_desc key_lt trim_space
list_run_traces db f = take (normalize_list_limit f.limit) (
    keep_if (λ r. run_matches f r && after_anchor f.cursor (run_key r)) (sort_desc run_key db.runs))

abbrev pub run_anchor : RunRow → Anchor
run_anchor r = (parse_time r.started_at, r.run_id)

-- ListRuns
unfoldable pub list_runs : Db → RunFilter → Page RunRow
unfolding list_run_traces build_page
list_runs db f =
    let limit = page_fetch_limit f.limit in
    build_page run_anchor (list_run_traces db (record f { limit = limit })) (limit - 1)

abbrev pub session_row_key : SessionRow → Key
session_row_key s = key_of s.last_activity_at s.session_key

abbrev pub session_matches : SessionFilter → SessionRow → Bool
session_matches f s =
    matches f.session_key s.session_key && matches f.conversation_id s.conversation_id

-- ListSessionRecords
unfoldable pub list_session_records : Db → SessionFilter → List SessionRow
unfolding sort_desc key_lt trim_space
list_session_records db f = take (normalize_list_limit f.limit) (
    keep_if (λ s. session_matches f s && after_anchor f.cursor (session_row_key s))
      (sort_desc session_row_key db.sessions))

abbrev pub session_anchor : SessionRow → Anchor
session_anchor s = (parse_time s.last_activity_at, s.session_key)

-- ListSessions
unfoldable pub list_sessions : Db → SessionFilter → Page SessionRow
unfolding list_session_records build_page
list_sessions db f =
    let limit = page_fetch_limit f.limit in
    build_page session_anchor (list_session_records db (record f { limit = limit })) (limit - 1)

abbrev pub message_key : MessageRow → Key
message_key m = key_of m.created_at m.message_id

-- A cursor with an id alone stands a day in the future; `tomorrow` is that reading of the clock.
abbrev message_cursor : ℕ → Option Anchor → Key → Bool
message_cursor tomorrow none k = true
message_cursor tomorrow (some (time, id)) k =
    if time == 0
    then (if is_empty id then true else key_lt k (key_of (at tomorrow) id))
    else key_lt k (key_of (at time) id)

abbrev pub message_matches : SessionHistoryFilter → MessageRow → Bool
message_matches f m = m.session_id ==ˢ f.session_id && (not f.visible_only || m.visible)

-- ListMessageRecords
unfoldable pub list_message_records : ℕ → Db → SessionHistoryFilter → List MessageRow
unfolding sort_desc key_lt
list_message_records tomorrow db f = reversed (
    take (normalize_list_limit f.limit) (
      keep_if (λ m. message_matches f m && message_cursor tomorrow f.cursor (message_key m))
        (sort_desc message_key db.messages)))

abbrev pub message_anchor : MessageRow → Anchor
message_anchor m = (parse_time m.created_at, m.message_id)

-- What follows the oldest message, and the anchor of its first one.
abbrev without_oldest : List MessageRow → Page MessageRow
without_oldest [] = record { items = []; next = none }
without_oldest (oldest ∷ []) = record { items = []; next = none }
without_oldest (oldest ∷ first ∷ rest) = record {
  items = first ∷ rest;
  next = some (message_anchor first);
}

-- buildMessagePage
unfoldable pub build_message_page : List MessageRow → ℕ → Page MessageRow
build_message_page items limit =
    if limit == 0 || leb (length items) limit
    then record { items = items; next = none }
    else without_oldest items

-- ListSessionHistory
unfoldable pub list_session_history : ℕ → Db → SessionHistoryFilter → Page MessageRow
unfolding list_message_records build_message_page
list_session_history tomorrow db f =
    let limit = page_fetch_limit f.limit in
    build_message_page (list_message_records tomorrow db (record f { limit = limit })) (limit - 1)

-- GetEventRecord, GetRunTrace and GetSessionRecord
unfoldable pub get_event_record : Db → String → Option EventRow
unfolding find_where
get_event_record db id = find_where (λ e. e.event_id ==ˢ id) db.events

unfoldable pub get_run_trace : Db → String → Option RunRow
unfolding find_where
get_run_trace db id = find_where (λ r. r.run_id ==ˢ id) db.runs

unfoldable pub get_session_record : Db → String → Option SessionRow
unfolding find_where
get_session_record db key = find_where (λ s. s.session_key ==ˢ key) db.sessions
