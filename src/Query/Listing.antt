-- ===== src/Query/Listing.antt =====
-- internal/query: the pages of events, of runs and of sessions.
use simiclaw.Base.{
  ℕ, zero, suc, ◌-◌, ◌<◌, ◌≡◌, ◌≢◌, refl, ap, ◌∙◌, String, false, none, some, List, length, keep_if,
  arith, All, NoTwo, All-map,
}
use simiclaw.Base.Time.{Stamp, at, parse_time}
use simiclaw.Store.Tables.{Db, EventRow, RunRow, SessionRow}
use simiclaw.Query.{
  Anchor, EventFilter, RunFilter, SessionFilter, take, sort_desc, is_blank_text, page_fetch_limit,
  normalize_list_limit, build_page, event_key, event_anchor, event_matches, list_event_records,
  list_events, run_key, run_anchor, run_matches, list_run_traces, list_runs, session_row_key,
  session_anchor, session_matches, list_session_records, list_sessions,
}
use simiclaw.Query.Keys.{key_of}
use simiclaw.Query.Pages.{collect, collect_lem}
use simiclaw.Query.Pages.Order.{NoTwo-DistinctIds}

-- A time column that holds a time other than the zero time, and an id that is not blank.
abbrev pub Placed : Stamp → String → Type 0
Placed time id = (time ≡ at (parse_time time)) × (parse_time time ≢ 0) × (is_blank_text id ≡ false)

Placed-key :
    (time : Stamp) (id : String)
    → Placed time id
    → key_of time id ≡ key_of (at (parse_time time)) id
Placed-key time id h = ap (λ t. key_of t id) h.0

-- The number of records on a full page, less one.
abbrev full_size : ℕ → ℕ
full_size zero = 49
full_size (suc n) = n

fetched : (n : ℕ) → page_fetch_limit n ≡ suc (suc (full_size n))
fetched zero = refl
fetched (suc n) = omega arith

page_form :
    {A : Type 0} (anchor : A → Anchor) (n : ℕ) (xs : List A)
    → build_page anchor
        (take (normalize_list_limit (page_fetch_limit n)) xs)
        (page_fetch_limit n - 1)
      ≡ build_page anchor (take (suc (suc (full_size n))) xs) (suc (full_size n))
page_form anchor n xs =
    ap (λ k. build_page anchor (take (normalize_list_limit k) xs) (k - 1)) (fetched n)
    ∙ ap (λ k. build_page anchor (take (suc (suc (full_size n))) xs) k) (less_one (full_size n))
  where
    less_one : (k : ℕ) → suc (suc k) - 1 ≡ suc k
    less_one k = omega arith

-- Whoever follows the cursors of the listed events from the first page on is at the end after at most one
-- page more than there are events, whatever the pages' size, and got the events that the filter wants, each
-- once and in the order of the listing, if the ids of the events differ and are not blank and their times
-- are set.
pub list_events-collect :
    (db : Db) (f : EventFilter) (fuel : ℕ)
    → NoTwo (λ (e : EventRow). e.event_id) db.events
    → All (λ (e : EventRow). Placed e.created_at e.event_id) db.events
    → length db.events < fuel
    → collect (λ c. list_events db (record f { cursor = c })) fuel none
      ≡ some (keep_if (event_matches f) (sort_desc event_key db.events))
unfolding list_events list_event_records
list_events-collect db f fuel d a h =
    collect_lem event_key event_anchor (event_matches f) db.events (full_size f.limit)
      (λ c. list_events db (record f { cursor = c })) (λ c. page_form event_anchor f.limit _) fuel
      (NoTwo-DistinctIds event_key (λ (e : EventRow). e.event_id) db.events (λ e. refl) d)
      (All-map _ _ db.events (λ e p. (Placed-key e.created_at e.event_id p, p.1, p.2)) a) h

-- The same for runs, by their start.
pub list_runs-collect :
    (db : Db) (f : RunFilter) (fuel : ℕ)
    → NoTwo (λ (r : RunRow). r.run_id) db.runs
    → All (λ (r : RunRow). Placed r.started_at r.run_id) db.runs
    → length db.runs < fuel
    → collect (λ c. list_runs db (record f { cursor = c })) fuel none
      ≡ some (keep_if (run_matches f) (sort_desc run_key db.runs))
unfolding list_runs list_run_traces
list_runs-collect db f fuel d a h =
    collect_lem run_key run_anchor (run_matches f) db.runs (full_size f.limit)
      (λ c. list_runs db (record f { cursor = c })) (λ c. page_form run_anchor f.limit _) fuel
      (NoTwo-DistinctIds run_key (λ (r : RunRow). r.run_id) db.runs (λ r. refl) d)
      (All-map _ _ db.runs (λ r p. (Placed-key r.started_at r.run_id p, p.1, p.2)) a) h

-- The same for sessions, by their last activity.
pub list_sessions-collect :
    (db : Db) (f : SessionFilter) (fuel : ℕ)
    → NoTwo (λ (s : SessionRow). s.session_key) db.sessions
    → All (λ (s : SessionRow). Placed s.last_activity_at s.session_key) db.sessions
    → length db.sessions < fuel
    → collect (λ c. list_sessions db (record f { cursor = c })) fuel none
      ≡ some (keep_if (session_matches f) (sort_desc session_row_key db.sessions))
unfolding list_sessions list_session_records
list_sessions-collect db f fuel d a h =
    collect_lem session_row_key session_anchor (session_matches f) db.sessions (full_size f.limit)
      (λ c. list_sessions db (record f { cursor = c })) (λ c. page_form session_anchor f.limit _)
      fuel
      (NoTwo-DistinctIds session_row_key (λ (s : SessionRow). s.session_key) db.sessions (λ s. refl)
        d)
      (All-map _ _ db.sessions (λ s p. (Placed-key s.last_activity_at s.session_key p, p.1, p.2)) a)
      h
