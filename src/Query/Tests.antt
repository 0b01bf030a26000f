-- ===== src/Query/Tests.antt =====
-- internal/query on small inputs.
use simiclaw.Base.{
  true, ℕ, ◌≡◌, ◌≢◌, refl, String, false, none, some, [], ◌∷◌, ◌==ˢ◌, keep_if, arith, eq_iff,
}
use simiclaw.Base.Text.{trim_space}
use simiclaw.Base.Time.{at, blank, fraction}
use simiclaw.Model.{EventStatus, normal, Fields}
use simiclaw.Store.Tables.{Db, EventRow, MessageRow, empty_db}
use simiclaw.Query.{
  EventFilter, sort_desc, event_key, event_matches, list_events, list_session_history,
}
use simiclaw.Query.Pages.{collect}
use simiclaw.Query.Listing.{list_events-collect}

abbrev event_at : String → ℕ → EventRow
event_at id time = record {
  event_id = id;
  source = "cli";
  tenant_id = "local";
  conversation_id = "c";
  channel_type = "dm";
  participant_id = "p";
  session_key = "s";
  session_id = "ses";
  idempotency_key = id;
  payload_type = "message";
  payload_text = "hi";
  payload = record {
    type = "message";
    text = "hi";
    mentions = [];
    attachments = [];
    native = "";
    native_ref = "";
    extra = [];
  };
  payload_hash = "h";
  status = EventStatus.received;
  run_id = "";
  run_mode = normal;
  assistant_reply = "";
  outbox_id = "";
  outbox_status = none;
  processing_started_at = blank;
  provider = "";
  model = "";
  provider_request_id = "";
  error_code = "";
  error_message = "";
  created_at = at time;
  updated_at = at time;
}

abbrev two_events : Db
two_events = record empty_db {
  events = event_at "evt_1" 5000000000 ∷ event_at "evt_2" 7000000000 ∷ [];
}

abbrev one_each : EventFilter
one_each = record { session_key = "s"; status = none; limit = 1; cursor = none }

first_page :
    list_events two_events one_each
    ≡ record { items = event_at "evt_2" 7000000000 ∷ []; next = some (7000000000, "evt_2") }
unfolding list_events fraction
first_page = refl

differ : (s t : String) → (s ==ˢ t) ≡ false → s ≢ t
differ s t h e = ground (arith, h, eq_iff s t, e)

list_events-collect_example :
    collect (λ c. list_events two_events (record one_each { cursor = c })) 3 none
    ≡ some (keep_if (event_matches one_each) (sort_desc event_key two_events.events))
unfolding trim_space
list_events-collect_example =
    list_events-collect two_events one_each 3 ((differ "evt_1" "evt_2" refl, tt), (tt, tt))
      ((refl, (λ e. absurd (omega arith)), refl), ((refl, (λ e. absurd (omega arith)), refl), tt))
      (omega arith)

abbrev message_at : String → ℕ → MessageRow
message_at id time = record {
  message_id = id;
  session_key = "s";
  session_id = "ses";
  run_id = "run_1";
  role = "user";
  content = "hi";
  visible = true;
  tool_call_id = "";
  tool_name = "";
  tool_args = Fields.end;
  tool_result = Fields.end;
  meta = Fields.end;
  tool_calls = [];
  created_at = at time;
}

-- Two messages of one run, the later one first in the table: the history shows it first as well, since their
-- ids are compared as texts.
ids_as_texts :
    (list_session_history 0
      (record empty_db { messages = message_at "msg_5_10" 5 ∷ message_at "msg_5_9" 5 ∷ [] })
      (record { session_id = "ses"; visible_only = false; limit = 10; cursor = none })).items
    ≡ message_at "msg_5_10" 5 ∷ message_at "msg_5_9" 5 ∷ []
unfolding list_session_history fraction
ids_as_texts = refl
