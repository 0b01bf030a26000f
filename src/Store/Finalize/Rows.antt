-- ===== src/Store/Finalize/Rows.antt =====
-- internal/store/tx/finalize_run.go: what a finalize leaves in the tables.
use simiclaw.Base.{
  ◌≡◌, ap, ◌∙◌, String, Bool, true, false, Option, none, some, List, [], ◌∷◌, ◌==ˢ◌, if◌then◌else◌,
  arith,
}
use simiclaw.Base.Result.{Result, ok, err}
use simiclaw.Model.{OutboxStatus, pending}
use simiclaw.Model.Run.{StoredMessage, FinalizeCommand}
use simiclaw.Store.Tables.{Db, MessageRow, RunRow, EventRow, OutboxRow}
use simiclaw.Store.Sql.{
  DbError, id_at, update_where, exists_where, constraint, with_writer_tx, ◌>>◌, >>=-eq-ok, >>=-err,
}
use simiclaw.Store.Sessions.{recompute_session_aggregate}
use simiclaw.Store.Finalize.{
  message_row, insert_message, insert_messages, update_run, finished_run, has_delivery, new_outbox,
  insert_outbox, deliver_if, finish, finished_event, finalize,
}

-- The messages of a command on top of the rows before.
abbrev pub stored : List StoredMessage → List MessageRow → List MessageRow
stored [] rows = rows
stored (m ∷ ms) rows = stored ms (message_row m ∷ rows)

insert_message-ok :
    (m : MessageRow) (db db' : Db) (u : Unit {0})
    → insert_message m db ≡ ok (u, db')
    → db' ≡ record db { messages = m ∷ db.messages }
insert_message-ok m db db' u h = ground arith

insert_messages-ok :
    (ms : List StoredMessage) (db db' : Db) (u : Unit {0})
    → insert_messages ms db ≡ ok (u, db')
    → db' ≡ record db { messages = stored ms db.messages }
unfolding insert_messages
insert_messages-ok [] db db' u h = ground arith
insert_messages-ok (m ∷ ms) db db' u h =
    let (v, db₁, h₁, k₁) = >>=-eq-ok (insert_message (message_row m)) _ db u db' h in
    insert_messages-ok ms db₁ db' u k₁
    ∙ ap (λ (d : Db). record d { messages = stored ms d.messages })
        (insert_message-ok (message_row m) db db₁ v h₁)

-- The outbox step on the table, and what it gives the event.
abbrev pub delivered : Bool → FinalizeCommand → List OutboxRow → List OutboxRow
delivered b cmd rows = if b then new_outbox cmd ∷ rows else rows

abbrev pub delivery : Bool → FinalizeCommand → String × Option OutboxStatus
delivery b cmd = if b then (id_at "out_" cmd.now, some pending) else ("", none)

deliver_if-ok :
    (b : Bool) (cmd : FinalizeCommand) (db db' : Db) (out : String × Option OutboxStatus)
    → deliver_if b cmd db ≡ ok (out, db')
    → (db' ≡ record db { outbox = delivered b cmd db.outbox }) × (out ≡ delivery b cmd)
unfolding deliver_if insert_outbox
deliver_if-ok true cmd db db' out h =
    let (v, db₁, h₁, k₁) = >>=-eq-ok (insert_outbox (new_outbox cmd)) _ db out db' h in
    let p = inserted (new_outbox cmd) db db₁ v h₁ in ground (arith, p)
  where
    inserted :
        (o : OutboxRow) (db db' : Db) (u : Unit {0})
        → insert_outbox o db ≡ ok (u, db')
        → db' ≡ record db { outbox = o ∷ db.outbox }
    inserted o db db' u h = ground arith
deliver_if-ok false cmd db db' out h = ground arith

abbrev pub has_run_id : String → RunRow → Bool
has_run_id id r = r.run_id ==ˢ id

abbrev pub has_event_id : String → EventRow → Bool
has_event_id id e = e.event_id ==ˢ id

pub record Rows (cmd : FinalizeCommand) (db db' : Db) : Type 0 where
  pub messages_stored : db'.messages ≡ stored cmd.messages db.messages
  pub run_finished : db'.runs ≡ update_where (has_run_id cmd.run_id) (finished_run cmd) db.runs
  pub reply_queued : db'.outbox ≡ delivered (has_delivery cmd) cmd db.outbox
  pub event_finished :
      db'.events
      ≡ update_where
          (has_event_id cmd.event_id)
          (finished_event cmd (delivery (has_delivery cmd) cmd))
          db.events
  pub keys_kept : db'.keys ≡ db.keys

finish-Rows :
    (b : Bool) (cmd : FinalizeCommand) (db db₁ db' : Db) (out : String × Option OutboxStatus)
    (u : Unit {0})
    → deliver_if b cmd db ≡ ok (out, db₁)
    → recompute_session_aggregate cmd.session_key cmd.now (record db₁ {
      events = update_where (has_event_id cmd.event_id) (finished_event cmd out) db₁.events;
    })
      ≡ ok (u, db')
    → (db'.messages ≡ db.messages)
      × (db'.runs ≡ db.runs)
      × (db'.outbox ≡ delivered b cmd db.outbox)
      × (db'.events
          ≡ update_where
              (has_event_id cmd.event_id)
              (finished_event cmd (delivery b cmd))
              db.events)
      × (db'.keys ≡ db.keys)
unfolding recompute_session_aggregate
finish-Rows b cmd db db₁ db' out u h k =
    let p = deliver_if-ok b cmd db db₁ out h in ground (arith, p.0, p.1)

-- Finalize, where it succeeds: the messages of the command are appended in their order, the run's row
-- takes the outcome, the event's row takes the status and the reply and has no lease any more, and
-- the outbox gets a pending row exactly if the reply's text is not blank and the event is processed.
-- Whatever run the event's row belonged to before, it belongs to the command's run after.
pub finalize_lem :
    (cmd : FinalizeCommand) (db db' : Db) → finalize cmd db ≡ ok (tt, db') → Rows cmd db db'
unfolding finalize
finalize_lem cmd db db' h =
    let (u₁, db₁, h₁, k₁) = >>=-eq-ok (insert_messages cmd.messages) _ db tt db' h in
    let db₂ : Db = record db₁ {
      runs = update_where (has_run_id cmd.run_id) (finished_run cmd) db₁.runs;
    } in
    let (out, db₃, h₃, k₃) = >>=-eq-ok (deliver_if (has_delivery cmd) cmd) _ db₂ tt db' k₁ in
    let p = insert_messages-ok cmd.messages db db₁ u₁ h₁ in
    let q = finish-Rows (has_delivery cmd) cmd db₂ db₃ db' out tt h₃ k₃ in
    record {
      messages_stored = q.0 ∙ ap (λ (d : Db). d.messages) p;
      run_finished =
          q.1 ∙ ap (λ (d : Db). update_where (has_run_id cmd.run_id) (finished_run cmd) d.runs) p;
      reply_queued = q.2 ∙ ap (λ (d : Db). delivered (has_delivery cmd) cmd d.outbox) p;
      event_finished =
          q.3
          ∙ ap
              (λ (d : Db).
                update_where (has_event_id cmd.event_id)
                  (finished_event cmd (delivery (has_delivery cmd) cmd)) d.events)
              p;
      keys_kept = q.4 ∙ ap (λ (d : Db). d.keys) p;
    }

-- The caller's view of the finalizing transaction.
abbrev pub ended : Db → Result DbError (Unit {0} × Db) → Result DbError (Unit {0}) × Db
ended db (ok (u, db')) = (ok u, db')
ended db (err e) = (err e, db)

abbrev has_message : String → MessageRow → Bool
has_message id m = m.message_id ==ˢ id

insert_message-err :
    (m : MessageRow) (db : Db)
    → exists_where (has_message m.message_id) db.messages ≡ true
    → insert_message m db ≡ err constraint
insert_message-err m db h = ground (arith, h)

first_taken :
    (m : StoredMessage) (ms : List StoredMessage) (db : Db)
    → exists_where (has_message m.message_id) db.messages ≡ true
    → insert_messages (m ∷ ms) db ≡ err constraint
unfolding insert_messages
first_taken m ms db h =
    >>=-err (insert_message (message_row m)) (λ _. insert_messages ms) db constraint
      (insert_message-err (message_row m) db h)

-- A first message whose id is taken ends the whole finalize, and nothing of it is stored.
pub finalize-rolls_back :
    (cmd : FinalizeCommand) (m : StoredMessage) (ms : List StoredMessage) (db : Db)
    → cmd.messages ≡ m ∷ ms
    → exists_where (has_message m.message_id) db.messages ≡ true
    → with_writer_tx (finalize cmd) db ≡ (err constraint, db)
unfolding finalize
finalize-rolls_back cmd m ms db e h = ap (ended db) (
    >>=-err (insert_messages cmd.messages) (λ _. update_run cmd >> finish cmd) db constraint
      (ap (λ l. insert_messages l db) e ∙ first_taken m ms db h))
