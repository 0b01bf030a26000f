-- ===== src/Query/History/Continued.antt =====
-- internal/store/queries/history.go after internal/store/tx/finalize_run.go: the next run's history.
use mathlib.Core.Path.{subst}
use mathlib.Core.List.{append_assoc, map-append}
use simiclaw.Base.{
  ℕ, zero, suc, ◌+◌, ◌-◌, ◌≤◌, ◌≡◌, refl, sym, ap, ◌∙◌, String, true, false, List, [], ◌∷◌, ◌++◌,
  map, length, length-append, All, All-append, arith, eq_iff,
}
use simiclaw.Base.Result.{ok}
use simiclaw.Base.Time.{at, stamp_le, text_le_refl}
use simiclaw.Model.Run.{StoredMessage, FinalizeCommand}
use simiclaw.Store.Tables.{Db, MessageRow}
use simiclaw.Store.Sql.{select_sorted}
use simiclaw.Store.Sql.Select.{select_sorted-first}
use simiclaw.Store.Finalize.{finalize, message_row}
use simiclaw.Store.Finalize.Rows.{stored, finalize_lem}
use simiclaw.Runner.Model.{HistoryMessage}
use simiclaw.Runner.History.{is_skipped}
use simiclaw.Query.{reversed}
use simiclaw.Query.History.{
  in_session, newer, history_row, session_rows, prompt_rows, or_default, load_prompt_history,
}

module _ {A : Type 0} where
  append-nil : (xs : List A) → xs ++ [] ≡ xs
  append-nil [] = refl
  append-nil (x ∷ xs) = ap (λ l. x ∷ l) (append-nil xs)

  reversed-append : (xs ys : List A) → reversed (xs ++ ys) ≡ reversed ys ++ reversed xs
  reversed-append [] ys = sym (append-nil (reversed ys))
  reversed-append (x ∷ xs) ys =
      ap (λ l. l ++ x ∷ []) (reversed-append xs ys)
      ∙ append_assoc (reversed ys) (reversed xs) (x ∷ [])

  reversed_twice : (xs : List A) → reversed (reversed xs) ≡ xs
  reversed_twice [] = refl
  reversed_twice (x ∷ xs) =
      reversed-append (reversed xs) (x ∷ []) ∙ ap (λ l. x ∷ l) (reversed_twice xs)

  length-reversed : (xs : List A) → length (reversed xs) ≡ length xs
  length-reversed [] = refl
  length-reversed (x ∷ xs) =
      length-append (reversed xs) (x ∷ []) ∙ omega (arith, length-reversed xs)

  All-reversed : (P : A → Type 0) (xs : List A) → All P xs → All P (reversed xs)
  All-reversed P [] h = tt
  All-reversed P (x ∷ xs) (p, h) = All-append P (reversed xs) (x ∷ []) (All-reversed P xs h) (p, tt)

-- A message as it is loaded again.
abbrev pub loaded : StoredMessage → HistoryMessage
loaded m = history_row (message_row m)

-- A message of this session and time, which prompts keep.
abbrev pub Fresh : String → ℕ → StoredMessage → Type 0
Fresh session_id now m =
    (m.session_id ≡ session_id) × (m.created_at ≡ now) × (is_skipped (loaded m) ≡ false)

abbrev pub Earlier : ℕ → MessageRow → Type 0
Earlier now m = stamp_le m.created_at (at now) ≡ true

module _ (session_id : String) (now : ℕ) where
  message_row-newest :
      (m : StoredMessage) (rows : List MessageRow)
      → Fresh session_id now m
      → All (Earlier now) rows
      → select_sorted (in_session session_id) newer (message_row m ∷ rows)
        ≡ message_row m ∷ select_sorted (in_session session_id) newer rows
  unfolding newer
  message_row-newest m rows (s, t, k) earlier =
      select_sorted-first (in_session session_id) newer (message_row m) rows
        ((eq_iff m.session_id session_id).1 s)
        (subst (λ (n : ℕ). All (λ (y : MessageRow). stamp_le y.created_at (at n) ≡ true) rows)
          (sym t) earlier)

  stored-newest :
      (ms : List StoredMessage) (rows : List MessageRow)
      → All (Fresh session_id now) ms
      → All (Earlier now) rows
      → select_sorted (in_session session_id) newer (stored ms rows)
        ≡ reversed (map message_row ms) ++ select_sorted (in_session session_id) newer rows
  unfolding stamp_le
  stored-newest [] rows h earlier = refl
  stored-newest (m ∷ ms) rows (f, h) earlier =
      stored-newest ms (message_row m ∷ rows) h (rw f.1 (text_le_refl now), earlier)
      ∙ ap (λ l. reversed (map message_row ms) ++ l) (message_row-newest m rows f earlier)
      ∙ sym (append_assoc (reversed (map message_row ms)) (message_row m ∷ []) _)

-- Messages that prompts keep are all taken, as far as the limit goes.
prompt_rows-append :
    (n k : ℕ) (xs rows : List HistoryMessage)
    → n ≡ length xs + k
    → All (λ (m : HistoryMessage). is_skipped m ≡ false) xs
    → prompt_rows n (xs ++ rows) ≡ xs ++ prompt_rows k rows
unfolding prompt_rows
prompt_rows-append n k [] rows q h = ap (λ m. prompt_rows m rows) (omega (arith, q))
prompt_rows-append zero k (x ∷ xs) rows q h = absurd (omega (arith, q))
prompt_rows-append (suc n) k (x ∷ xs) rows q (e, h) =
    rw e (ap (λ l. x ∷ l) (prompt_rows-append n k xs rows (omega (arith, q)) h))

map-reversed : {A B : Type 0} (f : A → B) (xs : List A) → map f (reversed xs) ≡ reversed (map f xs)
map-reversed f [] = refl
map-reversed f (x ∷ xs) =
    map-append f (reversed xs) (x ∷ []) ∙ ap (λ l. l ++ f x ∷ []) (map-reversed f xs)

map_twice : (ms : List StoredMessage) → map history_row (map message_row ms) ≡ map loaded ms
map_twice [] = refl
map_twice (m ∷ ms) = ap (λ l. loaded m ∷ l) (map_twice ms)

session_rows-stored :
    (cmd : FinalizeCommand) (db db' : Db) (session_id : String)
    → finalize cmd db ≡ ok (tt, db')
    → All (Fresh session_id cmd.now) cmd.messages
    → All (Earlier cmd.now) db.messages
    → session_rows db' session_id ≡ reversed (map loaded cmd.messages) ++ session_rows db session_id
unfolding session_rows
session_rows-stored cmd db db' session_id h fresh earlier =
    let rows = select_sorted (in_session session_id) newer db.messages in
    ap (λ l. map history_row (select_sorted (in_session session_id) newer l))
      (finalize_lem cmd db db' h).messages_stored
    ∙ ap (map history_row) (stored-newest session_id cmd.now cmd.messages db.messages fresh earlier)
    ∙ map-append history_row (reversed (map message_row cmd.messages)) rows
    ∙ ap (λ l. l ++ map history_row rows)
        (map-reversed history_row (map message_row cmd.messages)
          ∙ ap reversed (map_twice cmd.messages))

-- The history that the next run of a session is given ends with the messages of the run that was finalized
-- last, all of them and in their order, and begins with the latest earlier ones that prompts keep, as many
-- as the limit leaves room for: if that run's messages are of one time, not before the rows that are
-- stored, are kept by prompts, and are no more than the limit.
pub load_prompt_history-continued :
    (cmd : FinalizeCommand) (db db' : Db) (session_id : String) (limit : ℕ)
    → finalize cmd db ≡ ok (tt, db')
    → All (Fresh session_id cmd.now) cmd.messages
    → All (Earlier cmd.now) db.messages
    → length cmd.messages ≤ or_default limit
    → load_prompt_history db' session_id limit
      ≡ reversed (prompt_rows (or_default limit - length cmd.messages) (session_rows db session_id))
        ++ map loaded cmd.messages
unfolding load_prompt_history
load_prompt_history-continued cmd db db' session_id limit h fresh earlier fits =
    let new = map loaded cmd.messages in
    let room = or_default limit - length cmd.messages in
    let all : or_default limit ≡ length (reversed new) + room =
      omega (arith, fits, length-reversed new, length-map loaded cmd.messages) in
    ap (λ l. reversed (prompt_rows (or_default limit) l))
      (session_rows-stored cmd db db' session_id h fresh earlier)
    ∙ ap reversed (
        prompt_rows-append (or_default limit) room (reversed new) (session_rows db session_id) all (
          All-reversed (λ (m : HistoryMessage). is_skipped m ≡ false) new
            (kept cmd.messages fresh)))
    ∙ reversed-append (reversed new) (prompt_rows room (session_rows db session_id))
    ∙ ap (λ l. reversed (prompt_rows room (session_rows db session_id)) ++ l) (reversed_twice new)
  where
    kept :
        (ms : List StoredMessage)
        → All (Fresh session_id cmd.now) ms
        → All (λ (m : HistoryMessage). is_skipped m ≡ false) (map loaded ms)
    kept [] f = tt
    kept (m ∷ ms) (f, fs) = (f.2, kept ms fs)

    length-map : {A B : Type 0} (f : A → B) (xs : List A) → length (map f xs) ≡ length xs
    length-map f [] = refl
    length-map f (x ∷ xs) = ap suc (length-map f xs)
