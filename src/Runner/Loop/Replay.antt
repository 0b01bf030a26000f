-- ===== src/Runner/Loop/Replay.antt =====
-- internal/runner: a run's messages, read back as history, are the conversation that the model had.
use mathlib.Core.Path.{subst}
use mathlib.Core.List.{append_assoc, map-append}
use simiclaw.Base.{
  ℕ, zero, suc, ◌≡◌, ◌≢◌, refl, sym, ap, ◌∙◌, inl, inr, String, true, false, not, Option, none,
  some, List, [], ◌∷◌, ◌++◌, map, ◌==ˢ◌, if◌then◌else◌, arith, eq_iff, str_eq_self, Bool-cases, All,
  NoTwo,
}
use simiclaw.Base.Result.{ok}
use simiclaw.Model.{Fields, ToolCall, ErrorBlock}
use simiclaw.Model.Run.{InternalEvent}
use simiclaw.Runner.Model.{
  HistoryMessage, ModelMessage, ModelResult, OutputMessage, field_of, text_of,
}
use simiclaw.Runner.History.{
  is_blank_text, should_skip, is_skipped, is_pending, removed, with_calls, no_calls, history_step,
  appended, chat_from, history_to_chat_messages,
}
use simiclaw.Runner.Policy.{tool_allowed, is_cron_fire, cron_fire_tool_policy_error}
use simiclaw.Runner.Tools.{
  Env, LlmRunOptions, State, call_tool, unless_refused, tool_step, tool_steps, tool_output,
  tool_chat,
}
use simiclaw.Runner.Loop.{
  rounds, run_loop, tool_round, start_state, prompt_messages, answer_cases, assistant_recorded,
  with_usage, assistant_output, assistant_chat,
}

-- A message as it is loaded again.
abbrev pub as_history : OutputMessage → HistoryMessage
as_history m = record {
  role = m.role;
  content = m.content;
  tool_calls = m.tool_calls;
  tool_call_id = m.tool_call_id;
  tool_name = m.tool_name;
  meta = m.meta;
}

pending_after : List String → List HistoryMessage → List String
pending_after pending [] = pending
pending_after pending (m ∷ ms) = pending_after (history_step pending m).1 ms

appended-append :
    (o : Option ModelMessage) (xs ys : List ModelMessage)
    → appended o (xs ++ ys) ≡ appended o xs ++ ys
appended-append none xs ys = refl
appended-append (some m) xs ys = refl

chat_from-append :
    (pending : List String) (xs ys : List HistoryMessage)
    → chat_from pending (xs ++ ys) ≡ chat_from pending xs ++ chat_from (pending_after pending xs) ys
unfolding chat_from pending_after
chat_from-append pending [] ys = refl
chat_from-append pending (m ∷ ms) ys =
    ap (appended (history_step pending m).0) (chat_from-append (history_step pending m).1 ms ys)
    ∙ appended-append (history_step pending m).0 _ _

pending_after-append :
    (pending : List String) (xs ys : List HistoryMessage)
    → pending_after pending (xs ++ ys) ≡ pending_after (pending_after pending xs) ys
unfolding pending_after
pending_after-append pending [] ys = refl
pending_after-append pending (m ∷ ms) ys = pending_after-append (history_step pending m).1 ms ys

-- The pending calls after what a run has recorded.
open_calls : State → List String
open_calls st = pending_after [] (map as_history st.messages)

-- The model has been shown what is recorded.
abbrev Told : List ModelMessage → State → Type 0
Told base st = st.chat ≡ base ++ chat_from [] (map as_history st.messages)

module _ (base : List ModelMessage) (st st' : State) (m : OutputMessage) (c : ModelMessage)
    (chat : st'.chat ≡ st.chat ++ c ∷ []) (messages : st'.messages ≡ st.messages ++ m ∷ []) where
  -- One more message, which the history step shows as it was shown to the model.
  open_calls-more : open_calls st' ≡ (history_step (open_calls st) (as_history m)).1
  unfolding open_calls pending_after
  open_calls-more =
      ap (λ ms. pending_after [] (map as_history ms)) messages
      ∙ ap (pending_after []) (map-append as_history st.messages (m ∷ []))
      ∙ pending_after-append [] (map as_history st.messages) (as_history m ∷ [])

  Told-more :
      (history_step (open_calls st) (as_history m)).0 ≡ some c → Told base st → Told base st'
  unfolding open_calls chat_from
  Told-more shown told =
      chat
      ∙ ap (λ ms. ms ++ c ∷ []) told
      ∙ append_assoc base (chat_from [] (map as_history st.messages)) (c ∷ [])
      ∙ ap (λ ms. base ++ ms) (sym more)
    where
      more :
          chat_from [] (map as_history st'.messages)
          ≡ chat_from [] (map as_history st.messages) ++ c ∷ []
      more =
          ap (λ ms. chat_from [] (map as_history ms)) messages
          ∙ ap (chat_from []) (map-append as_history st.messages (m ∷ []))
          ∙ chat_from-append [] (map as_history st.messages) (as_history m ∷ [])
          ∙ ap (λ o. chat_from [] (map as_history st.messages) ++ appended o []) shown

-- Calls by which their answers are told apart.
abbrev pub WellFormed : List ToolCall → Type 0
WellFormed calls =
    All (λ (c : ToolCall). is_blank_text c.tool_call_id ≡ false) calls
    × NoTwo (λ (c : ToolCall). c.tool_call_id) calls

-- The meta of a run's messages is not one that a prompt leaves out.
abbrev pub IsKept : Fields → Type 0
IsKept meta = should_skip (text_of (field_of "payload_type" meta)) ≡ false

abbrev AllOpen : State → List ToolCall → Type 0
AllOpen st calls = All (λ (c : ToolCall). is_pending c.tool_call_id (open_calls st) ≡ true) calls

is_pending-with_calls :
    (id : String) (calls : List ToolCall) (pending : List String)
    → is_pending id pending ≡ true
    → is_pending id (with_calls calls pending) ≡ true
is_pending-with_calls id [] pending h = h
is_pending-with_calls id (c ∷ cs) pending h =
    is_pending-with_calls id cs
      (if is_blank_text c.tool_call_id then pending else c.tool_call_id ∷ pending)
      (ground (arith, h))

with_calls-open :
    (calls : List ToolCall) (pending : List String)
    → All (λ (c : ToolCall). is_blank_text c.tool_call_id ≡ false) calls
    → All (λ (c : ToolCall). is_pending c.tool_call_id (with_calls calls pending) ≡ true) calls
with_calls-open [] pending h = tt
with_calls-open (c ∷ cs) pending h = (
  is_pending-with_calls c.tool_call_id cs
      (if is_blank_text c.tool_call_id then pending else c.tool_call_id ∷ pending)
      (rw (h.0, str_eq_self c.tool_call_id) refl),
  with_calls-open cs (if is_blank_text c.tool_call_id then pending else c.tool_call_id ∷ pending)
      h.1,
)

is_pending-removed :
    (id k : String) (pending : List String)
    → k ≢ id
    → is_pending id pending ≡ true
    → is_pending id (removed k pending) ≡ true
is_pending-removed id k [] d h = h
is_pending-removed id k (p ∷ ps) d h =
    ground (arith, eq_iff p k, eq_iff p id, is_pending-removed id k ps d)

tool_shown :
    (pending : List String) (m : HistoryMessage)
    → is_skipped m ≡ false
    → m.role ≡ "tool"
    → is_blank_text m.tool_call_id ≡ false
    → is_pending m.tool_call_id pending ≡ true
    → history_step pending m ≡ (
      some (record {
        role = m.role;
        content = m.content;
        tool_call_id = m.tool_call_id;
        tool_calls = [];
      }),
      removed m.tool_call_id pending,
    )
tool_shown pending m s r b p =
    ground (arith, s, b, p, ap (λ t. t ==ˢ "assistant") r, ap (λ t. t ==ˢ "tool") r)

assistant_shown :
    (pending : List String) (m : HistoryMessage)
    → is_skipped m ≡ false
    → m.role ≡ "assistant"
    → no_calls m.tool_calls ≡ false
    → history_step pending m ≡ (
      some (record {
        role = m.role;
        content = m.content;
        tool_call_id = "";
        tool_calls = m.tool_calls;
      }),
      with_calls m.tool_calls pending,
    )
assistant_shown pending m s r n = ground (arith, s, n, ap (λ t. t ==ˢ "assistant") r)

call_tool-chat :
    (env : Env) (event : InternalEvent) (opts : LlmRunOptions) (call : ToolCall) (st : State)
    → ((call_tool env event opts call st).1.chat ≡ st.chat)
      × ((call_tool env event opts call st).1.messages ≡ st.messages)
unfolding call_tool
call_tool-chat env event opts call st =
    elim (Bool-cases (not (tool_allowed call.name opts.allowed_tools))) [
      | inl e ↦ rw e (refl, refl)
      | inr e ↦ rw e (elim (Bool-cases (is_cron_fire event.payload.type)) [
        | inl c ↦ rw c (policed (cron_fire_tool_policy_error call st.counts))
        | inr c ↦ rw c (refl, refl)
      ])
    ]
  where
    policed :
        (o : Option ErrorBlock)
        → ((unless_refused o env call st).1.chat ≡ st.chat)
          × ((unless_refused o env call st).1.messages ≡ st.messages)
    policed (some e) = (refl, refl)
    policed none = (refl, refl)

module _ (env : Env) (event : InternalEvent) (opts : LlmRunOptions) (base : List ModelMessage)
    (meta : IsKept opts.message_meta) where
  still_open :
      (calls : List ToolCall) (st' : State) (pending : List String) (id : String)
      → open_calls st' ≡ removed id pending
      → All (λ (c : ToolCall). id ≢ c.tool_call_id) calls
      → All (λ (c : ToolCall). is_pending c.tool_call_id pending ≡ true) calls
      → AllOpen st' calls
  still_open [] st' pending id e d h = tt
  still_open (c ∷ cs) st' pending id e d h = (
    ap (is_pending c.tool_call_id) e ∙ is_pending-removed c.tool_call_id id pending d.0 h.0,
    still_open cs st' pending id e d.1 h.1,
  )

  -- A tool's answer, once its call is open.
  tool_step-Told :
      (call : ToolCall) (calls : List ToolCall) (st : State)
      → WellFormed (call ∷ calls)
      → AllOpen st (call ∷ calls)
      → Told base st
      → Told base (tool_step env event opts call st)
        × AllOpen (tool_step env event opts call st) calls
  tool_step-Told call calls st w o told =
      let r = (call_tool env event opts call st).0 in
      let st' = tool_step env event opts call st in
      let same = call_tool-chat env event opts call st in
      let m = tool_output env opts call r in
      let chat : st'.chat ≡ st.chat ++ tool_chat env call r ∷ [] =
        ap (λ ms. ms ++ tool_chat env call r ∷ []) same.0 in
      let messages : st'.messages ≡ st.messages ++ m ∷ [] = ap (λ ms. ms ++ m ∷ []) same.1 in
      let shown = tool_shown (open_calls st) (as_history m) meta refl w.0.0 o.0 in
      let open_now : open_calls st' ≡ removed call.tool_call_id (open_calls st) =
        open_calls-more base st st' m (tool_chat env call r) chat messages ∙ ap (λ s. s.1) shown in
      (
        Told-more base st st' m (tool_chat env call r) chat messages (ap (λ s. s.0) shown) told,
        still_open calls st' (open_calls st) call.tool_call_id open_now w.1.0 o.1,
      )

  tool_steps-Told :
      (calls : List ToolCall) (st : State)
      → WellFormed calls
      → AllOpen st calls
      → Told base st
      → Told base (tool_steps env event opts calls st)
  unfolding tool_steps
  tool_steps-Told [] st w o told = told
  tool_steps-Told (call ∷ calls) st w o told =
      let next = tool_step-Told call calls st w o told in
      tool_steps-Told calls (tool_step env event opts call st) (w.0.1, w.1.1) next.1 next.0

  tool_round-Told :
      (last : ModelResult) (st : State)
      → no_calls last.tool_calls ≡ false
      → WellFormed last.tool_calls
      → Told base st
      → Told base (tool_round env event opts last st)
  tool_round-Told last st n w told =
      let begun = assistant_recorded opts last (with_usage last st) in
      let m = assistant_output opts last in
      let shown = assistant_shown (open_calls st) (as_history m) meta refl n in
      let open_now : open_calls begun ≡ with_calls last.tool_calls (open_calls st) =
        open_calls-more base st begun m (assistant_chat last) refl refl ∙ ap (λ s. s.1) shown in
      tool_steps-Told last.tool_calls begun w
        (subst (λ ps. All (λ (c : ToolCall). is_pending c.tool_call_id ps ≡ true) last.tool_calls)
          (sym open_now) (with_calls-open last.tool_calls (open_calls st) w.0))
        (Told-more base st begun m (assistant_chat last) refl refl (ap (λ s. s.0) shown) told)

  rounds-Told :
      (wf : (round : ℕ) (chat : List ModelMessage) (last : ModelResult)
        → env.stream_chat round chat ≡ ok last
        → WellFormed last.tool_calls)
      (left round : ℕ) (st : State)
      → Told base st
      → Told base (rounds env event opts left round st).0
  unfolding rounds
  rounds-Told wf zero round st told =
      answer_cases (λ r. Told base r.0) (env.stream_chat round st.chat) _ st (λ e. told)
        (λ last reply. told) (λ last e n. told)
  rounds-Told wf (suc left) round st told =
      answer_cases (λ r. Told base r.0) (env.stream_chat round st.chat) _ st (λ e. told)
        (λ last reply. told)
        (λ last e n.
          rounds-Told wf left (suc round) (tool_round env event opts last st)
            (tool_round-Told last st n (wf round st.chat last e) told))

-- What a run records, read back as history, is the conversation that the model had after the prompt: this
-- holds however the run ends, if its meta is not one that prompts leave out and the model tells the calls of
-- an answer apart by ids that are not blank.
pub run_loop-replay :
    (env : Env) (event : InternalEvent) (opts : LlmRunOptions) (history : List HistoryMessage)
    (max_tool_rounds : ℕ)
    → IsKept opts.message_meta
    → ((round : ℕ) (chat : List ModelMessage) (last : ModelResult)
        → env.stream_chat round chat ≡ ok last
        → WellFormed last.tool_calls)
    → let st = (run_loop env event opts history max_tool_rounds).0 in
      st.chat ≡ prompt_messages env history ++ history_to_chat_messages (map as_history st.messages)
unfolding run_loop
run_loop-replay env event opts history max_tool_rounds meta wf =
    rounds-Told env event opts (prompt_messages env history) meta wf max_tool_rounds 0
      (start_state env event opts history) started
  where
    started : Told (prompt_messages env history) (start_state env event opts history)
    started = rw meta refl
