-- ===== src/Runner/Loop/Budget.antt =====
-- internal/runner: which tools a run invokes, and how often.
use mathlib.Core.Path.{subst}
use simiclaw.Base.{
  ℕ, zero, suc, ◌≤◌, ◌≡◌, refl, sym, ap, ◌∙◌, inl, inr, String, Bool, true, false, not, Option,
  none, some, List, [], ◌∷◌, ◌==ˢ◌, if◌then◌else◌, arith, eq_iff, Bool-cases, All,
}
use simiclaw.Base.Dict.{get, put, get-put}
use simiclaw.Model.{Fields, ToolCall, ErrorBlock}
use simiclaw.Model.Run.{InternalEvent}
use simiclaw.Runner.Model.{HistoryMessage}
use simiclaw.Runner.Policy.{
  tool_allowed, is_cron_fire, is_exhausted, over_budget, cron_fire_tool_policy_error,
  cron_fire_tool_budgets, count_of, or_zero,
}
use simiclaw.Runner.Tools.{
  Env, LlmRunOptions, State, call_tool, unless_refused, tool_step, tool_steps,
}
use simiclaw.Runner.Loop.{
  rounds, run_loop, tool_round, start_state, answer_cases, assistant_recorded, with_usage,
}

abbrev pub Calls : Type 0
Calls = List (String × Fields)

abbrev pub Counts : Type 0
Counts = List (String × ℕ)

-- What a call of a tool keeps, the loop keeps.
module _ (P : Calls → Counts → Type 0) (env : Env) (event : InternalEvent) (opts : LlmRunOptions)
    (step : (call : ToolCall) (st : State)
      → P st.invoked st.counts
      → P
          (call_tool env event opts call st).1.invoked
          (call_tool env event opts call st).1.counts) where
  tool_steps_keep :
      (calls : List ToolCall) (st : State)
      → P st.invoked st.counts
      → P (tool_steps env event opts calls st).invoked (tool_steps env event opts calls st).counts
  unfolding tool_steps
  tool_steps_keep [] st h = h
  tool_steps_keep (call ∷ calls) st h =
      tool_steps_keep calls (tool_step env event opts call st) (step call st h)

  rounds_keep :
      (left round : ℕ) (st : State)
      → P st.invoked st.counts
      → P
          (rounds env event opts left round st).0.invoked
          (rounds env event opts left round st).0.counts
  unfolding rounds
  rounds_keep zero round st h =
      answer_cases (λ r. P r.0.invoked r.0.counts) (env.stream_chat round st.chat) _ st (λ e. h)
        (λ last reply. h) (λ last e n. h)
  rounds_keep (suc left) round st h =
      answer_cases (λ r. P r.0.invoked r.0.counts) (env.stream_chat round st.chat) _ st (λ e. h)
        (λ last reply. h)
        (λ last e n.
          rounds_keep left (suc round) (tool_round env event opts last st)
            (tool_steps_keep last.tool_calls (assistant_recorded opts last (with_usage last st)) h))

-- Only tools that the plan allows are invoked.
Allowed : LlmRunOptions → Calls → Counts → Type 0
Allowed opts calls counts =
    All (λ (c : String × Fields). tool_allowed c.0 opts.allowed_tools ≡ true) calls

abbrev pub times : String → Calls → ℕ
times name [] = 0
times name ((n, args) ∷ calls) = if n ==ˢ name then suc (times name calls) else times name calls

abbrev Within : Option ℕ → ℕ → Type 0
Within none n = Unit
Within (some budget) n = n ≤ budget

-- The counts are those of the calls, and are within the budgets.
abbrev Counted : String → Calls → Counts → Type 0
Counted name calls counts =
    (times name calls ≡ count_of name counts)
    × Within (get name cron_fire_tool_budgets) (count_of name counts)

count_of-put :
    (name k : String) (n : ℕ) (counts : Counts)
    → count_of name (put k n counts) ≡ (if k ==ˢ name then n else count_of name counts)
count_of-put name k n counts = ap or_zero (get-put k name n counts) ∙ zero_of (k ==ˢ name)
  where
    zero_of :
        (b : Bool)
        → or_zero (if b then some n else get name counts) ≡ (if b then n else count_of name counts)
    zero_of true = refl
    zero_of false = refl

Within-zero : (o : Option ℕ) → Within o 0
Within-zero none = tt
Within-zero (some budget) = omega arith

one_more : (o : Option ℕ) (n : ℕ) → over_budget o n ≡ false → Within o (suc n)
one_more none n h = tt
one_more (some budget) n h = ground arith

policy_none :
    (call : ToolCall) (counts : Counts)
    → cron_fire_tool_policy_error call counts ≡ none
    → is_exhausted call.name counts ≡ false
unfolding cron_fire_tool_policy_error
policy_none call counts h = elim (Bool-cases (is_exhausted call.name counts)) [
  | inl e ↦ absurd (exhausted e)
  | inr e ↦ e
]
  where
    exhausted : is_exhausted call.name counts ≡ true → ⊥
    exhausted e = ground (arith, h, e)

Counted-call :
    (name k : String) (args : Fields) (calls : Calls) (counts : Counts)
    → is_exhausted k counts ≡ false
    → Counted name calls counts
    → Counted name ((k, args) ∷ calls) (put k (suc (count_of k counts)) counts)
Counted-call name k args calls counts free h = elim (Bool-cases (k ==ˢ name)) [
  | inl e ↦
      let same : k ≡ name = (eq_iff k name).0 e in
      let count : count_of name (put k (suc (count_of k counts)) counts)
          ≡ suc (count_of name counts) =
        count_of-put name k (suc (count_of k counts)) counts
        ∙ ap (λ b. if b then suc (count_of k counts) else count_of name counts) e
        ∙ ap (λ n. suc (count_of n counts)) same in
      (
        ap (λ b. if b then suc (times name calls) else times name calls) e ∙ ap suc h.0 ∙ sym count,
        subst (Within (get name cron_fire_tool_budgets)) (sym count) (
            one_more (get name cron_fire_tool_budgets) (count_of name counts)
              (ap (λ n. is_exhausted n counts) (sym same) ∙ free)),
      )
  | inr e ↦
      let count : count_of name (put k (suc (count_of k counts)) counts) ≡ count_of name counts =
        count_of-put name k (suc (count_of k counts)) counts
        ∙ ap (λ b. if b then suc (count_of k counts) else count_of name counts) e in
      (
        ap (λ b. if b then suc (times name calls) else times name calls) e ∙ h.0 ∙ sym count,
        subst (Within (get name cron_fire_tool_budgets)) (sym count) h.1,
      )
]

unless_refused-Counted :
    (name : String) (o : Option ErrorBlock) (env : Env) (call : ToolCall) (st : State)
    → cron_fire_tool_policy_error call st.counts ≡ o
    → Counted name st.invoked st.counts
    → Counted name (unless_refused o env call st).1.invoked (unless_refused o env call st).1.counts
unless_refused-Counted name (some e) env call st p h = h
unless_refused-Counted name none env call st p h =
    Counted-call name call.name call.args st.invoked st.counts (policy_none call st.counts p) h

call_tool-Counted :
    (name : String) (env : Env) (event : InternalEvent) (opts : LlmRunOptions) (call : ToolCall)
    (st : State)
    → is_cron_fire event.payload.type ≡ true
    → Counted name st.invoked st.counts
    → Counted name
        (call_tool env event opts call st).1.invoked
        (call_tool env event opts call st).1.counts
unfolding call_tool
call_tool-Counted name env event opts call st cron h =
    elim (Bool-cases (not (tool_allowed call.name opts.allowed_tools))) [
      | inl e ↦ rw e h
      | inr e ↦
          rw (e, cron)
            (unless_refused-Counted name (cron_fire_tool_policy_error call st.counts) env call st
              refl h)
    ]

-- A run of a scheduled job invokes no tool that has a budget more often than the budget, whatever the
-- model asks for and in however many rounds.
pub run_loop-budget :
    (name : String) (budget : ℕ) (env : Env) (event : InternalEvent) (opts : LlmRunOptions)
    (history : List HistoryMessage) (max_tool_rounds : ℕ)
    → is_cron_fire event.payload.type ≡ true
    → get name cron_fire_tool_budgets ≡ some budget
    → times name (run_loop env event opts history max_tool_rounds).0.invoked ≤ budget
unfolding run_loop
run_loop-budget name budget env event opts history max_tool_rounds cron b =
    let end = (rounds env event opts max_tool_rounds 0 (start_state env event opts history)).0 in
    let kept : Counted name end.invoked end.counts =
      rounds_keep (Counted name) env event opts
        (λ call st. call_tool-Counted name env event opts call st cron) max_tool_rounds 0
        (start_state env event opts history)
        (refl, Within-zero (get name cron_fire_tool_budgets)) in
    let fits : Within (some budget) (count_of name end.counts) =
      subst (λ o. Within o (count_of name end.counts)) b kept.1 in
    omega (arith, kept.0, fits)

call_tool-Allowed :
    (env : Env) (event : InternalEvent) (opts : LlmRunOptions) (call : ToolCall) (st : State)
    → Allowed opts st.invoked st.counts
    → Allowed opts
        (call_tool env event opts call st).1.invoked
        (call_tool env event opts call st).1.counts
unfolding call_tool Allowed
call_tool-Allowed env event opts call st h =
    elim (Bool-cases (tool_allowed call.name opts.allowed_tools)) [
      | inl e ↦ rw e (elim (Bool-cases (is_cron_fire event.payload.type)) [
        | inl c ↦ rw c (policed (cron_fire_tool_policy_error call st.counts) e)
        | inr c ↦ rw c (e, h)
      ])
      | inr e ↦ rw e h
    ]
  where
    policed :
        (o : Option ErrorBlock)
        → tool_allowed call.name opts.allowed_tools ≡ true
        → All
            (λ (c : String × Fields). tool_allowed c.0 opts.allowed_tools ≡ true)
            (unless_refused o env call st).1.invoked
    policed (some x) e = h
    policed none e = (e, h)

-- Every tool that a run invokes is one that the plan of its payload allows.
pub run_loop-allowed :
    (env : Env) (event : InternalEvent) (opts : LlmRunOptions) (history : List HistoryMessage)
    (max_tool_rounds : ℕ)
    → All
        (λ (c : String × Fields). tool_allowed c.0 opts.allowed_tools ≡ true)
        (run_loop env event opts history max_tool_rounds).0.invoked
unfolding run_loop Allowed
run_loop-allowed env event opts history max_tool_rounds =
    rounds_keep (Allowed opts) env event opts (call_tool-Allowed env event opts) max_tool_rounds 0
      (start_state env event opts history) tt
