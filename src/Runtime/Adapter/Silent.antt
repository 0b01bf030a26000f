-- ===== src/Runtime/Adapter/Silent.antt =====
-- internal/runtime and internal/runner: the payloads that never send a reply.
use mathlib.Core.Path.{subst}
use simiclaw.Base.{
  ℕ, suc, ◌≡◌, ◌≢◌, refl, sym, ◌⊎◌, inl, inr, String, true, false, Option, none, some, List, ◌==ˢ◌,
  arith, eq_iff, Bool-cases,
}
use simiclaw.Base.Result.{Result, ok, err}
use simiclaw.Model.Run.{InternalEvent, ClaimContext, ExecutionResult}
use simiclaw.Model.{no_reply}
use simiclaw.Base.Dict.{get, put}
use simiclaw.Store.Claim.{run_mode_for}
use simiclaw.Store.Finalize.{has_delivery}
use simiclaw.Runtime.Payload.{
  Plan, builtin_registry, resolve_plan, register_builtins, ExecutionKind, memory_write, interactive,
  suppressed_llm,
}
use simiclaw.Runtime.Kernel.{returned, execute, command, Env, build_finalize}
use simiclaw.Runtime.Kernel.Finalizing.{build_finalize-Consistent}
use simiclaw.Runner.Model.{HistoryMessage}
use simiclaw.Runner.Tools.{LlmRunOptions, State}
use simiclaw.Runner.Loop.{Ended, provider_failed, replied, run_loop}
use simiclaw.Runner.Output.{RunOutput, output_of, execute_llm, with_history, with_model}
use simiclaw.Runner.Tools
use simiclaw.Runner.Run.{run, by_kind, options_of}
use simiclaw.Runtime.Adapter.{translate, first_error, execute_run, normalize_max_tool_rounds}

-- A run that fails, or whose output is suppressed.
abbrev Quiet : RunOutput → Option String → Type 0
Quiet output error = (error ≢ none) ⊎ (output.suppress_output ≡ true)

output_of-Quiet :
    (opts : LlmRunOptions) (end : State × Ended)
    → opts.suppress_output ≡ true
    → Quiet (output_of opts end).0 (output_of opts end).1
output_of-Quiet opts (st, provider_failed e) s = inl (λ h. cc)
output_of-Quiet opts (st, replied last reply) s = inr s

with_history-Quiet :
    (env : Tools.Env) (event : InternalEvent) (opts : LlmRunOptions) (max : ℕ)
    (r : Result String (List HistoryMessage))
    → opts.suppress_output ≡ true
    → Quiet (with_history env event opts max r).0 (with_history env event opts max r).1
with_history-Quiet env event opts max (err e) s = inl (λ h. cc)
with_history-Quiet env event opts max (ok history) s =
    output_of-Quiet opts (run_loop env event opts history max) s

with_model-Quiet :
    (env : Tools.Env) (event : InternalEvent) (opts : LlmRunOptions) (max : ℕ)
    (r : Result String (Unit {0}))
    → opts.suppress_output ≡ true
    → Quiet (with_model env event opts max r).0 (with_model env event opts max r).1
with_model-Quiet env event opts max (err e) s = inl (λ h. cc)
with_model-Quiet env event opts max (ok u) s = with_history-Quiet env event opts max env.history s

by_kind-Quiet :
    (kind : ExecutionKind) (env : Tools.Env) (event : InternalEvent) (max : ℕ) (plan : Plan)
    → plan.suppress_output ≡ true
    → Quiet (by_kind kind env event max plan).0 (by_kind kind env event max plan).1
unfolding execute_llm
by_kind-Quiet memory_write env event max plan s = inr s
by_kind-Quiet interactive env event max plan s =
    with_model-Quiet env event (options_of plan) max env.resolved s
by_kind-Quiet suppressed_llm env event max plan s =
    with_model-Quiet env event (options_of plan) max env.resolved s

-- The types of the three plans without a reply.
silent_type :
    (type : String)
    → run_mode_for type ≡ no_reply
    → (type ≡ "memory_flush") ⊎ ((type ≡ "compaction") ⊎ (type ≡ "cron_fire"))
silent_type type h = elim (Bool-cases (type ==ˢ "memory_flush")) [
  | inl e ↦ inl ((eq_iff type "memory_flush").0 e)
  | inr e ↦ elim (Bool-cases (type ==ˢ "compaction")) [
    | inl c ↦ inr (inl ((eq_iff type "compaction").0 c))
    | inr c ↦ elim (Bool-cases (type ==ˢ "cron_fire")) [
      | inl f ↦ inr (inr ((eq_iff type "cron_fire").0 f))
      | inr f ↦ absurd (no_other e c f)
    ]
  ]
]
  where
    no_other :
        (type ==ˢ "memory_flush") ≡ false
        → (type ==ˢ "compaction") ≡ false
        → (type ==ˢ "cron_fire") ≡ false
        → ⊥
    no_other e c f = ground (arith, h, e, c, f)

-- Its plan suppresses the output, and it is no new session.
SilentPlan : String → Type 0
SilentPlan type =
    ((resolve_plan builtin_registry type).suppress_output ≡ true)
    × ((type ==ˢ "new_session") ≡ false)

silent_plan : (type : String) → run_mode_for type ≡ no_reply → SilentPlan type
unfolding SilentPlan resolve_plan register_builtins get put
silent_plan type h = elim (silent_type type h) [
  | inl e ↦ subst SilentPlan (sym e) (refl, refl)
  | inr (inl e) ↦ subst SilentPlan (sym e) (refl, refl)
  | inr (inr e) ↦ subst SilentPlan (sym e) (refl, refl)
]

run-Quiet :
    (env : Tools.Env) (event : InternalEvent) (max : ℕ)
    → run_mode_for event.payload.type ≡ no_reply
    → Quiet
        (run env (some builtin_registry) event max).0
        (run env (some builtin_registry) event max).1
unfolding run SilentPlan
run-Quiet env event max h =
    let p = silent_plan event.payload.type h in
    let plan = resolve_plan builtin_registry event.payload.type in
    rw p.1 (by_kind-Quiet plan.kind env event max plan p.0)

-- What the kernel makes of a quiet run has a failure or a suppressed output.
translate-suppressed :
    (claim : ClaimContext) (output : RunOutput)
    → output.suppress_output ≡ true
    → (translate claim output).0.suppress_output ≡ true
unfolding translate
translate-suppressed claim output s = rw s refl

Quiet-command :
    (now counter : ℕ) (claim : ClaimContext) (result : ExecutionResult) (run_error : Option String)
    → (run_error ≢ none) ⊎ (result.suppress_output ≡ true)
    → has_delivery (build_finalize now counter claim result run_error) ≡ false
Quiet-command now counter claim result run_error q =
    decide (build_finalize-Consistent now counter claim result run_error).delivered_if_processed q
  where
    decide :
        {S : Type 0}
        → (has_delivery (build_finalize now counter claim result run_error) ≡ false)
          ⊎ (S × (run_error ≡ none) × (result.suppress_output ≡ false))
        → (run_error ≢ none) ⊎ (result.suppress_output ≡ true)
        → has_delivery (build_finalize now counter claim result run_error) ≡ false
    decide (inl e) q = e
    decide (inr (s, no_error, answers)) (inl failed) = absurd (failed no_error)
    decide (inr (s, no_error, answers)) (inr shut) = absurd (cc)

first_failed : (e f : Option String) → e ≢ none → first_error e f ≢ none
first_failed none f h = absurd (h refl)
first_failed (some x) f h = h

Quiet-translate :
    (claim : ClaimContext) (output : RunOutput) (error : Option String)
    → Quiet output error
    → (first_error error (translate claim output).1 ≢ none)
      ⊎ ((translate claim output).0.suppress_output ≡ true)
Quiet-translate claim output error (inl failed) =
    inl (first_failed error (translate claim output).1 failed)
Quiet-translate claim output error (inr s) = inr (translate-suppressed claim output s)

Quiet-execution :
    (now counter : ℕ) (claim : ClaimContext) (output : RunOutput) (error : Option String)
    → Quiet output error
    → let (result, run_error) =
        execute claim
          (returned (translate claim output).0 (first_error error (translate claim output).1)) in
      has_delivery (build_finalize now counter claim result run_error) ≡ false
Quiet-execution now counter claim output error q =
    Quiet-command now counter claim (execute claim (returned (translate claim output).0 none)).0
      (first_error error (translate claim output).1) (Quiet-translate claim output error q)

-- An event of a type that is claimed with the mode no_reply queues no reply, whatever the model and the
-- tools do: with the builtin payloads and the runner as the executor, its finalize command has nothing to
-- deliver.
pub command-silent :
    (runner : ClaimContext → Tools.Env) (max : ℕ) (env : Env) (claim : ClaimContext)
    → run_mode_for claim.event.payload.type ≡ no_reply
    → has_delivery
        (command (record env { executor = execute_run runner (some builtin_registry) max }) claim)
      ≡ false
unfolding execute_run
command-silent runner max env claim h =
    let ran =
      run (runner claim) (some builtin_registry) claim.event (normalize_max_tool_rounds max) in
    Quiet-execution env.finalized_at (suc env.counter) claim ran.0 ran.1
      (run-Quiet (runner claim) claim.event (normalize_max_tool_rounds max) h)
