-- ===== src/Runtime/Payload/Agreement.antt =====
-- internal/runtime/payload/registry.go and internal/store/tx/claim_work.go: two tables of run modes.
use simiclaw.Base.{
  ◌≡◌, refl, sym, ap, ◌∙◌, String, Bool, true, false, some, ◌==ˢ◌, if◌then◌else◌, arith, eq_iff,
}
use simiclaw.Base.Dict.{get, get-put}
use simiclaw.Store.Claim.{run_mode_for}
use simiclaw.Runtime.Payload.{
  Plan, Registry, register, resolve_plan, register_builtins, builtin_registry, new_registry,
  plan_of, Handler, message_handler, memory_flush_handler, compaction_handler, cron_fire_handler,
  interactive_plan,
}

-- A registration is found under its type, and changes no other type.
pub register-resolve_plan :
    (handler : Handler) (registry : Registry) (type : String)
    → resolve_plan (register handler registry) type
      ≡ (if handler.payload_type ==ˢ type then handler.plan else resolve_plan registry type)
unfolding resolve_plan register get
register-resolve_plan handler registry type =
    ap plan_of (get-put handler.payload_type type handler registry)
    ∙ planned (handler.payload_type ==ˢ type)
  where
    planned :
        (b : Bool)
        → plan_of (if b then some handler else get type registry)
          ≡ (if b then handler.plan else plan_of (get type registry))
    planned true = refl
    planned false = refl

-- The builtin registry by its four types.
builtin_plan :
    (type : String)
    → resolve_plan builtin_registry type ≡ (
        if "cron_fire" ==ˢ type
        then cron_fire_handler.plan
        else if "compaction" ==ˢ type
        then compaction_handler.plan
        else if "memory_flush" ==ˢ type
        then memory_flush_handler.plan
        else interactive_plan)
unfolding register_builtins resolve_plan get
builtin_plan type =
    let first = register message_handler new_registry in
    let second = register memory_flush_handler first in
    let third = register compaction_handler second in
    register-resolve_plan cron_fire_handler third type
    ∙ ap (λ p. if "cron_fire" ==ˢ type then cron_fire_handler.plan else p)
        (register-resolve_plan compaction_handler second type
          ∙ ap (λ p. if "compaction" ==ˢ type then compaction_handler.plan else p)
              (register-resolve_plan memory_flush_handler first type
                ∙ ap (λ p. if "memory_flush" ==ˢ type then memory_flush_handler.plan else p)
                    (register-resolve_plan message_handler new_registry type
                      ∙ either ("message" ==ˢ type))))
  where
    either :
        (b : Bool)
        → (if b then message_handler.plan else resolve_plan new_registry type) ≡ interactive_plan
    either true = refl
    either false = refl

same_test : (s t : String) → (s ==ˢ t) ≡ (t ==ˢ s)
same_test s t = ground (arith, eq_iff s t, eq_iff t s)

-- The run mode that the store writes when it claims an event is the run mode of the builtin plan for
-- the event's payload type, for every payload type.
pub run_mode_for-resolve_plan :
    (type : String) → run_mode_for type ≡ (resolve_plan builtin_registry type).run_mode
run_mode_for-resolve_plan type =
    modes ("memory_flush" ==ˢ type) ("compaction" ==ˢ type) ("cron_fire" ==ˢ type)
      (same_test type "memory_flush") (same_test type "compaction") (same_test type "cron_fire")
    ∙ ap (λ (p : Plan). p.run_mode) (sym (builtin_plan type))
  where
    modes :
        (b c d : Bool)
        → (type ==ˢ "memory_flush") ≡ b
        → (type ==ˢ "compaction") ≡ c
        → (type ==ˢ "cron_fire") ≡ d
        → run_mode_for type
          ≡ (if d
              then cron_fire_handler.plan
              else if c
              then compaction_handler.plan
              else if b
              then memory_flush_handler.plan
              else interactive_plan).run_mode
    modes b c d p q r = ground (arith, p, q, r)
