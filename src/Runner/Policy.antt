-- ===== src/Runner/Policy.antt =====
-- internal/runner/policy.go: which tools a run may call.
use Prim.Native.String.{◌++◌ as append}
use simiclaw.Base.{
  ℕ, String, Bool, true, false, ◌&&◌, Option, none, some, List, [], ◌∷◌, leb, ◌==ˢ◌, if◌then◌else◌,
}
use simiclaw.Base.Text.{quoted, trim_space, equal_fold}
use simiclaw.Base.Path.{clean}
use simiclaw.Base.Dict.{get}
use simiclaw.Model.{Fields, ToolCall, ErrorBlock}
use simiclaw.Runner.Model.{field_of, text_of}

abbrev pub contains : String → List String → Bool
contains s [] = false
contains s (x ∷ xs) = if x ==ˢ s then true else contains s xs

-- toolAllowed; a nil map, here the empty list, allows every tool.
abbrev pub tool_allowed : String → List String → Bool
tool_allowed name [] = true
tool_allowed name (a ∷ allowed) = contains name (a ∷ allowed)

abbrev pub is_cron_fire : String → Bool
is_cron_fire type = equal_fold (trim_space type) "cron_fire"

-- cronFireToolBudgets
abbrev pub cron_fire_tool_budgets : List (String × ℕ)
cron_fire_tool_budgets = ("memory_search", 1) ∷ ("memory_get", 1) ∷ ("context_get", 1) ∷ []

-- cronFireInjectedRootFiles
abbrev pub cron_fire_injected_root_files : List String
cron_fire_injected_root_files =
    "SOUL.md" ∷ "IDENTITY.md" ∷ "USER.md" ∷ "AGENTS.md" ∷ "TOOLS.md" ∷ "BOOTSTRAP.md"
    ∷ "HEARTBEAT.md" ∷ []

-- A missing count is zero.
abbrev pub or_zero : Option ℕ → ℕ
or_zero none = 0
or_zero (some n) = n

abbrev pub count_of : String → List (String × ℕ) → ℕ
count_of name counts = or_zero (get name counts)

abbrev pub over_budget : Option ℕ → ℕ → Bool
over_budget none n = false
over_budget (some budget) n = leb budget n

abbrev pub is_exhausted : String → List (String × ℕ) → Bool
is_exhausted name counts = over_budget (get name cron_fire_tool_budgets) (count_of name counts)

abbrev injected_path : Fields → String
injected_path args = clean (trim_space (text_of (field_of "path" args)))

abbrev pub is_injected : ToolCall → Bool
is_injected call =
    call.name ==ˢ "context_get" && contains (injected_path call.args) cron_fire_injected_root_files

abbrev pub forbidden : String → ErrorBlock
forbidden message = record { code = "FORBIDDEN"; message = message; details = Fields.end }

abbrev exhausted : String → ErrorBlock
exhausted name = forbidden (
    append "cron_fire tool budget exhausted for "
      (append (quoted name) "; summarize with current evidence instead of fetching more context"))

abbrev reread : String → ErrorBlock
reread path = forbidden (
    append "context_get " (
      append (quoted path)
        " is already injected into the cron_fire system prompt; summarize with current evidence instead of rereading it"))

-- cronFireToolPolicyError
unfoldable pub cron_fire_tool_policy_error : ToolCall → List (String × ℕ) → Option ErrorBlock
unfolding get field_of clean trim_space
cron_fire_tool_policy_error call counts =
    if is_exhausted call.name counts
    then some (exhausted call.name)
    else if is_injected call
    then some (reread (injected_path call.args))
    else none

-- toolRisk
abbrev pub tool_risk : String → String
tool_risk name =
    if name ==ˢ "workspace_patch"
    then "medium"
    else if name ==ˢ "workspace_delete"
    then "high"
    else "low"
