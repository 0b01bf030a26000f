-- ===== src/Workspace/Paths/Allowed.antt =====
-- internal/workspacefile/workspacefile.go: which files a path can name.
use mathlib.Core.Path.{subst}
use simiclaw.Base.{
  ◌≡◌, refl, sym, ap, ◌∙◌, ◌⊎◌, inl, inr, String, Bool, true, false, not, ◌&&◌, Option, none, some,
  [], Bool-cases,
}
use simiclaw.Base.Result.{Result, ok, err}
use simiclaw.Workspace.Text.{Error}
use simiclaw.Workspace.Paths.{
  Names, Files, System, PathInfo, PathCandidate, Stat, rel, is_within, workspace_root,
  resolve_workspace_candidate, resolve_effective_path, resolve_path, is_runtime_path,
  is_private_memory_path, is_dm, normalize_request_path, with_clean, find_existing_ancestor,
  existing, missing, inside, below, checked, of_candidate, from_last, join_clean, exists_of,
  is_directory,
}

-- A file that may be written from a channel: it is in the workspace, not under runtime/, and under
-- memory/private/ only from a direct message.
pub record Allowed (root : Names) (channel_type : String) (abs : Names) : Type 0 where
  pub is_inside : is_within root abs ≡ true
  pub no_runtime : is_runtime_path (rel root abs) ≡ false
  pub no_private : (is_private_memory_path (rel root abs) ≡ false) ⊎ (is_dm channel_type ≡ true)

-- The effective path is in the workspace.
abbrev Effective : Names → Result Error (Names × Names) → Type 0
Effective root (err e) = Unit
Effective root (ok (abs, r)) = (is_within root abs ≡ true) × (r ≡ rel root abs)

inside-Effective : (root resolved : Names) → Effective root (inside root resolved)
inside-Effective root resolved = elim (Bool-cases (is_within root resolved)) [
  | inl e ↦ rw e (e, refl)
  | inr e ↦ rw e tt
]

existing-Effective : (root : Names) (o : Option Names) → Effective root (existing root o)
existing-Effective root none = tt
existing-Effective root (some resolved) = inside-Effective root resolved

missing-Effective :
    (system : System) (files : Files) (root : Names) (o : Option (Names × Names))
    → Effective root (missing system files root o)
missing-Effective system files root none = tt
missing-Effective system files root (some (ancestor, tail)) =
    under (system.eval_symlinks files ancestor)
  where
    under : (o : Option Names) → Effective root (below root tail o)
    under none = tt
    under (some resolved) = elim (Bool-cases (is_within root resolved)) [
      | inl e ↦ rw e (inside-Effective root _)
      | inr e ↦ rw e tt
    ]

resolve_effective_path-Effective :
    (system : System) (files : Files) (root candidate : Names) (exists : Bool)
    → Effective root (resolve_effective_path system files root candidate exists)
unfolding resolve_effective_path
resolve_effective_path-Effective system files root candidate true =
    existing-Effective root (system.eval_symlinks files candidate)
resolve_effective_path-Effective system files root candidate false =
    missing-Effective system files root
      (find_existing_ancestor system files (from_last candidate) [])

-- The candidate's root is the workspace's.
abbrev Rooted : Names → Result Error PathCandidate → Type 0
Rooted root (err e) = Unit
Rooted root (ok c) = c.workspace_real ≡ root

with_clean-Rooted :
    (system : System) (files : Files) (workspace : Names) (r : Result Error String)
    → Rooted (workspace_root system files workspace) (with_clean system files workspace r)
with_clean-Rooted system files workspace (err e) = tt
with_clean-Rooted system files workspace (ok cleaned) =
    elim (Bool-cases (is_within workspace (join_clean workspace cleaned))) [
      | inl e ↦ rw e refl
      | inr e ↦ rw e tt
    ]

abbrev pub AllowedInfo : Names → String → Result Error PathInfo → Type 0
AllowedInfo root channel_type (err e) = Unit
AllowedInfo root channel_type (ok info) = Allowed root channel_type info.abs_path

checked-AllowedInfo :
    (root : Names) (request_path channel_type : String) (stat : Option Stat)
    (r : Result Error (Names × Names))
    → Effective root r
    → AllowedInfo root channel_type (checked request_path channel_type stat r)
checked-AllowedInfo root request_path channel_type stat (err e) h = tt
checked-AllowedInfo root request_path channel_type stat (ok (abs, r)) (within, e) =
    elim (Bool-cases (is_runtime_path r)) [
      | inl runtime ↦ rw runtime tt
      | inr runtime ↦
          rw runtime (elim (Bool-cases (is_private_memory_path r && not (is_dm channel_type))) [
            | inl private ↦ rw private tt
            | inr private ↦ rw private (elim (Bool-cases (is_directory stat)) [
              | inl dir ↦ rw dir tt
              | inr dir ↦
                  rw dir (
                    allowed runtime
                      (public (is_private_memory_path r) (is_dm channel_type) private))
            ])
          ])
    ]
  where
    public : (p d : Bool) → (p && not d) ≡ false → (p ≡ false) ⊎ (d ≡ true)
    public false d h = inl refl
    public true true h = inr refl
    public true false h = absurd (cc)

    allowed :
        is_runtime_path r ≡ false
        → (is_private_memory_path r ≡ false) ⊎ (is_dm channel_type ≡ true)
        → Allowed root channel_type abs
    allowed runtime private = record {
      is_inside = within;
      no_runtime = ap is_runtime_path (sym e) ∙ runtime;
      no_private =
          subst (λ n. (is_private_memory_path n ≡ false) ⊎ (is_dm channel_type ≡ true)) e private;
    }

pub resolve_path-AllowedInfo :
    (system : System) (files : Files) (workspace : Names) (raw_path channel_type : String)
    → AllowedInfo
        (workspace_root system files workspace)
        channel_type
        (resolve_path system files workspace raw_path channel_type)
unfolding resolve_path resolve_workspace_candidate
resolve_path-AllowedInfo system files workspace raw_path channel_type =
    from (resolve_workspace_candidate system files workspace raw_path)
      (with_clean-Rooted system files workspace (normalize_request_path raw_path))
  where
    root : Names
    root = workspace_root system files workspace

    from :
        (r : Result Error PathCandidate)
        → Rooted root r
        → AllowedInfo root channel_type (of_candidate system files channel_type r)
    from (err e) h = tt
    from (ok c) h =
        let stat = system.lstat files c.candidate_abs in
        checked-AllowedInfo root c.request_path channel_type stat
          (resolve_effective_path system files c.workspace_real c.candidate_abs (exists_of stat))
          (subst
            (λ n. Effective n (
              resolve_effective_path system files c.workspace_real c.candidate_abs
                (exists_of stat)))
            h
            (resolve_effective_path-Effective system files c.workspace_real c.candidate_abs
              (exists_of stat)))
