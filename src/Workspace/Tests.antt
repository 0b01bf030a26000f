-- ===== src/Workspace/Tests.antt =====
-- internal/workspacefile on a workspace with two files.
use simiclaw.Base.{◌≡◌, refl, ◌⊎◌, String, true, false, Option, none, some, [], ◌∷◌}
use simiclaw.Base.Path.{clean, parts_from}
use simiclaw.Base.Text.{trim_space, equal_fold}
use simiclaw.Workspace.Text.{
  Bytes, normalize_text, count_from, replace_first, has_prefix, validate_text_content, has_nul,
  valid_utf8,
}
use simiclaw.Workspace.Paths.{
  Names, File, Files, System, Stat, is_within, workspace_root, resolve_path,
  resolve_workspace_candidate, resolve_effective_path, normalize_request_path,
  find_existing_ancestor, is_dm,
}
use simiclaw.Workspace.Files.{PatchArgs, get_file, remove_file, patch}
use simiclaw.Workspace.Files.Inside.{Wrote, patch-Wrote}
use simiclaw.Workspace.Files.Exact.{Exact, patch-Exact}

abbrev root : Names
root = "ws" ∷ []

abbrev file_of : Bytes → File
file_of content = record { regular = true; mode = 420; content = content }

abbrev files : Files
files =
    ("ws" ∷ "a.md" ∷ [], file_of (97 ∷ 13 ∷ 10 ∷ 98 ∷ []))
    ∷ ("ws" ∷ "runtime" ∷ "x" ∷ [], file_of (97 ∷ []))
    ∷ []

abbrev found : Option File → Option Stat
found none = none
found (some f) = some (record { is_dir = false; is_link = false })

-- A system without links.
abbrev system : System
system = record {
  lstat = λ files names. found (get_file names files);
  eval_symlinks = λ files names. some names;
}

abbrev args_of : String → PatchArgs
args_of path = record { path = path; old_text = 97 ∷ 10 ∷ []; new_text = 99 ∷ []; create = false }

abbrev hash : Bytes → String
hash content = "…"

patched :
    (patch system hash root "dm" (args_of "./b/../a.md") files).1
    ≡ ("ws" ∷ "a.md" ∷ [], file_of (99 ∷ 98 ∷ []))
      ∷ ("ws" ∷ "runtime" ∷ "x" ∷ [], file_of (97 ∷ []))
      ∷ []
unfolding patch resolve_path resolve_workspace_candidate resolve_effective_path
    normalize_request_path find_existing_ancestor is_within is_dm trim_space equal_fold clean
    parts_from normalize_text count_from replace_first has_prefix validate_text_content has_nul
    valid_utf8 get_file remove_file
patched = refl

denied : (patch system hash root "dm" (args_of "runtime/x") files).1 ≡ files
unfolding patch resolve_path resolve_workspace_candidate resolve_effective_path
    normalize_request_path find_existing_ancestor is_within is_dm trim_space equal_fold clean
    parts_from get_file
denied = refl

patch-Wrote_example :
    ((patch system hash root "dm" (args_of "a.md") files).1 ≡ files)
    ⊎ Wrote
        (workspace_root system files root)
        "dm"
        files
        (patch system hash root "dm" (args_of "a.md") files).1
patch-Wrote_example = patch-Wrote system hash root "dm" (args_of "a.md") files

patch-Exact_example :
    Exact (args_of "a.md") files (patch system hash root "dm" (args_of "a.md") files)
patch-Exact_example = patch-Exact system hash root "dm" (args_of "a.md") files
