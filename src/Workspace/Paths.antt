-- ===== src/Workspace/Paths.antt =====
-- internal/workspacefile/workspacefile.go: the file that a path names. An absolute path is the list of the
-- names on it, from the root on. Of the failures of the system only that a file does not exist is modelled.
pub mod Allowed
use Prim.Native.Char.{Char, code}
use Prim.Native.String.{◌++◌ as append}
use simiclaw.Base.{
  ℕ, String, Bool, true, false, not, ◌&&◌, ◌||◌, Option, none, some, List, [], ◌∷◌, ◌++◌, length,
  drop, ◌==◌, ◌==ˢ◌, if◌then◌else◌,
}
use simiclaw.Base.Result.{Result, ok, err}
use simiclaw.Base.Text.{is_empty, trim_space, equal_fold, quoted}
use simiclaw.Base.Path.{clean, parts_from, is_rooted}
use simiclaw.Workspace.Text.{Bytes, Error, error}

abbrev pub Names : Type 0
Names = List String

pub record File : Type 0 where
  pub regular : Bool
  pub mode : ℕ
  pub content : Bytes

-- The files by their names, symbolic links resolved.
abbrev pub Files : Type 0
Files = List (Names × File)

-- os.Lstat, where something exists: whether it is a directory, and whether it is a symbolic link.
pub record Stat : Type 0 where
  pub is_dir : Bool
  pub is_link : Bool

-- What the system tells of the directories and links above the files.
pub record System : Type 0 where
  pub lstat : Files → Names → Option Stat
  pub eval_symlinks : Files → Names → Option Names

pub record PathInfo : Type 0 where
  pub request_path : String
  pub effective_path : Names
  pub abs_path : Names
  pub exists : Bool
  pub channel_type : String

pub record PathCandidate : Type 0 where
  pub request_path : String
  pub workspace_real : Names
  pub candidate_abs : Names

abbrev outside : Error
outside = error "forbidden" "path denied: outside workspace"

abbrev pub escapes : Error
escapes = error "forbidden" "path denied: symlink escapes workspace"

abbrev goes_up : List String → Bool
goes_up [] = false
goes_up (p ∷ ps) = p ==ˢ ".."

-- normalizeRequestPath
unfoldable pub normalize_request_path : String → Result Error String
unfolding trim_space clean parts_from
normalize_request_path raw_path =
    let p = trim_space raw_path in
    let cleaned = clean p in
    if is_empty p
    then err (error "invalid_argument" "path is required")
    else if is_rooted cleaned || goes_up (parts_from "" cleaned)
    then err outside
    else ok cleaned

-- filepath.Join(workspaceAbs, cleanPath), for a clean path
abbrev pub join_clean : Names → String → Names
join_clean workspace cleaned =
    if cleaned ==ˢ "." then workspace else workspace ++ parts_from "" cleaned

-- isWithinWorkspace: filepath.Rel does not go up.
unfoldable pub is_within : Names → Names → Bool
is_within [] candidate = true
is_within (w ∷ ws) [] = false
is_within (w ∷ ws) (c ∷ cs) = if w ==ˢ c then is_within ws cs else false

-- filepath.Rel, inside of the workspace
abbrev pub rel : Names → Names → Names
rel workspace candidate = drop (length workspace) candidate

abbrev or_same : Names → Option Names → Names
or_same names none = names
or_same names (some resolved) = resolved

-- resolveWorkspaceRoot: the root with its links resolved.
abbrev pub workspace_root : System → Files → Names → Names
workspace_root system files workspace = or_same workspace (system.eval_symlinks files workspace)

abbrev candidate_in : System → Files → Names → String → Result Error PathCandidate
candidate_in system files workspace cleaned =
    let candidate = join_clean workspace cleaned in
    if is_within workspace candidate
    then ok (record {
      request_path = cleaned;
      workspace_real = workspace_root system files workspace;
      candidate_abs = candidate;
    })
    else err outside

abbrev with_clean : System → Files → Names → Result Error String → Result Error PathCandidate
with_clean system files workspace (err e) = err e
with_clean system files workspace (ok cleaned) = candidate_in system files workspace cleaned

-- resolveWorkspaceCandidate
unfoldable pub resolve_workspace_candidate :
    System → Files → Names → String → Result Error PathCandidate
unfolding normalize_request_path is_within parts_from
resolve_workspace_candidate system files workspace raw_path =
    with_clean system files workspace (normalize_request_path raw_path)

-- The effective path, absolute and from the workspace's root.
abbrev inside : Names → Names → Result Error (Names × Names)
inside root resolved =
    if is_within root resolved then ok (resolved, rel root resolved) else err escapes

abbrev existing : Names → Option Names → Result Error (Names × Names)
existing root none = err (error "invalid_argument" "path points to a broken symlink")
existing root (some resolved) = inside root resolved

-- Names that are read from the last one on, as a path.
abbrev from_last : List String → Names
from_last [] = []
from_last (name ∷ above) = from_last above ++ name ∷ []

-- findExistingAncestor, on the names from the last one on.
unfoldable pub find_existing_ancestor :
    System → Files → List String → Names → Option (Names × Names)
find_existing_ancestor system files [] tail = elim (system.lstat files []) [
  | none ↦ none
  | some stat ↦ some ([], tail)
]
find_existing_ancestor system files (name ∷ above) tail =
    let further = find_existing_ancestor system files above (name ∷ tail) in
    elim (system.lstat files (from_last (name ∷ above))) [
      | none ↦ further
      | some stat ↦ some (from_last (name ∷ above), tail)
    ]

-- The new file under an ancestor that exists.
abbrev below : Names → Names → Option Names → Result Error (Names × Names)
below root tail none = err (error "" "lstat: no such file or directory")
below root tail (some ancestor) =
    if is_within root ancestor then inside root (ancestor ++ tail) else err escapes

abbrev missing : System → Files → Names → Option (Names × Names) → Result Error (Names × Names)
missing system files root none = err (error "" "no existing ancestor")
missing system files root (some (ancestor, tail)) =
    below root tail (system.eval_symlinks files ancestor)

-- resolveEffectivePath
unfoldable pub resolve_effective_path :
    System → Files → Names → Names → Bool → Result Error (Names × Names)
unfolding find_existing_ancestor is_within
resolve_effective_path system files root candidate exists =
    if exists
    then existing root (system.eval_symlinks files candidate)
    else missing system files root (find_existing_ancestor system files (from_last candidate) [])

-- isRuntimePath
abbrev pub is_runtime_path : Names → Bool
is_runtime_path [] = false
is_runtime_path (p ∷ ps) = p ==ˢ "runtime"

-- isPrivateMemoryPath
abbrev pub is_private_memory_path : Names → Bool
is_private_memory_path (p ∷ q ∷ r ∷ rest) = p ==ˢ "memory" && q ==ˢ "private"
is_private_memory_path _ = false

unfoldable pub is_dm : String → Bool
unfolding trim_space equal_fold
is_dm channel_type = equal_fold (trim_space channel_type) "dm"

abbrev exists_of : Option Stat → Bool
exists_of none = false
exists_of (some stat) = true

abbrev is_directory : Option Stat → Bool
is_directory none = false
is_directory (some stat) = stat.is_dir

-- What ResolvePath checks of the effective path.
abbrev checked :
    String → String → Option Stat → Result Error (Names × Names) → Result Error PathInfo
checked request_path channel_type stat (err e) = err e
checked request_path channel_type stat (ok (effective_abs, effective_rel)) =
    if is_runtime_path effective_rel
    then err (
        error "forbidden"
          (append "path denied: " (append (quoted request_path) " is under runtime/")))
    else if is_private_memory_path effective_rel && not (is_dm channel_type)
    then err (error "forbidden" "path denied: private memory requires dm channel")
    else if is_directory stat
    then err (error "invalid_argument" "path points to a directory")
    else ok (record {
      request_path = request_path;
      effective_path = effective_rel;
      abs_path = effective_abs;
      exists = exists_of stat;
      channel_type = channel_type;
    })

abbrev of_candidate : System → Files → String → Result Error PathCandidate → Result Error PathInfo
of_candidate system files channel_type (err e) = err e
of_candidate system files channel_type (ok c) =
    let stat = system.lstat files c.candidate_abs in
    checked c.request_path channel_type stat
      (resolve_effective_path system files c.workspace_real c.candidate_abs (exists_of stat))

-- ResolvePath
unfoldable pub resolve_path : System → Files → Names → String → String → Result Error PathInfo
unfolding resolve_workspace_candidate resolve_effective_path is_dm
resolve_path system files workspace raw_path channel_type =
    of_candidate system files channel_type
      (resolve_workspace_candidate system files workspace raw_path)
