-- ===== src/Workspace/Files.antt =====
-- internal/workspacefile/workspacefile.go: Patch and Delete. Writes do not fail, and AtomicWriteFile puts
-- the whole file in place.
pub mod Inside
pub mod Exact
use Prim.Native.String.{◌++◌ as append}
use simiclaw.Base.{
  ℕ, zero, suc, String, Bool, true, false, not, Option, none, some, List, [], ◌∷◌, length, ◌==◌,
  ◌==ˢ◌, if◌then◌else◌,
}
use simiclaw.Base.Result.{Result, ok, err}
use simiclaw.Workspace.Text.{
  Bytes, Error, has_no_text, error, normalize_text, count_from, replace_first,
  validate_text_content,
}
use simiclaw.Workspace.Paths.{Names, File, Files, System, PathInfo, resolve_path, Stat, join_clean}
use simiclaw.Base.Path.{parts_from}

abbrev pub same_names : Names → Names → Bool
same_names [] [] = true
same_names [] (d ∷ ds) = false
same_names (c ∷ cs) [] = false
same_names (c ∷ cs) (d ∷ ds) = if c ==ˢ d then same_names cs ds else false

unfoldable pub get_file : Names → Files → Option File
get_file names [] = none
get_file names ((n, f) ∷ files) = if same_names n names then some f else get_file names files

unfoldable pub remove_file : Names → Files → Files
remove_file names [] = []
remove_file names ((n, f) ∷ files) =
    let rest = remove_file names files in if same_names n names then rest else (n, f) ∷ rest

-- AtomicWriteFile
abbrev pub write_file : Names → Bytes → ℕ → Files → Files
write_file names content mode files =
    (names, record { regular = true; mode = mode; content = content }) ∷ remove_file names files

pub record PatchArgs : Type 0 where
  pub path : String
  pub old_text : Bytes
  pub new_text : Bytes
  pub create : Bool

-- The hash of the bytes is an argument.
pub record PatchResult : Type 0 where
  pub path : String
  pub operation : String
  pub bytes_written : ℕ
  pub sha256 : String

abbrev build_patch_result : (Bytes → String) → String → String → Bytes → PatchResult
build_patch_result hash path operation content = record {
  path = path;
  operation = operation;
  bytes_written = length content;
  sha256 = hash content;
}

-- DefaultFileMode, 0o644
abbrev pub default_file_mode : ℕ
default_file_mode = 420

abbrev not_found : String → Error
not_found path = error "not_found" (append "file not found: " path)

abbrev conflict : String → ℕ → Error
conflict path count = record {
  code = "conflict";
  message = append "old_text must match exactly once in " path;
  match_count = some count;
}

-- What an operation comes to, and the files after it.
abbrev pub Outcome : Type 0 → Type 0
Outcome A = Result Error A × Files

abbrev pub create_file :
    (Bytes → String) → PathInfo → PatchArgs → Bytes → Files → Outcome PatchResult
create_file hash info args new files =
    if not args.create then (err (not_found info.request_path), files) else (
      ok (build_patch_result hash info.request_path "created" new),
      write_file info.abs_path new default_file_mode files,
    )

abbrev updated_file :
    (Bytes → String) → PathInfo → ℕ → Bytes → Option Error → Files → Outcome PatchResult
updated_file hash info mode updated (some e) files = (err e, files)
updated_file hash info mode updated none files = (
  ok (build_patch_result hash info.request_path "patched" updated),
  write_file info.abs_path updated mode files,
)

abbrev replace_in :
    (Bytes → String) → PathInfo → ℕ → Bytes → Bytes → Bytes → Files → Outcome PatchResult
replace_in hash info mode current old new files =
    let match_count = count_from 0 old current in
    let updated = replace_first old new current in
    if not (match_count == 1)
    then (err (conflict info.request_path match_count), files)
    else updated_file hash info mode updated (validate_text_content updated) files

abbrev patch_text :
    (Bytes → String)
    → PathInfo
    → PatchArgs
    → File
    → Bytes
    → Option Error
    → Files
    → Outcome PatchResult
patch_text hash info args f new (some e) files = (err e, files)
patch_text hash info args f new none files =
    replace_in hash info f.mode (normalize_text f.content) (normalize_text args.old_text) new files

abbrev not_regular : Error
not_regular = error "invalid_argument" "path does not point to a regular file"

abbrev patch_file :
    (Bytes → String) → PathInfo → PatchArgs → Bytes → Option File → Files → Outcome PatchResult
patch_file hash info args new none files = (err (not_found info.request_path), files)
patch_file hash info args new (some f) files =
    if not f.regular
    then (err not_regular, files)
    else patch_text hash info args f new (validate_text_content f.content) files

abbrev existing_file : (Bytes → String) → PathInfo → PatchArgs → Bytes → Files → Outcome PatchResult
existing_file hash info args new files =
    if args.create
    then (
      err (
          error "conflict" (append "create requested but file already exists: " info.request_path)),
      files,
    )
    else if has_no_text args.old_text
    then (
      err (error "invalid_argument" "old_text is required when patching an existing file"),
      files,
    )
    else patch_file hash info args new (get_file info.abs_path files) files

abbrev validated :
    (Bytes → String) → PathInfo → PatchArgs → Bytes → Option Error → Files → Outcome PatchResult
validated hash info args new (some e) files = (err e, files)
validated hash info args new none files =
    if not info.exists
    then create_file hash info args new files
    else existing_file hash info args new files

abbrev with_path :
    (Bytes → String) → Result Error PathInfo → PatchArgs → Files → Outcome PatchResult
with_path hash (err e) args files = (err e, files)
with_path hash (ok info) args files =
    let new = normalize_text args.new_text in
    validated hash info args new (validate_text_content new) files

-- Patch
unfoldable pub patch :
    System → (Bytes → String) → Names → String → PatchArgs → Files → Outcome PatchResult
unfolding resolve_path validate_text_content normalize_text count_from replace_first get_file
    remove_file
patch system hash workspace channel_type args files =
    with_path hash (resolve_path system files workspace args.path channel_type) args files

pub record DeleteResult : Type 0 where
  pub path : String
  pub operation : String

abbrev pub removed_file : PathInfo → Option Error → Files → Outcome DeleteResult
removed_file info (some e) files = (err e, files)
removed_file info none files = (
  ok (record { path = info.request_path; operation = "deleted" }),
  remove_file info.abs_path files,
)

abbrev delete_file : PathInfo → Option File → Files → Outcome DeleteResult
delete_file info none files = (err (not_found info.request_path), files)
delete_file info (some f) files =
    if not f.regular
    then (err not_regular, files)
    else removed_file info (validate_text_content f.content) files

-- A link is not followed.
abbrev delete_requested : PathInfo → Option Stat → Files → Outcome DeleteResult
delete_requested info none files = (err (not_found info.request_path), files)
delete_requested info (some stat) files =
    if stat.is_link
    then (err (error "invalid_argument" "path points to a symlink, not a regular file"), files)
    else delete_file info (get_file info.abs_path files) files

abbrev delete_path : System → Names → Result Error PathInfo → Files → Outcome DeleteResult
delete_path system workspace (err e) files = (err e, files)
delete_path system workspace (ok info) files =
    if not info.exists
    then (err (not_found info.request_path), files)
    else delete_requested info (system.lstat files (join_clean workspace info.request_path)) files

-- Delete
unfoldable pub delete : System → Names → String → String → Files → Outcome DeleteResult
unfolding resolve_path validate_text_content get_file remove_file parts_from
delete system workspace channel_type path files =
    delete_path system workspace (resolve_path system files workspace path channel_type) files
