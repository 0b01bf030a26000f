-- ===== src/Workspace/Files/Inside.antt =====
-- internal/workspacefile/workspacefile.go: which files the operations write.
use simiclaw.Base.{
  ℕ, ◌≡◌, refl, ◌⊎◌, inl, inr, String, Bool, true, false, not, Option, none, some, ◌==◌,
  if◌then◌else◌,
}
use simiclaw.Base.Result.{Result, ok, err}
use simiclaw.Workspace.Text.{
  Bytes, Error, normalize_text, count_from, replace_first, validate_text_content,
}
use simiclaw.Workspace.Paths.{
  Names, File, Files, System, PathInfo, Stat, workspace_root, resolve_path, join_clean,
}
use simiclaw.Workspace.Paths.Allowed.{Allowed, AllowedInfo, resolve_path-AllowedInfo}
use simiclaw.Workspace.Files.{
  Outcome, PatchArgs, PatchResult, DeleteResult, write_file, remove_file, get_file, patch, delete,
  with_path, validated, patch_file, patch_text, replace_in, updated_file, delete_path,
  delete_requested, delete_file, removed_file, default_file_mode,
}

-- One file that may be written has got a text that passes the checks.
pub record Wrote (root : Names) (channel_type : String) (files files' : Files) : Type 0 where
  pub abs : Names
  pub content : Bytes
  pub mode : ℕ
  pub allowed : Allowed root channel_type abs
  pub is_text : validate_text_content content ≡ none
  pub written : files' ≡ write_file abs content mode files

-- One file that may be written is gone.
pub record Removed (root : Names) (channel_type : String) (files files' : Files) : Type 0 where
  pub abs : Names
  pub allowed : Allowed root channel_type abs
  pub removed : files' ≡ remove_file abs files

if_both : {A : Type 0} (P : A → Type 0) (b : Bool) (x y : A) → P x → P y → P (if b then x else y)
if_both P true x y p q = p
if_both P false x y p q = q

module _ (root : Names) (channel_type : String) (files : Files) (info : PathInfo)
    (allowed : Allowed root channel_type info.abs_path) (hash : Bytes → String)
    (args : PatchArgs) where
  abbrev Patched : Outcome PatchResult → Type 0
  Patched o = (o.1 ≡ files) ⊎ Wrote root channel_type files o.1

  wrote :
      (content : Bytes) (mode : ℕ)
      → validate_text_content content ≡ none
      → Wrote root channel_type files (write_file info.abs_path content mode files)
  wrote content mode h = record {
    abs = info.abs_path;
    content = content;
    mode = mode;
    allowed = allowed;
    is_text = h;
    written = refl;
  }

  updated_file-Patched :
      (mode : ℕ) (updated : Bytes) (o : Option Error)
      → validate_text_content updated ≡ o
      → Patched (updated_file hash info mode updated o files)
  updated_file-Patched mode updated (some e) h = inl refl
  updated_file-Patched mode updated none h = inr (wrote updated mode h)

  replace_in-Patched :
      (mode : ℕ) (current old new : Bytes)
      → Patched (replace_in hash info mode current old new files)
  replace_in-Patched mode current old new =
      if_both Patched (not (count_from 0 old current == 1)) _
        (updated_file hash info mode (replace_first old new current)
          (validate_text_content (replace_first old new current)) files)
        (inl refl) (updated_file-Patched mode (replace_first old new current) _ refl)

  patch_text-Patched :
      (f : File) (new : Bytes) (o : Option Error)
      → Patched (patch_text hash info args f new o files)
  patch_text-Patched f new (some e) = inl refl
  patch_text-Patched f new none = replace_in-Patched f.mode _ _ new

  patch_file-Patched :
      (new : Bytes) (o : Option File) → Patched (patch_file hash info args new o files)
  patch_file-Patched new none = inl refl
  patch_file-Patched new (some f) =
      if_both Patched (not f.regular) _ _ (inl refl)
        (patch_text-Patched f new (validate_text_content f.content))

  validated-Patched :
      (new : Bytes) (o : Option Error)
      → validate_text_content new ≡ o
      → Patched (validated hash info args new o files)
  validated-Patched new (some e) h = inl refl
  validated-Patched new none h =
      if_both Patched (not info.exists) _ _
        (if_both Patched (not args.create) _ _ (inl refl) (inr (wrote new default_file_mode h)))
        (if_both Patched args.create _ _ (inl refl) (
          if_both Patched _ _ _ (inl refl) (patch_file-Patched new (get_file info.abs_path files))))

-- Whatever path a patch is given, and whatever links the workspace has: it changes no file, or it writes
-- one file that is in the workspace, not under runtime/, and under memory/private/ only from a direct
-- message, with a text of UTF-8 that is within the limit and has no NUL.
pub patch-Wrote :
    (system : System) (hash : Bytes → String) (workspace : Names) (channel_type : String)
    (args : PatchArgs) (files : Files)
    → ((patch system hash workspace channel_type args files).1 ≡ files)
      ⊎ Wrote
          (workspace_root system files workspace)
          channel_type
          files
          (patch system hash workspace channel_type args files).1
unfolding patch
patch-Wrote system hash workspace channel_type args files =
    from (resolve_path system files workspace args.path channel_type)
      (resolve_path-AllowedInfo system files workspace args.path channel_type)
  where
    root : Names
    root = workspace_root system files workspace

    from :
        (r : Result Error PathInfo)
        → AllowedInfo root channel_type r
        → ((with_path hash r args files).1 ≡ files)
          ⊎ Wrote root channel_type files (with_path hash r args files).1
    from (err e) h = inl refl
    from (ok info) h =
        validated-Patched root channel_type files info h hash args (normalize_text args.new_text) _
          refl

-- A deletion removes no file, or one that is in the workspace, not under runtime/, and under
-- memory/private/ only from a direct message.
pub delete-Removed :
    (system : System) (workspace : Names) (channel_type path : String) (files : Files)
    → ((delete system workspace channel_type path files).1 ≡ files)
      ⊎ Removed
          (workspace_root system files workspace)
          channel_type
          files
          (delete system workspace channel_type path files).1
unfolding delete
delete-Removed system workspace channel_type path files =
    from (resolve_path system files workspace path channel_type)
      (resolve_path-AllowedInfo system files workspace path channel_type)
  where
    root : Names
    root = workspace_root system files workspace

    Deleted : Outcome DeleteResult → Type 0
    Deleted o = (o.1 ≡ files) ⊎ Removed root channel_type files o.1

    gone :
        (info : PathInfo) (o : Option Error)
        → Allowed root channel_type info.abs_path
        → Deleted (removed_file info o files)
    gone info (some e) h = inl refl
    gone info none h = inr (record { abs = info.abs_path; allowed = h; removed = refl })

    file :
        (info : PathInfo) (o : Option File)
        → Allowed root channel_type info.abs_path
        → Deleted (delete_file info o files)
    file info none h = inl refl
    file info (some f) h =
        if_both Deleted (not f.regular) _ _ (inl refl)
          (gone info (validate_text_content f.content) h)

    requested :
        (info : PathInfo) (o : Option Stat)
        → Allowed root channel_type info.abs_path
        → Deleted (delete_requested info o files)
    requested info none h = inl refl
    requested info (some stat) h =
        if_both Deleted stat.is_link _ _ (inl refl) (file info (get_file info.abs_path files) h)

    from :
        (r : Result Error PathInfo)
        → AllowedInfo root channel_type r
        → Deleted (delete_path system workspace r files)
    from (err e) h = inl refl
    from (ok info) h =
        if_both Deleted (not info.exists) _ _ (inl refl)
          (requested info (system.lstat files (join_clean workspace info.request_path)) h)
