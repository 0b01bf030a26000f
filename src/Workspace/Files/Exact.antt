-- ===== src/Workspace/Files/Exact.antt =====
-- internal/workspacefile/workspacefile.go: what a patch makes of a file.
use mathlib.Core.Path.{subst}
use simiclaw.Base.{
  ◌≡◌, refl, sym, ◌⊎◌, inl, inr, String, true, false, not, Option, none, some, ◌==◌, arith,
}
use simiclaw.Base.Result.{Result, ok, err}
use simiclaw.Workspace.Text.{
  Bytes, Error, has_no_text, normalize_text, count_from, replace_first, validate_text_content,
}
use simiclaw.Workspace.Text.Lines.{if_known, Nonempty, normalize_text-Nonempty}
use simiclaw.Workspace.Text.Unique.{Around, replace_first-Around}
use simiclaw.Workspace.Paths.{Names, File, Files, System, PathInfo, resolve_path}
use simiclaw.Workspace.Files.{
  Outcome, PatchArgs, PatchResult, write_file, get_file, patch, with_path, validated, patch_file,
  patch_text, updated_file, default_file_mode,
}

-- A new file with the new text.
pub record Created (args : PatchArgs) (files files' : Files) : Type 0 where
  pub abs : Names
  pub asked : args.create ≡ true
  pub written : files' ≡ write_file abs (normalize_text args.new_text) default_file_mode files

-- An old file, in whose text the one place of the old text has the new text.
pub record Replaced (args : PatchArgs) (files files' : Files) : Type 0 where
  pub abs : Names
  pub file : File
  pub content : Bytes
  pub was : get_file abs files ≡ some file
  pub around :
      Around
        (normalize_text args.old_text)
        (normalize_text args.new_text)
        (normalize_text file.content)
        content
  pub only : count_from 0 (normalize_text args.old_text) around.after ≡ 0
  pub written : files' ≡ write_file abs content file.mode files

-- What a patch comes to.
abbrev pub Exact : PatchArgs → Files → Outcome PatchResult → Type 0
Exact args files (err e, files') = files' ≡ files
Exact args files (ok result, files') = Created args files files' ⊎ Replaced args files files'

-- The replacement of the one match of a text that is not empty.
replaced_once :
    (old new s : Bytes)
    → Nonempty old
    → count_from 0 old s ≡ 1
    → (a : Around old new s (replace_first old new s)) × (count_from 0 old a.after ≡ 0)
replaced_once old new s n h =
    subst
      (λ o.
        count_from 0 o s ≡ 1
        → (a : Around o new s (replace_first o new s)) × (count_from 0 o a.after ≡ 0))
      (sym n.is)
      (λ e. let a = replace_first-Around n.first n.rest new s 0 e in (a, omega (arith, e, a.once)))
      h

module _ (files : Files) (info : PathInfo) (hash : Bytes → String) (args : PatchArgs) where
  old : Bytes
  old = normalize_text args.old_text

  new : Bytes
  new = normalize_text args.new_text

  updated_file-Exact :
      (f : File) (updated : Bytes) (o : Option Error)
      → get_file info.abs_path files ≡ some f
      → (a : Around old new (normalize_text f.content) updated) × (count_from 0 old a.after ≡ 0)
      → Exact args files (updated_file hash info f.mode updated o files)
  unfolding old new
  updated_file-Exact f updated (some e) g (a, one) = refl
  updated_file-Exact f updated none g (a, one) = inr (record {
    abs = info.abs_path;
    file = f;
    content = updated;
    was = g;
    around = a;
    only = one;
    written = refl;
  })

  patch_text-Exact :
      (f : File) (o : Option Error)
      → get_file info.abs_path files ≡ some f
      → has_no_text args.old_text ≡ false
      → Exact args files (patch_text hash info args f new o files)
  unfolding old new
  patch_text-Exact f (some e) g t = refl
  patch_text-Exact f none g t =
      let current = normalize_text f.content in
      if_known (Exact args files) (not (count_from 0 old current == 1)) _ _ (λ h. refl)
        (λ h. updated_file-Exact f (replace_first old new current) _ g (
          replaced_once old new current (normalize_text-Nonempty args.old_text t)
            (ground (arith, h))))

  patch_file-Exact :
      (o : Option File)
      → get_file info.abs_path files ≡ o
      → has_no_text args.old_text ≡ false
      → Exact args files (patch_file hash info args new o files)
  patch_file-Exact none g t = refl
  patch_file-Exact (some f) g t =
      if_known (Exact args files) (not f.regular) _ _ (λ h. refl)
        (λ h. patch_text-Exact f (validate_text_content f.content) g t)

  validated-Exact : (o : Option Error) → Exact args files (validated hash info args new o files)
  unfolding new
  validated-Exact (some e) = refl
  validated-Exact none =
      if_known (Exact args files) (not info.exists) _ _
        (λ missing.
          if_known (Exact args files) (not args.create) _ _ (λ h. refl)
            (λ h. inl (record { abs = info.abs_path; asked = ground (arith, h); written = refl })))
        (λ there.
          if_known (Exact args files) args.create _ _ (λ h. refl)
            (λ h.
              if_known (Exact args files) (has_no_text args.old_text) _ _ (λ k. refl)
                (λ k. patch_file-Exact (get_file info.abs_path files) refl k)))

-- A patch that fails changes nothing. One that succeeds creates a file with the new text, if it was asked to,
-- or replaces in the text of a file the one place of the old text by the new one and keeps all around it,
-- line ends taken as line feeds.
pub patch-Exact :
    (system : System) (hash : Bytes → String) (workspace : Names) (channel_type : String)
    (args : PatchArgs) (files : Files)
    → Exact args files (patch system hash workspace channel_type args files)
unfolding patch new
patch-Exact system hash workspace channel_type args files =
    from (resolve_path system files workspace args.path channel_type)
  where
    from : (r : Result Error PathInfo) → Exact args files (with_path hash r args files)
    from (err e) = refl
    from (ok info) =
        validated-Exact files info hash args (validate_text_content (normalize_text args.new_text))
