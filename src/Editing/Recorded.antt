-- ===== src/Editing/Recorded.antt =====
-- What an edit leaves behind (agent/tools/editing.py): its record and the files of the disk.
use pullsmith.Common.{
  checked, ◌≡◌, refl, ◌∙◌, ap, ◌⊎◌, inl, inr, String, Bool, true, false, Option, none, some, List,
  [], ◌∷◌, ◌++◌, ◌==◌, ltb, if◌then◌else◌, Bool-cases, Option-cases, or_else, text_length,
}
use pullsmith.Safety.{assert_readable, resolve_in_workspace}
use pullsmith.Diff.{FileChange}
use pullsmith.Tools.{
  ToolContext, Handled, returned, timed_out, safety_refused, crashed, failure, success,
}
use pullsmith.Disk.{
  Disk, path_eq, is_absent, text_of, read_text, make_parents, write_text, unlink, absent,
}
use pullsmith.Disk.Kept.{make_parents-text, write_text-text, put-text}
use pullsmith.Editing.{
  WriteFileArgs, ReplaceInFileArgs, DeleteFileArgs, Left, at_target, refusal, record_change,
  written_change, replaced_change, deleted_change, write_file, replace_in_file, delete_file,
  max_write_bytes, max_read_bytes, byte_count, occurrences, replace_first,
}

pub data Edit : Type 0 where
  writing : WriteFileArgs → Edit
  replacing : ReplaceInFileArgs → Edit
  deleting : DeleteFileArgs → Edit

unfoldable pub has_succeeded : Handled → Bool
has_succeeded (returned r) = r.ok
has_succeeded timed_out = false
has_succeeded (safety_refused why) = false
has_succeeded (crashed why) = false

module _ (resolve : List String → List String) (workspace : List String)
    (os_error : List String → String) where
  unfoldable pub edit : ToolContext → Edit → Disk → Left
  unfolding write_file replace_in_file delete_file
  edit context (writing args) disk = write_file resolve workspace os_error context args disk
  edit context (replacing args) disk = replace_in_file resolve workspace os_error context args disk
  edit context (deleting args) disk = delete_file resolve workspace os_error context args disk

  -- An edit that did not happen.
  pub record IsRefused (changes : List FileChange) (disk : Disk) (succeeded : Bool)
      (changes' : List FileChange) (disk' : Disk) : Type 0 where
    pub not_ok : succeeded ≡ false
    pub same_changes : changes' ≡ changes
    pub same_files : (p : List String) → text_of (disk' p) ≡ text_of (disk p)

  -- An edit that happened: one file of the workspace is what `now` says, and the record of it,
  -- with what was read before, is the last of the changes.
  pub record IsRecorded (changes : List FileChange) (disk : Disk) (succeeded : Bool)
      (changes' : List FileChange) (disk' : Disk) : Type 0 where
    pub change : FileChange
    pub target : List String
    pub now : Option String
    pub ok : succeeded ≡ true
    pub appended : changes' ≡ changes ++ change ∷ []
    pub readable : assert_readable change.path ≡ inr tt
    pub resolved : resolve_in_workspace resolve workspace change.path ≡ inr target
    pub original : read_text target disk ≡ change.original_content
    pub files :
        (p : List String) → text_of (disk' p) ≡ (if path_eq p target then now else text_of (disk p))

  untouched : (changes : List FileChange) (disk : Disk) → IsRefused changes disk false changes disk
  untouched changes disk = record { not_ok = refl; same_changes = refl; same_files = λ p. refl }

  abbrev pub Outcome : List FileChange → Disk → Bool → List FileChange → Disk → Type 0
  Outcome changes disk succeeded changes' disk' =
      IsRefused changes disk succeeded changes' disk'
      ⊎ IsRecorded changes disk succeeded changes' disk'

  abbrev Edited : List FileChange → Disk → Left → Type 0
  Edited changes disk left = Outcome changes disk (has_succeeded left.0) left.1 left.2

  -- What holds of both refusals, and of the rest on the target, holds.
  pub at_target-keeps :
      (P : Left → Type 0) (path : String) (changes : List FileChange) (disk : Disk)
      (rest : List String → Left)
      → ((why : String) → P (safety_refused why, changes, disk))
      → ((target : List String)
          → assert_readable path ≡ inr tt
          → resolve_in_workspace resolve workspace path ≡ inr target
          → P (rest target))
      → P (at_target resolve workspace os_error path changes disk rest)
  unfolding at_target
  at_target-keeps P path changes disk rest refuse next = elim (checked (assert_readable path)) [
    | inl (why, e) ↦ rw (at_target, e) (refuse why)
    | inr (_, e) ↦
        rw (at_target, e)
          (elim (checked (resolve_in_workspace resolve workspace path)) [
            | inl (why, f) ↦ rw f (refuse why)
            | inr (target, f) ↦ rw f (next target e f)
          ])
  ]

  at_target-Edited :
      (path : String) (changes : List FileChange) (disk : Disk) (rest : List String → Left)
      → ((target : List String)
          → assert_readable path ≡ inr tt
          → resolve_in_workspace resolve workspace path ≡ inr target
          → Edited changes disk (rest target))
      → Edited changes disk (at_target resolve workspace os_error path changes disk rest)
  unfolding has_succeeded
  at_target-Edited path changes disk rest next =
      at_target-keeps (Edited changes disk) path changes disk rest
        (λ why. inl (untouched changes disk)) next

  module _ (context : ToolContext) (disk : Disk) where
    write_file-Edited :
        (args : WriteFileArgs)
        → Edited context.changes disk (write_file resolve workspace os_error context args disk)
    unfolding write_file record_change success refusal failure has_succeeded
    write_file-Edited args = at_target-Edited args.path context.changes disk _ (λ target e f.
        let original = read_text target disk in
        elim (Bool-cases (ltb max_write_bytes (byte_count args.content))) [
          | inl large ↦ rw large (inl (untouched context.changes disk))
          | inr small ↦
              rw small (elim (Bool-cases (ltb max_read_bytes (text_length (or_else original "")))) [
                | inl large ↦ rw large (inl (untouched context.changes disk))
                | inr fine ↦ rw fine (elim (Option-cases (make_parents target disk)) [
                  | inl gone ↦ rw gone (inl (untouched context.changes disk))
                  | inr (made, g) ↦
                      rw g (elim (Option-cases (write_text target args.content made)) [
                        | inl gone ↦ rw gone (
                            inl (record {
                              not_ok = refl;
                              same_changes = refl;
                              same_files = λ p. make_parents-text target disk made p g;
                            }))
                        | inr (written, h) ↦ rw h (
                            inr (record {
                              change = written_change resolve workspace os_error args original;
                              target = target;
                              now = some args.content;
                              ok = refl;
                              appended = refl;
                              readable = e;
                              resolved = f;
                              original = refl;
                              files = λ p.
                                  write_text-text target args.content made written p h
                                  ∙ ap (λ o. if path_eq p target then some args.content else o)
                                      (make_parents-text target disk made p g);
                            }))
                      ])
                ])
              ])
        ])

    replace_in_file-Edited :
        (args : ReplaceInFileArgs)
        → Edited context.changes disk (replace_in_file resolve workspace os_error context args disk)
    unfolding replace_in_file record_change success refusal failure has_succeeded
    replace_in_file-Edited args = at_target-Edited args.path context.changes disk _ (λ target e f.
        elim (Option-cases (read_text target disk)) [
          | inl gone ↦ rw gone (inl (untouched context.changes disk))
          | inr (original, g) ↦
              let found = occurrences args.find 0 original in
              rw g (elim (Bool-cases (found == 0)) [
                | inl gone ↦ rw gone (inl (untouched context.changes disk))
                | inr there ↦ rw there (elim (Bool-cases (ltb 1 found)) [
                  | inl more ↦ rw more (inl (untouched context.changes disk))
                  | inr one ↦
                      let updated = replace_first args.find args.replace original in
                      rw one (elim (Option-cases (write_text target updated disk)) [
                        | inl gone ↦ rw gone (inl (untouched context.changes disk))
                        | inr (written, h) ↦ rw h (
                            inr (record {
                              change = replaced_change resolve workspace os_error args original;
                              target = target;
                              now = some updated;
                              ok = refl;
                              appended = refl;
                              readable = e;
                              resolved = f;
                              original = g;
                              files = λ p. write_text-text target updated disk written p h;
                            }))
                      ])
                ])
              ])
        ])

    delete_file-Edited :
        (args : DeleteFileArgs)
        → Edited context.changes disk (delete_file resolve workspace os_error context args disk)
    unfolding delete_file record_change success refusal failure has_succeeded unlink
    delete_file-Edited args = at_target-Edited args.path context.changes disk _ (λ target e f.
        elim (Bool-cases (is_absent (disk target))) [
          | inl gone ↦ rw gone (inl (untouched context.changes disk))
          | inr there ↦ rw there (elim (Option-cases (read_text target disk)) [
            | inl gone ↦ rw gone (inl (untouched context.changes disk))
            | inr (original, g) ↦ rw g (
                inr (record {
                  change = deleted_change resolve workspace os_error args original;
                  target = target;
                  now = none;
                  ok = refl;
                  appended = refl;
                  readable = e;
                  resolved = f;
                  original = g;
                  files = λ p. put-text target absent disk p;
                }))
          ])
        ])

    pub edit-Outcome : (e : Edit) → Edited context.changes disk (edit context e disk)
    unfolding edit
    edit-Outcome (writing args) = write_file-Edited args
    edit-Outcome (replacing args) = replace_in_file-Edited args
    edit-Outcome (deleting args) = delete_file-Edited args
