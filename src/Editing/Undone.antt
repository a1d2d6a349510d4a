-- ===== src/Editing/Undone.antt =====
-- The originals that the edits record, put back (agent/tools/editing.py).
use pullsmith.Common.{
  ◌≡◌, refl, sym, ◌∙◌, ap, inl, inr, String, true, false, Option, none, some, List, ◌++◌, [], ◌∷◌,
  if◌then◌else◌, Bool-cases,
}
use pullsmith.Safety.{resolve_in_workspace}
use pullsmith.Diff.{FileChange}
use pullsmith.Tools.{ToolContext}
use pullsmith.Disk.{Disk, Entry, absent, file, path_eq, text_of, put, read_text}
use pullsmith.Disk.Kept.{path_eq→eq, put-text, translated, read_text-text, translated-translated}
use pullsmith.Editing.Recorded.{Edit, has_succeeded, edit, edit-Outcome}

-- The entry of a recorded original.
unfoldable pub original_entry : Option String → Entry
original_entry none = absent
original_entry (some s) = file s

original_entry-text : (o : Option String) → text_of (original_entry o) ≡ o
unfolding original_entry
original_entry-text none = refl
original_entry-text (some s) = refl

module _ (resolve : List String → List String) (workspace : List String)
    (os_error : List String → String) (context : ToolContext) (disk : Disk) where
  pub record IsUndone (left_changes : List FileChange) (left : Disk) : Type 0 where
    pub change : FileChange
    pub target : List String
    pub appended : left_changes ≡ context.changes ++ change ∷ []
    pub resolved : resolve_in_workspace resolve workspace change.path ≡ inr target
    pub restored :
        (p : List String)
        → read_text p (put target (original_entry change.original_content) left) ≡ read_text p disk

  undone_at :
      (target p : List String) (left : Disk) (now original : Option String)
      → read_text target disk ≡ original
      → text_of (left p) ≡ (if path_eq p target then now else text_of (disk p))
      → read_text p (put target (original_entry original) left) ≡ read_text p disk
  undone_at target p left now original was is_now =
      read_text-text p (put target (original_entry original) left)
      ∙ ap translated (put-text target (original_entry original) left p)
      ∙ elim (Bool-cases (path_eq p target)) [
        | inr apart ↦
            let kept : text_of (left p) ≡ text_of (disk p) = rw apart at is_now in
            rw apart (ap translated kept ∙ sym (read_text-text p disk))
        | inl same ↦
            let here : p ≡ target = path_eq→eq p target same in
            rw same (
              ap translated (original_entry-text original)
              ∙ ap translated (sym was ∙ read_text-text target disk)
              ∙ translated-translated (text_of (disk target))
              ∙ sym (read_text-text target disk)
              ∙ ap (λ q. read_text q disk) (sym here))
      ]

  -- An edit that succeeds can be undone from its record: with the recorded original put back at the
  -- path of the change that was appended, or that file removed where none is recorded, every file
  -- reads as it did before the edit.
  pub edit-IsUndone :
      (e : Edit)
      → has_succeeded (edit resolve workspace os_error context e disk).0 ≡ true
      → IsUndone
          (edit resolve workspace os_error context e disk).1
          (edit resolve workspace os_error context e disk).2
  edit-IsUndone e ok = elim (edit-Outcome resolve workspace os_error context disk e) [
    | inl refused ↦ absurd (let no_way : false ≡ true = sym refused.not_ok ∙ ok in cc)
    | inr done ↦ record {
      change = done.change;
      target = done.target;
      appended = done.appended;
      resolved = done.resolved;
      restored = λ p.
          undone_at done.target p _ done.now done.change.original_content done.original
            (done.files p);
    }
  ]
