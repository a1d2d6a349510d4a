-- ===== src/Tests/Edits.antt =====
-- The theorems on the editing tools, applied to a file of two lines.
use pullsmith.Common.{
  ◌≡◌, refl, String, true, false, some, if◌then◌else◌, List, [], ◌∷◌, ◌==◌, ◌&&◌, is_some,
}
use pullsmith.Db.{text}
use pullsmith.Llm.{Arguments}
use pullsmith.Safety.{assert_readable, resolve_in_workspace}
use pullsmith.Disk.{Disk, absent, file, read_only, path_eq, put, read_text, write_text}
use pullsmith.Tools.{execute}
use pullsmith.Editing.{
  ReplaceInFileArgs, DeleteFileArgs, replace_in_file, occurrences, replace_first,
}
use pullsmith.Editing.Summary.{summarise_changes}
use pullsmith.Editing.Recorded.{has_succeeded, edit, deleting}
use pullsmith.Editing.Once.{IsReplaced, replace_in_file-IsReplaced, replace_in_file-has_succeeded}
use pullsmith.Editing.Undone.{IsUndone, edit-IsUndone}
use pullsmith.Editing.Registered.{
  After, replace_in_file_tool, write_file_tool, delete_file_tool, register_editing_tools,
  execute-Outcome,
}
use pullsmith.Tests.Agent.{context}

abbrev pub there : List String → List String
there path = path

abbrev pub work : List String
work = "w" ∷ []

abbrev os_error : List String → String
os_error path = "OSError"

abbrev schema_of : String → Arguments
schema_of name = []

abbrev errors : String → Arguments → String
errors name arguments = "[]"

abbrev disk : Disk
disk = put ("w" ∷ "a.py" ∷ []) (file "x = 1\r\ny = 1\n") (λ p. absent)

abbrev replacement : ReplaceInFileArgs
replacement = record { path = "a.py"; find = "x = 1"; replace = "x = 2"; reason = "fix" }

abbrev edited : Disk
edited = (replace_in_file there work os_error context replacement disk).2

reads_the_edit : read_text ("w" ∷ "a.py" ∷ []) edited ≡ some "x = 2\ny = 1\n"
unfolding replace_in_file read_text write_text put
reads_the_edit = refl

counts_apart : occurrences "aa" 0 "aaa" ≡ 1
unfolding occurrences
counts_apart = refl

counts_everywhere : occurrences "" 0 "ab" ≡ 3
unfolding occurrences
counts_everywhere = refl

-- A file that must not be written stays, though its text is unique.
abbrev guarded : Disk
guarded = put ("w" ∷ "a.py" ∷ []) (read_only "x = 1\n") (λ p. absent)

refused : has_succeeded (replace_in_file there work os_error context replacement guarded).0 ≡ false
unfolding replace_in_file read_text write_text put has_succeeded
refused = refl

-- A link of the repository: a.py leads to its .env, which is not a name that may be asked for.
abbrev linked : List String → List String
linked path = if path_eq path ("w" ∷ "a.py" ∷ []) then "w" ∷ ".env" ∷ [] else path

abbrev secrets : Disk
secrets = put ("w" ∷ ".env" ∷ []) (file "x = 1\n") (λ p. absent)

reaches_the_secrets :
    read_text
      ("w" ∷ ".env" ∷ [])
      (replace_in_file linked work os_error context replacement secrets).2
    ≡ some "x = 2\n"
unfolding replace_in_file read_text write_text put
reaches_the_secrets = refl

sums_up :
    summarise_changes (replace_in_file there work os_error context replacement disk).1
    ≡ "1 file(s) changed, +1/-1 lines"
unfolding replace_in_file summarise_changes read_text write_text put
sums_up = refl

replace_in_file-IsReplaced_example : IsReplaced there work os_error context replacement disk edited
unfolding replace_in_file put has_succeeded read_text write_text
replace_in_file-IsReplaced_example =
    replace_in_file-IsReplaced there work os_error context replacement disk refl refl

replace_in_file-has_succeeded_example :
    has_succeeded (replace_in_file there work os_error context replacement disk).0 ≡ (
      (occurrences "x = 1" 0 "x = 1\ny = 1\n" == 1)
      && is_some (
          write_text
            ("w" ∷ "a.py" ∷ [])
            (replace_first "x = 1" replacement.replace "x = 1\ny = 1\n")
            disk))
unfolding assert_readable resolve_in_workspace read_text put
replace_in_file-has_succeeded_example =
    replace_in_file-has_succeeded there work os_error context replacement disk ("w" ∷ "a.py" ∷ [])
      "x = 1\ny = 1\n" refl refl refl

abbrev deletion : DeleteFileArgs
deletion = record { path = "a.py"; reason = "unused" }

edit-IsUndone_example :
    IsUndone there work os_error context disk
      (edit there work os_error context (deleting deletion) disk).1
      (edit there work os_error context (deleting deletion) disk).2
unfolding edit put has_succeeded read_text
edit-IsUndone_example = edit-IsUndone there work os_error context disk (deleting deletion) refl

abbrev raw_arguments : Arguments
raw_arguments =
    ("path", text "a.py")
    ∷ ("find", text "x = 1")
    ∷ ("replace", text "x = 2")
    ∷ ("reason", text "fix")
    ∷ []

execute-Outcome_example :
    let tools =
      replace_in_file_tool there work os_error schema_of errors
      ∷ write_file_tool there work os_error schema_of errors
      ∷ delete_file_tool there work os_error schema_of errors
      ∷ [] in
    After there work os_error schema_of errors context.changes disk
      (execute tools context "replace_in_file" raw_arguments true disk)
unfolding register_editing_tools replace_in_file_tool write_file_tool delete_file_tool
execute-Outcome_example =
    execute-Outcome there work os_error schema_of errors
      (replace_in_file_tool there work os_error schema_of errors
        ∷ write_file_tool there work os_error schema_of errors
        ∷ delete_file_tool there work os_error schema_of errors
        ∷ [])
      context "replace_in_file" raw_arguments true disk refl
