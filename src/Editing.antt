-- ===== src/Editing.antt =====
-- agent/tools/editing.py: the tools that write. `resolve` is what the disk makes of a path, as in
-- agent/safety.py, and `os_error` the text of an `OSError` at a path. pydantic's texts for
-- arguments that do not validate are `errors`; what it validates is written out.
pub mod Unique
pub mod Recorded
pub mod Once
pub mod Undone
pub mod Registered
pub mod Summary
use Prim.Native.Char.{code}
use pullsmith.Common.{
  ℕ, zero, suc, ◌+◌, ◌-◌, ◌⊎◌, inl, inr, String, Bool, true, false, Option, none, some, List, [],
  ◌∷◌, ◌++◌, map, not, ◌&&◌, ◌==◌, ltb, leb, if◌then◌else◌, str_eq, is_nil, is_some, is_empty,
  length, text_length, after_prefix, where_rows, join, show, ◌<>◌, or_else, find_row,
}
use pullsmith.Db.{Json, text, bool}
use pullsmith.Llm.{Arguments}
use pullsmith.Safety.{assert_readable, is_sensitive_path, resolve_in_workspace}
use pullsmith.Diff.{FileChange, collapse, sum}
use pullsmith.Diff.Build.{keep_lines}
use pullsmith.Tools.{
  ToolContext, Tool, Handled, returned, safety_refused, crashed, success, failure, register,
}
use pullsmith.Disk.{
  Disk, Entry, absent, directory, file, is_absent, is_dir, read_text, write_text, make_parents,
  unlink,
}

abbrev pub max_write_bytes : ℕ
max_write_bytes = 100000

abbrev pub max_read_bytes : ℕ
max_read_bytes = 200000

pub record WriteFileArgs : Type 0 where
  pub path : String
  pub content : String
  pub reason : String

pub record ReplaceInFileArgs : Type 0 where
  pub path : String
  pub find : String
  pub replace : String
  pub reason : String

pub record DeleteFileArgs : Type 0 where
  pub path : String
  pub reason : String

-- `len(s.encode("utf-8"))`
unfoldable pub byte_count : String → ℕ
byte_count String.[] = 0
byte_count (String.◌∷◌ c s) =
    let rest = byte_count s in
    if ltb (code c) 128
    then 1 + rest
    else if ltb (code c) 2048
    then 2 + rest
    else if ltb (code c) 65536
    then 3 + rest
    else 4 + rest

-- `len(s.splitlines())`
unfoldable line_count : String → ℕ
unfolding keep_lines
line_count s = length (keep_lines s)

-- `s.count(find)`; `skip` characters still belong to the last match.
unfoldable pub occurrences : (find : String) → (skip : ℕ) → String → ℕ
unfolding after_prefix text_length
occurrences find skip String.[] = if is_empty find then 1 else 0
occurrences find (suc skip) (String.◌∷◌ c s) = occurrences find skip s
occurrences find zero (String.◌∷◌ c s) = elim (after_prefix find (String.◌∷◌ c s)) [
  | none ↦ occurrences find 0 s
  | some after ↦ suc (occurrences find (text_length find - 1) s)
]

-- `s.replace(find, replacement, 1)`
unfoldable pub replace_first : (find replacement : String) → String → String
unfolding after_prefix
replace_first find replacement String.[] = if is_empty find then replacement else ""
replace_first find replacement (String.◌∷◌ c s) =
    let rest = replace_first find replacement s in
    (elim (after_prefix find (String.◌∷◌ c s)) [
      | none ↦ String.◌∷◌ c rest
      | some after ↦ replacement <> after
    ])

-- What a handler leaves: how it ends, the recorded changes and the disk.
abbrev pub Left : Type 0
Left = Handled × List FileChange × Disk

module _ (resolve : List String → List String) (workspace : List String)
    (os_error : List String → String) where
  -- The two checks that every tool makes first; the resolved target is what the rest acts on.
  unfoldable pub at_target : (path : String) → List FileChange → Disk → (List String → Left) → Left
  unfolding assert_readable resolve_in_workspace
  at_target path changes disk rest = elim (assert_readable path) [
    | inl why ↦ (safety_refused why, changes, disk)
    | inr _ ↦ elim (resolve_in_workspace resolve workspace path) [
      | inl why ↦ (safety_refused why, changes, disk)
      | inr target ↦ rest target
    ]
  ]

  unfoldable pub refusal : List FileChange → Disk → (error_code message : String) → Left
  unfolding failure
  refusal changes disk error_code message = (returned (failure error_code message), changes, disk)

  -- `context.changes` is there from the start, so that the change is appended.
  unfoldable pub record_change : List FileChange → FileChange → List FileChange
  record_change changes change = changes ++ change ∷ []

  abbrev written_change : WriteFileArgs → (original : Option String) → FileChange
  written_change args original = record {
    path = args.path;
    action = if is_some original then "modified" else "created";
    lines_added = line_count args.content;
    lines_removed = line_count (or_else original "");
    is_sensitive = is_sensitive_path args.path;
    original_content = original;
  }

  unfoldable pub write_file : ToolContext → WriteFileArgs → Disk → Left
  unfolding at_target refusal record_change success byte_count text_length line_count
      is_sensitive_path
  write_file context args disk = at_target args.path context.changes disk (λ target.
      let original = read_text target disk in
      let change = written_change args original in
      if ltb max_write_bytes (byte_count args.content)
      then refusal context.changes disk "CONTENT_TOO_LARGE"
          ("Refusing to write more than " <> show max_write_bytes <> " bytes at once")
      else if ltb max_read_bytes (text_length (or_else original ""))
      then refusal context.changes disk "FILE_TOO_LARGE"
          (args.path <> " is too large to rewrite; use replace_in_file")
      else (elim (make_parents target disk) [
        | none ↦ (crashed (os_error target), context.changes, disk)
        | some made ↦ elim (write_text target args.content made) [
          | none ↦ (crashed (os_error target), context.changes, made)
          | some written ↦ (
            returned (
                success
                  ((if is_some original then "Modified" else "Created")
                    <> " "
                    <> args.path
                    <> " ("
                    <> show change.lines_added
                    <> " lines written, "
                    <> show change.lines_removed
                    <> " replaced)."
                    <> (if change.is_sensitive
                        then " NOTE: this path is flagged for human review."
                        else ""))
                  (("path", text args.path)
                    ∷ ("created", bool (not (is_some original)))
                    ∷ ("is_sensitive", bool change.is_sensitive)
                    ∷ [])),
            record_change context.changes change,
            written,
          )
        ]
      ]))

  abbrev replaced_change : ReplaceInFileArgs → (original : String) → FileChange
  replaced_change args original = record {
    path = args.path;
    action = "modified";
    lines_added = line_count args.replace;
    lines_removed = line_count args.find;
    is_sensitive = is_sensitive_path args.path;
    original_content = some original;
  }

  unfoldable pub replace_in_file : ToolContext → ReplaceInFileArgs → Disk → Left
  unfolding at_target refusal record_change success occurrences replace_first line_count
      is_sensitive_path
  replace_in_file context args disk = at_target args.path context.changes disk (λ target.
      elim (read_text target disk) [
        | none ↦ refusal context.changes disk "NOT_FOUND" ("No such file: " <> args.path)
        | some original ↦
            let change = replaced_change args original in
            let found = occurrences args.find 0 original in
            if found == 0
            then refusal context.changes disk "TEXT_NOT_FOUND" (
                "The text to replace was not found in " <> args.path
                <> ". Read the file again - it may differ from what you expected.")
            else if ltb 1 found
            then refusal context.changes disk "TEXT_NOT_UNIQUE" (
                "The text appears "
                <> show found
                <> " times in "
                <> args.path
                <> ". Include more surrounding context so exactly one location matches.")
            else (elim (write_text target (replace_first args.find args.replace original) disk) [
              | none ↦ (crashed (os_error target), context.changes, disk)
              | some written ↦ (
                returned (
                    success
                      ("Replaced "
                        <> show change.lines_removed
                        <> " line(s) with "
                        <> show change.lines_added
                        <> " in "
                        <> args.path
                        <> ".")
                      (("path", text args.path) ∷ ("is_sensitive", bool change.is_sensitive) ∷ [])),
                record_change context.changes change,
                written,
              )
            ])
      ])

  abbrev deleted_change : DeleteFileArgs → (original : String) → FileChange
  deleted_change args original = record {
    path = args.path;
    action = "deleted";
    lines_added = 0;
    lines_removed = line_count original;
    is_sensitive = is_sensitive_path args.path;
    original_content = some original;
  }

  unfoldable pub delete_file : ToolContext → DeleteFileArgs → Disk → Left
  unfolding at_target refusal record_change success line_count is_sensitive_path
  delete_file context args disk = at_target args.path context.changes disk (λ target.
      if is_absent (disk target)
      then refusal context.changes disk "NOT_FOUND" ("No such file: " <> args.path)
      else (elim (read_text target disk) [
        | none ↦
            refusal context.changes disk "IS_A_DIRECTORY"
              "Directories cannot be deleted; delete individual files"
        | some original ↦ (
          returned (success ("Deleted " <> args.path <> ".") (("path", text args.path) ∷ [])),
          record_change context.changes (deleted_change args original),
          unlink target disk,
        )
      ]))
