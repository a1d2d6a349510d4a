-- ===== src/Reading.antt =====
-- agent/tools/filesystem.py: the tools that read. What the disk lists is the parameter `children`,
-- the names in a directory, and `tree`, the files below one in the order of `Path.walk`. Python's
-- `re` is `compile`, the text of `repr` is `shown`. The size of a file is that of its UTF-8.
pub mod Tree
pub mod Symbols
pub mod Registered
use pullsmith.Common.{
  ℕ, zero, suc, ◌+◌, ◌-◌, ◌⊎◌, inl, inr, String, Bool, false, Option, none, some, List, [], ◌∷◌,
  ◌++◌, map, not, ◌&&◌, ◌||◌, ltb, leb, if◌then◌else◌, any, length, take, drop, is_nil, where_rows,
  is_in, text_lt, split_lines, strip, take_text, text_length, join, sorted_set, show, ◌<>◌, or_else,
}
use pullsmith.Db.{text, num, texts}
use pullsmith.Safety.{assert_readable, resolve_in_workspace, wrap_untrusted, has_null}
use pullsmith.Exclusions.{excluded_directories}
use pullsmith.Disk.{Disk, text_of, is_dir, is_absent, read_text}
use pullsmith.Diff.{FileChange}
use pullsmith.Tools.{ToolContext, Handled, returned, safety_refused, success, failure}
use pullsmith.Editing.{Left, byte_count, max_read_bytes}

abbrev max_list_entries : ℕ
max_list_entries = 200

abbrev pub max_search_matches : ℕ
max_search_matches = 40

pub record ReadFileArgs : Type 0 where
  pub path : String
  pub start_line : Option ℕ
  pub end_line : Option ℕ

pub record SearchCodeArgs : Type 0 where
  pub pattern : String
  pub path : String
  pub is_regex : Bool
  pub case_sensitive : Bool

-- A zero counts as absent, as `or` takes it.
abbrev or_number : Option ℕ → ℕ → ℕ
or_number none otherwise = otherwise
or_number (some zero) otherwise = otherwise
or_number (some (suc n)) otherwise = suc n

-- `f"{number:>5}"`
unfoldable padded : ℕ → String
unfolding show text_length
padded n =
    let digits = show n in
    if leb 5 (text_length digits)
    then digits
    else take_text (5 - text_length digits) "     " <> digits

unfoldable pub numbered : (start : ℕ) → List String → List String
unfolding padded
numbered start [] = []
numbered start (l ∷ ls) = (padded start <> " | " <> l) ∷ numbered (suc start) ls

-- `matches` and `files_matched` of the loops.
pub record Found : Type 0 where
  pub matches : List String
  pub files_matched : List String

-- The lines of one file, until there are enough matches in all.
unfoldable search_lines : (String → Bool) → (relative : String) → ℕ → List String → Found → Found
unfolding show strip take_text
search_lines pattern relative number [] found = found
search_lines pattern relative number (l ∷ ls) found =
    let matched : Found = record {
      matches =
          found.matches ++ (relative <> ":" <> show number <> ": " <> take_text 200 (strip l)) ∷ [];
      files_matched = found.files_matched ++ relative ∷ [];
    } in
    let after = if pattern l then matched else found in
    let rest = search_lines pattern relative (suc number) ls after in
    if pattern l && leb max_search_matches (length after.matches) then after else rest

-- `"\x00" in content[:2048]`
abbrev is_binary : String → Bool
is_binary content = has_null (take_text 2048 content)

module _ (resolve : List String → List String) (workspace : List String)
    (children : List String → Disk → List String) (tree : List String → Disk → List (List String))
    (compile : (pattern : String) → (is_regex case_sensitive : Bool) → String ⊎ (String → Bool))
    (shown : String → String) where
  unfoldable pub at_path : (path : String) → List FileChange → Disk → (List String → Handled) → Left
  unfolding resolve_in_workspace
  at_path path changes disk rest = elim (resolve_in_workspace resolve workspace path) [
    | inl why ↦ (safety_refused why, changes, disk)
    | inr target ↦ (rest target, changes, disk)
  ]

  unfoldable insert_child : List String → Disk → String → List String → List String
  unfolding text_lt
  insert_child target disk name [] = name ∷ []
  insert_child target disk name (c ∷ cs) =
      let rest = insert_child target disk name cs in
      let c_file = not (is_dir (disk (target ++ c ∷ []))) in
      let n_file = not (is_dir (disk (target ++ name ∷ []))) in
      if (not c_file && n_file) || ((not (c_file && not n_file)) && text_lt c name)
      then c ∷ rest
      else name ∷ c ∷ cs

  -- sorted(…, key=lambda item: (item.is_file(), item.name))
  unfoldable pub sorted_children : List String → Disk → List String → List String
  unfolding insert_child
  sorted_children target disk [] = []
  sorted_children target disk (c ∷ cs) = insert_child target disk c (sorted_children target disk cs)

  abbrev entry_of : List String → Disk → String → String
  entry_of target disk name = if is_dir (disk (target ++ name ∷ [])) then name <> "/" else name

  unfoldable entries_of : List String → Disk → List String
  unfolding sorted_children is_in show
  entries_of target disk =
      let shown_names =
        where_rows (λ name. not (is_in excluded_directories name))
          (sorted_children target disk (children target disk)) in
      let entries = map (entry_of target disk) shown_names in
      if leb max_list_entries (length entries)
      then take max_list_entries entries
        ++ ("... truncated at " <> show max_list_entries <> " entries") ∷ []
      else entries

  unfoldable pub list_directory : ToolContext → (path : String) → Disk → Left
  unfolding at_path entries_of wrap_untrusted success failure join
  list_directory context path disk = at_path path context.changes disk (λ target.
      let entries = entries_of target disk in
      if is_dir (disk target)
      then returned (
          success (wrap_untrusted ("listing of " <> path) (join "\n" entries) 8000)
            (("entry_count", num (length entries)) ∷ []))
      else returned (failure "NOT_A_DIRECTORY" ("Not a directory: " <> path)))

  unfoldable read_lines : ReadFileArgs → (content : String) → Handled
  unfolding split_lines numbered wrap_untrusted success failure join show
  read_lines args content =
      let lines = split_lines content in
      let start = or_number args.start_line 1 in
      let end = or_number args.end_line (length lines) in
      let selected = drop (start - 1) (take end lines) in
      if ltb (length lines) start
      then returned (
          failure "RANGE_OUT_OF_BOUNDS" (
            args.path <> " has " <> show (length lines) <> " lines; start_line was " <> show start))
      else returned (
          success
            (wrap_untrusted
              (args.path <> " lines " <> show start <> "-" <> show (start + length selected - 1))
              (join "\n" (numbered start selected)) 8000)
            (("path", text args.path)
              ∷ ("total_lines", num (length lines))
              ∷ ("returned_lines", num (length selected))
              ∷ []))

  -- The size is looked at before the range of lines is.
  unfoldable read_at : ReadFileArgs → Disk → List String → Handled
  unfolding read_lines read_text byte_count failure show
  read_at args disk target = elim (text_of (disk target)) [
    | none ↦ returned (failure "NOT_FOUND" ("No such file: " <> args.path))
    | some stored ↦
        if ltb max_read_bytes (byte_count stored)
        then returned (
            failure "FILE_TOO_LARGE" (
              args.path
              <> " exceeds "
              <> show max_read_bytes
              <> " bytes; read a line range instead"))
        else read_lines args (or_else (read_text target disk) "")
  ]

  unfoldable pub read_file : ToolContext → ReadFileArgs → Disk → Left
  unfolding assert_readable at_path read_at
  read_file context args disk = elim (assert_readable args.path) [
    | inl why ↦ (safety_refused why, context.changes, disk)
    | inr _ ↦ at_path args.path context.changes disk (read_at args disk)
  ]

  abbrev all_but_last : List String → List String
  all_but_last parts = take (length parts - 1) parts

  -- A file that the walk does not leave out, and that is not too large.
  unfoldable pub is_source_file : List String → Disk → List String → Bool
  unfolding is_in byte_count
  is_source_file root disk path =
      let below = all_but_last (drop (length root) path) in
      not (any (is_in excluded_directories) below) && (elim (text_of (disk path)) [
        | none ↦ false
        | some stored ↦ leb (byte_count stored) max_read_bytes
      ])

  unfoldable pub iter_source_files : List String → Disk → List (List String)
  unfolding is_source_file
  iter_source_files root disk = where_rows (is_source_file root disk) (tree root disk)

  unfoldable search_files : (String → Bool) → Disk → List (List String) → Found → Found
  unfolding search_lines read_text split_lines show join
  search_files pattern disk [] found = found
  search_files pattern disk (path ∷ paths) found =
      let content = or_else (read_text path disk) "" in
      let relative = join "/" (drop (length (resolve workspace)) path) in
      let after =
        if is_binary content
        then found
        else search_lines pattern relative 1 (split_lines content) found in
      let rest = search_files pattern disk paths after in
      let stopped : Found = record after {
        matches =
            after.matches ++ ("... truncated at " <> show max_search_matches <> " matches") ∷ [];
      } in
      if not (is_binary content) && leb max_search_matches (length after.matches)
      then stopped
      else rest

  unfoldable search_found : SearchCodeArgs → Found → Handled
  unfolding wrap_untrusted success join sorted_set
  search_found args found =
      if is_nil found.matches
      then returned
          (success ("No matches for " <> shown args.pattern) (("match_count", num 0) ∷ []))
      else returned (
          success
            (wrap_untrusted ("matches for " <> shown args.pattern) (join "\n" found.matches) 8000)
            (("match_count", num (length found.matches))
              ∷ ("files_matched", texts (sorted_set found.files_matched))
              ∷ []))

  unfoldable pub search_code : ToolContext → SearchCodeArgs → Disk → Left
  unfolding at_path iter_source_files search_files search_found failure
  search_code context args disk = at_path args.path context.changes disk (λ root.
      if is_absent (disk root)
      then returned (failure "NOT_FOUND" ("No such path: " <> args.path))
      else (elim (compile args.pattern args.is_regex args.case_sensitive) [
        | inl why ↦ returned (failure "INVALID_REGEX" ("Pattern rejected: " <> why))
        | inr pattern ↦
            let candidates =
              if is_dir (disk root) then iter_source_files root disk else root ∷ [] in
            search_found args
              (search_files pattern disk candidates (record { matches = []; files_matched = [] }))
      ]))
