-- ===== src/Diff/Build.antt =====
-- agent/diff.py, `build_change_set`: the recorded originals against the files as they are. The line
-- diff of difflib is the parameter `unified`, and the disk is `read_text`, which is none where
-- there is no file.
use Prim.Native.Char.{code}
use pullsmith.Common.{
  ℕ, suc, String, Bool, Option, some, List, [], ◌∷◌, ◌++◌, map, not, ◌&&◌, ◌||◌, ltb, leb, ◌==◌,
  if◌then◌else◌, length, where_rows, take, join, show, ◌<>◌, str_eq, text_lt, is_empty, is_some,
  after_prefix, on_first, or_else, or_text,
}
use pullsmith.Safety.{is_sensitive_path}
use pullsmith.Diff.{FileChange, FileDiff, ChangeSet, collapse, sum}

abbrev max_diff_lines : ℕ
max_diff_lines = 2000

abbrev max_lines_per_file : ℕ
max_lines_per_file = 400

-- What `splitlines` ends a line with, of ASCII.
abbrev is_line_end : ℕ → Bool
is_line_end c = (leb 10 c && leb c 13) || (leb 28 c && leb c 30)

-- `splitlines(keepends=True)`: a carriage return and a line feed are one end.
unfoldable pub keep_lines : String → List String
unfolding after_prefix
keep_lines String.[] = []
keep_lines (String.◌∷◌ c s) =
    let rest = keep_lines s in
    if is_line_end (code c) && not (code c == 13 && is_some (after_prefix "\n" s))
    then String.◌∷◌ c "" ∷ rest
    else on_first (some (String.◌∷◌ c "")) rest

unfoldable starts_with : (prefix : String) → String → Bool
unfolding after_prefix
starts_with prefix s = is_some (after_prefix prefix s)

unfoldable rstrip_newlines : String → String
rstrip_newlines String.[] = ""
rstrip_newlines (String.◌∷◌ c s) =
    let rest = rstrip_newlines s in if code c == 10 && is_empty rest then "" else String.◌∷◌ c rest

unfoldable count_newlines : String → ℕ
count_newlines String.[] = 0
count_newlines (String.◌∷◌ c s) =
    let rest = count_newlines s in if code c == 10 then suc rest else rest

-- The lines of one sign, without the file's header.
unfoldable pub count_signed : (sign header : String) → List String → ℕ
unfolding starts_with
count_signed sign header lines =
    length (where_rows (λ l. starts_with sign l && not (starts_with header l)) lines)

unfoldable shown_lines : List String → List String
unfolding show
shown_lines lines =
    if ltb max_lines_per_file (length lines)
    then take max_lines_per_file lines
      ++ ("... diff truncated at " <> show max_lines_per_file <> " lines\n") ∷ []
    else lines

unfoldable pub insert_change : FileChange → List FileChange → List FileChange
unfolding text_lt
insert_change c [] = c ∷ []
insert_change c (d ∷ ds) =
    let rest = insert_change c ds in if text_lt d.path c.path then d ∷ rest else c ∷ d ∷ ds

-- sorted(….items()): by path, which is a key.
unfoldable pub by_path : List FileChange → List FileChange
unfolding insert_change
by_path [] = []
by_path (c ∷ cs) = insert_change c (by_path cs)

module _ (unified : (fromfile tofile : String) (before after : List String) → List String)
    (read_text : (path : String) → Option String) where
  unfoldable pub before_of : FileChange → String
  before_of change = or_text change.original_content ""

  unfoldable pub after_of : FileChange → String
  after_of change = or_else (read_text change.path) ""

  unfoldable pub differs : FileChange → Bool
  unfolding before_of after_of
  differs change = not (str_eq (before_of change) (after_of change))

  unfoldable pub diff_for : FileChange → FileDiff
  unfolding keep_lines count_signed shown_lines rstrip_newlines join is_sensitive_path before_of
      after_of
  diff_for change =
      let lines =
        unified ("a/" <> change.path) ("b/" <> change.path) (keep_lines (before_of change))
          (keep_lines (after_of change)) in
      record {
        path = change.path;
        action = change.action;
        lines_added = count_signed "+" "+++" lines;
        lines_removed = count_signed "-" "---" lines;
        is_sensitive = change.is_sensitive || is_sensitive_path change.path;
        diff_text = rstrip_newlines (join "" (shown_lines lines));
        truncated = ltb max_lines_per_file (length lines);
      }

  unfoldable pub build_change_set : List FileChange → ChangeSet
  unfolding collapse by_path differs diff_for count_newlines sum
  build_change_set changes =
      let files = map diff_for (where_rows differs (by_path (collapse changes))) in
      record {
        files = files;
        truncated = ltb max_diff_lines (sum (map (λ f. count_newlines f.diff_text) files));
      }
