-- ===== src/Tests/Changes.antt =====
-- The theorems on change sets, applied to a file that is created, edited and joined by another.
use pullsmith.Common.{
  ◌≡◌, refl, Option, none, String, Bool, true, false, some, List, [], ◌∷◌, str_eq, if◌then◌else◌,
  find_row, where_rows,
}
use pullsmith.Diff.{FileChange, collapse}
use pullsmith.Diff.Build.{count_signed}
use pullsmith.Diff.Collapse.{summed_up, entry-collapse}

abbrev edit : String → String → Bool → FileChange
edit path action is_sensitive = record {
  path = path;
  action = action;
  lines_added = 1;
  lines_removed = 0;
  is_sensitive = is_sensitive;
  original_content = some path;
}

abbrev three : List FileChange
three = edit ".env" "created" true ∷ edit "a.py" "modified" false ∷ edit ".env" "deleted" false ∷ []

entry-collapse_example :
    find_row (λ c. str_eq c.path ".env") (collapse three)
    ≡ summed_up (where_rows (λ c. str_eq c.path ".env") three)
entry-collapse_example = entry-collapse ".env" three

-- A disk that holds one file, and a line diff that answers with the new lines.
abbrev disk : String → Option String
disk path = if str_eq path "a.py" then some "new\n" else none

abbrev unified : (fromfile tofile : String) (before after : List String) → List String
unified fromfile tofile before after = after

-- A line `-- old` that is removed shows as `--- old`, which counts as a header.
comment_line_not_counted :
    count_signed "-" "---"
      ("--- a/q.sql\n" ∷ "+++ b/q.sql\n" ∷ "@@ -1 +0,0 @@\n" ∷ "--- old\n" ∷ [])
    ≡ 0
unfolding count_signed
comment_line_not_counted = refl
