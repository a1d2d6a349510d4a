-- ===== src/Editing/Summary.antt =====
-- agent/tools/editing.py, `summarise_changes`.
use pullsmith.Common.{
  String, List, [], ◌∷◌, map, if◌then◌else◌, str_eq, is_nil, length, where_rows, join, show, ◌<>◌,
}
use pullsmith.Diff.{FileChange, sum}

-- `by_path[change.path] = change`
unfoldable assign_change : FileChange → List FileChange → List FileChange
assign_change change [] = change ∷ []
assign_change change (c ∷ cs) =
    let rest = assign_change change cs in
    if str_eq c.path change.path then change ∷ cs else c ∷ rest

unfoldable latest_by_path : (done : List FileChange) → List FileChange → List FileChange
unfolding assign_change
latest_by_path done [] = done
latest_by_path done (c ∷ cs) = latest_by_path (assign_change c done) cs

unfoldable pub summarise_changes : List FileChange → String
unfolding latest_by_path sum show join
summarise_changes changes =
    let by_path = latest_by_path [] changes in
    let flagged = map (λ c. c.path) (where_rows (λ c. c.is_sensitive) by_path) in
    if is_nil changes
    then "No files changed."
    else show (length by_path)
      <> " file(s) changed, +"
      <> show (sum (map (λ c. c.lines_added) by_path))
      <> "/-"
      <> show (sum (map (λ c. c.lines_removed) by_path))
      <> " lines"
      <> (if is_nil flagged then "" else ". Flagged for review: " <> join ", " flagged)
