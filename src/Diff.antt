-- ===== src/Diff.antt =====
-- agent/diff.py and `FileChange` of agent/tools/editing.py: the change set that a human reviews.
pub mod Collapse
pub mod Build
pub mod Shown
use pullsmith.Common.{
  ℕ, ◌+◌, String, Bool, Option, List, [], ◌∷◌, map, ◌||◌, str_eq, if◌then◌else◌, length, is_nil,
  where_rows, join, show, ◌<>◌,
}

-- `action` is "created", "modified" or "deleted".
pub record FileChange : Type 0 where
  pub path : String
  pub action : String
  pub lines_added : ℕ
  pub lines_removed : ℕ
  pub is_sensitive : Bool
  pub original_content : Option String

pub record FileDiff : Type 0 where
  pub path : String
  pub action : String
  pub lines_added : ℕ
  pub lines_removed : ℕ
  pub is_sensitive : Bool
  pub diff_text : String
  pub truncated : Bool

pub record ChangeSet : Type 0 where
  pub files : List FileDiff
  pub truncated : Bool

unfoldable pub sum : List ℕ → ℕ
sum [] = 0
sum (n ∷ ns) = n + sum ns

unfoldable pub file_count : ChangeSet → ℕ
file_count c = length c.files

unfoldable pub lines_added : ChangeSet → ℕ
unfolding sum
lines_added c = sum (map (λ f. f.lines_added) c.files)

unfoldable pub lines_removed : ChangeSet → ℕ
unfolding sum
lines_removed c = sum (map (λ f. f.lines_removed) c.files)

unfoldable pub sensitive_paths : ChangeSet → List String
sensitive_paths c = map (λ f. f.path) (where_rows (λ f. f.is_sensitive) c.files)

unfoldable pub unified_diff : ChangeSet → String
unfolding join
unified_diff c = join "\n" (map (λ f. f.diff_text) c.files)

summary_line : ChangeSet → String
unfolding file_count lines_added lines_removed
summary_line c =
    show (file_count c) <> " file(s), +" <> show (lines_added c) <> "/-" <> show (lines_removed c)

flagged_part : List String → List String
unfolding join
flagged_part [] = []
flagged_part (p ∷ ps) = ("flagged: " <> join ", " (p ∷ ps)) ∷ []

unfoldable pub summary : ChangeSet → String
unfolding summary_line flagged_part sensitive_paths join
summary c =
    if is_nil c.files
    then "No changes."
    else join ". " (summary_line c ∷ flagged_part (sensitive_paths c))

-- A dict by path, in the order of first insertion.
unfoldable pub merge : FileChange → FileChange → FileChange
merge existing change = record change {
  is_sensitive = change.is_sensitive || existing.is_sensitive;
  original_content = existing.original_content;
}

unfoldable pub collapse_one : FileChange → List FileChange → List FileChange
unfolding merge
collapse_one change [] = change ∷ []
collapse_one change (c ∷ cs) =
    let rest = collapse_one change cs in
    if str_eq c.path change.path then merge c change ∷ cs else c ∷ rest

-- The loop of `_collapse` over the changes, with the entries collected so far.
unfoldable pub collapse_into : List FileChange → List FileChange → List FileChange
unfolding collapse_one
collapse_into collapsed [] = collapsed
collapse_into collapsed (change ∷ changes) = collapse_into (collapse_one change collapsed) changes

unfoldable pub collapse : List FileChange → List FileChange
unfolding collapse_into
collapse changes = collapse_into [] changes
