-- ===== src/Risk/Assess.antt =====
-- agent/risk.py, `assess`: points with a reason for each. The steps add to one tally, in the order
-- of the code.
use pullsmith.Common.{
  ℕ, ◌+◌, ◌*◌, min, String, Bool, Option, none, some, List, [], ◌∷◌, ◌++◌, map, not, ◌||◌, ltb, leb,
  if◌then◌else◌, any, is_nil, is_in, where_rows, length, take, join, show, ◌<>◌, lower, ends_with,
  contains_text, find_row,
}
use pullsmith.Diff
use pullsmith.Diff.{FileDiff, ChangeSet}
use pullsmith.Testing.{TestOutcome, all_passed}
use pullsmith.Risk.{RiskLevel, low, medium, high, RiskAssessment}
use pullsmith.Risk.Secrets.{scan_for_secrets}

abbrev security_paths : List (String × String)
security_paths =
    (".github/workflows/", "CI/CD workflow")
    ∷ ("dockerfile", "container build")
    ∷ ("docker-compose", "container orchestration")
    ∷ ("alembic/versions/", "database migration")
    ∷ ("migrations/", "database migration")
    ∷ ("auth", "authentication code")
    ∷ ("security", "security code")
    ∷ ("permission", "authorisation code")
    ∷ ("middleware", "request middleware")
    ∷ []

abbrev dependency_files : List String
dependency_files =
    "requirements.txt" ∷ "requirements-dev.txt" ∷ "pyproject.toml" ∷ "package.json" ∷ "go.mod"
    ∷ "cargo.toml" ∷ "gemfile" ∷ []

pub record Tally : Type 0 where
  pub score : ℕ
  pub reasons : List String
  pub warnings : List String

abbrev pub add : ℕ → List String → List String → Tally → Tally
add points reasons warnings t = record {
  score = t.score + points;
  reasons = t.reasons ++ reasons;
  warnings = t.warnings ++ warnings;
}

unfoldable pub add_secrets : List String → Tally → Tally
unfolding join
add_secrets leaked t =
    if is_nil leaked
    then t
    else add 20 ("possible credential in the diff" ∷ [])
        (("The diff appears to add "
            <> join ", " leaked
            <> ". This must be removed before merging.")
          ∷ [])
        t

abbrev failing_names : List TestOutcome → List String
failing_names [] = []
failing_names (o ∷ os) = o.failing_tests ++ failing_names os

abbrev or_see_output : List String → String
or_see_output [] = "see output"
or_see_output (n ∷ ns) = join ", " (n ∷ ns)

unfoldable pub add_tests : List TestOutcome → Tally → Tally
unfolding join
add_tests outcomes t =
    if is_nil outcomes
    then add 6 ("no tests were run" ∷ [])
        ("No test command was detected, so this change is unverified. Review manually." ∷ []) t
    else if not (all_passed outcomes)
    then add 8 ("tests did not pass" ∷ [])
        ((if any (λ o. o.runner_error) outcomes
            then "The test runner failed to execute, so nothing was verified."
            else "Failing tests: " <> or_see_output (take 5 (failing_names outcomes)))
          ∷ [])
        t
    else t

unfoldable pub add_file_count : ℕ → Tally → Tally
add_file_count count t =
    if ltb 10 count
    then add 3 ((show count <> " files changed") ∷ []) [] t
    else if ltb 4 count
    then add 1 ((show count <> " files changed") ∷ []) [] t
    else t

unfoldable pub add_line_count : ℕ → Tally → Tally
add_line_count total t =
    if ltb 400 total
    then add 4 ((show total <> " lines changed") ∷ [])
        ("Large diff: check for unrelated refactoring." ∷ []) t
    else if ltb 150 total
    then add 1 ((show total <> " lines changed") ∷ []) [] t
    else t

abbrev pub add_marker : String → Option (String × String) → Tally → Tally
add_marker path none t = t
add_marker path (some (marker, label)) t =
    add 3 (("touches " <> label) ∷ [])
      ((path <> " is " <> label <> "; review the effect of merging it.") ∷ []) t

-- The first marker in the lowered path, with its label.
unfoldable pub security_marker : String → Option (String × String)
unfolding lower contains_text
security_marker path = find_row (λ m. contains_text m.0 (lower path)) security_paths

unfoldable pub is_dependency_file : String → Bool
unfolding lower ends_with
is_dependency_file path = any (λ name. ends_with (lower path) name) dependency_files

unfoldable pub add_file : FileDiff → Tally → Tally
unfolding security_marker is_dependency_file
add_file file t =
    let marked = add_marker file.path (security_marker file.path) t in
    if is_dependency_file file.path
    then add 2 ("dependency change" ∷ []) ((file.path <> " changes dependencies.") ∷ []) marked
    else marked

unfoldable pub add_files : List FileDiff → Tally → Tally
unfolding add_file
add_files [] t = t
add_files (f ∷ fs) t = add_files fs (add_file f t)

unfoldable pub unplanned : List String → List FileDiff → List String
unfolding lower is_in
unplanned planned_files files =
    map (λ f. f.path) (where_rows (λ f. not (is_in (map lower planned_files) (lower f.path))) files)

unfoldable pub add_unplanned : List String → List FileDiff → Tally → Tally
unfolding unplanned join
add_unplanned planned_files files t =
    let strays = unplanned planned_files files in
    if is_nil planned_files || is_nil strays
    then t
    else add (2 * min (length strays) 3) ((show (length strays) <> " file(s) not in the plan") ∷ [])
        (("Changed without being planned: "
            <> join ", " (take 5 strays)
            <> ". This is how scope creep enters a review.")
          ∷ [])
        t

unfoldable pub add_attempts : ℕ → Tally → Tally
add_attempts iterations_used t =
    if leb 4 iterations_used
    then add 2 (("took " <> show iterations_used <> " attempts") ∷ [])
        ("The fix required several attempts, which often means the root cause was unclear." ∷ []) t
    else t

abbrev pub add_truncated : Bool → Tally → Tally
add_truncated truncated t =
    if truncated
    then add 0 [] ("The diff was truncated for display; review the full changes in the PR." ∷ []) t
    else t

abbrev low_threshold : ℕ
low_threshold = 3

abbrev medium_threshold : ℕ
medium_threshold = 7

unfoldable pub level_of_score : ℕ → RiskLevel
level_of_score score =
    if leb score low_threshold then low else if leb score medium_threshold then medium else high

abbrev or_small : List String → List String
or_small [] = "small change, tests passed, no sensitive paths" ∷ []
or_small (r ∷ rs) = r ∷ rs

-- `planned_files` none counts as empty.
unfoldable pub assess :
    ChangeSet
    → List TestOutcome
    → (planned_files : List String) → (iterations_used : ℕ) → RiskAssessment
unfolding add_secrets add_tests add_file_count add_line_count add_files add_unplanned add_attempts
    level_of_score scan_for_secrets Diff.unified_diff Diff.file_count Diff.lines_added
    Diff.lines_removed
assess change_set outcomes planned_files iterations_used =
    let leaked = scan_for_secrets (Diff.unified_diff change_set) in
    let start : Tally = record { score = 0; reasons = []; warnings = [] } in
    let tally = add_truncated change_set.truncated (
      add_attempts iterations_used (
        add_unplanned planned_files change_set.files (
          add_files change_set.files (
            add_line_count (Diff.lines_added change_set + Diff.lines_removed change_set) (
              add_file_count (Diff.file_count change_set)
                (add_tests outcomes (add_secrets leaked start))))))) in
    record {
      level = level_of_score tally.score;
      score = tally.score;
      reasons = or_small tally.reasons;
      warnings = tally.warnings;
      blocking = not (is_nil leaked);
    }
