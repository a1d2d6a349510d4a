-- ===== src/Orchestrator/Publish.antt =====
-- agent/orchestrator.py, `create_pull_request`: the pull request of an approved run. The transport
-- of GitHub and base64 are parameters, as in github/pr.py.
use pullsmith.Common.{
  ℕ, ◌⊎◌, inl, inr, String, Bool, none, some, List, [], ◌∷◌, not, ◌&&◌, ◌==◌, if◌then◌else◌,
  where_rows, find_row, is_some, is_nil, strip, after_prefix, sorted_set, take_text, show, ◌<>◌,
}
use pullsmith.States.{
  completed, failed, FailureCategory, tool_failure, security_block, category_name, is_terminal,
}
use pullsmith.Db.{AgentRun, Repository, Issue, AgentPlan, RunDiff, Approval}
use pullsmith.Db.Session.{no_result_found, require}
use pullsmith.Events.{transition}
use pullsmith.Diff.Build.{keep_lines}
use pullsmith.Review.{
  latest_diff, latest_plan, assert_push_allowed, branch_name, record_pull_request,
}
use pullsmith.Review.Body.{pull_request_body}
use pullsmith.Phases.{Raised, aborted, quota, unapproved, crashed, return, raise, ◌>>=◌, ◌>>◌}
use pullsmith.Github.{Request, Trouble, github_error, other, CreatedPullRequest, publish_changes}
use pullsmith.Orchestrator.{
  Runtime, Ride, Step, service, commit, on_world, write_world, outside, needed, raise_if, the_run,
  move_run,
}

unfoldable of_github : {A : Type 0} → Trouble ⊎ A → Raised ⊎ A
unfolding show
of_github (inr a) = inr a
of_github (inl (github_error status why)) =
    inl (crashed ("GitHubError: GitHub API error " <> show status <> ": " <> why))
of_github (inl (other why)) = inl (crashed why)

-- The paths of the lines `+++ b/path`.
unfoldable published_lines : List String → List String
unfolding after_prefix strip
published_lines [] = []
published_lines (l ∷ ls) =
    let rest = published_lines ls in
    (elim (after_prefix "+++ b/" l) [ none ↦ rest | some path ↦ strip path ∷ rest ])

unfoldable published_paths : (diff_text : String) → List String
unfolding published_lines keep_lines sorted_set
published_paths diff_text = sorted_set (published_lines (keep_lines diff_text))

module _ {World : Type 0} (sha256 : String → String) (runtime : Runtime World)
    (request : Request World) (base64 : String → String) (run_id : ℕ) where
  abbrev is_file : List String → World → String → Bool
  is_file checkout w path = is_some (runtime.read_text checkout w path)

  -- The request to GitHub, of the reviewed diff.
  unfoldable pub open_for :
      AgentRun
      → AgentPlan
      → RunDiff
      → Repository
      → Issue
      → (checkout : List String) → (changed deleted : List String) → Step World CreatedPullRequest
  unfolding publish_changes branch_name pull_request_body of_github show take_text
  open_for run plan diff repository issue checkout changed deleted = outside (λ w.
      let r =
        publish_changes request base64 repository.owner repository.name (runtime.read_text checkout)
          (branch_name (show run.id) issue.number)
          (take_text 72 ("Fix #" <> show issue.number <> ": " <> issue.title)) changed deleted
          repository.default_branch (take_text 200 ("Fix: " <> issue.title))
          (pull_request_body issue.number plan diff "Tests passed" run.iteration) w in
      (of_github r.0, r.1))

  -- What follows the gate.
  unfoldable pub publish_approved :
      AgentRun → AgentPlan → RunDiff → Approval → Step World (Unit {0})
  unfolding published_paths open_for record_pull_request transition take_text
  publish_approved run plan diff approval = do
    repository ← service (λ db.
        require (find_row (λ r. r.id == run.repository_id) db.repositories) no_result_found db)
    issue ←
        service (λ db. require (find_row (λ i. i.id == run.issue_id) db.issues) no_result_found db)
    let checkout = runtime.workspace_for run_id
    there ← on_world (runtime.is_dir checkout)
    raise_if (not there)
        (aborted tool_failure "The workspace is no longer available; the run must be repeated")
    let paths = published_paths diff.diff_text
    changed ← on_world (λ w. where_rows (is_file checkout w) paths)
    deleted ← on_world (λ w. where_rows (λ p. not (is_file checkout w p)) paths)
    raise_if (is_nil changed && is_nil deleted)
        (aborted tool_failure "The reviewed diff named no files to publish")
    created ← open_for run plan diff repository issue checkout changed deleted
    service (
        record_pull_request run repository.id approval created.branch
          (take_text 200 ("Fix: " <> issue.title)) (some created.number) (some created.html_url)
          (some created.head_sha))
    move_run run_id completed "Run complete"
    commit
    write_world (runtime.remove_tree checkout)

  -- `_publish`
  unfoldable pub publish : Step World (Unit {0})
  unfolding latest_diff latest_plan assert_push_allowed publish_approved
  publish = do
    run ← the_run run_id
    stored_diff ← service (latest_diff run_id)
    stored_plan ← service (latest_plan run_id)
    diff ← needed stored_diff (aborted tool_failure "Run has no diff or plan to publish")
    plan ← needed stored_plan (aborted tool_failure "Run has no diff or plan to publish")
    approval ← service (assert_push_allowed sha256 run_id diff.diff_text)
    publish_approved run plan diff approval

  -- `_fail_run`
  unfoldable pub fail_published : FailureCategory → (detail : String) → Step World (Unit {0})
  unfolding transition is_terminal take_text
  fail_published category detail = do
    run ← the_run run_id
    let failing : Step World (Unit {0}) = (do
      service (
          transition run_id failed (some ("Run failed: " <> category_name category)) (some category)
            (some (take_text 2000 detail)) none)
      commit)
    if is_terminal run.state then return tt else failing

  -- The two `except` clauses; each raises again.
  abbrev pub or_fail_published : (Raised ⊎ Unit {0}) × Ride World → (Raised ⊎ Unit {0}) × Ride World
  or_fail_published (inr done, ride) = (inr done, ride)
  or_fail_published (inl (aborted category detail), ride) =
      (fail_published category detail >> raise (aborted category detail)) ride
  or_fail_published (inl (unapproved why), ride) =
      (fail_published security_block why >> raise (unapproved why)) ride
  or_fail_published (inl (quota why), ride) = (inl (quota why), ride)
  or_fail_published (inl (crashed why), ride) = (inl (crashed why), ride)

  unfoldable pub create_pull_request : Step World (Unit {0})
  unfolding publish fail_published
  create_pull_request ride = or_fail_published (publish ride)
