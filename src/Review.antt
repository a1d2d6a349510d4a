-- ===== src/Review.antt =====
-- services/review_service.py: review decisions and the push gate. The hash of a text, SHA-256 of
-- Python's hashlib, is the parameter `sha256`.
pub mod Gate
pub mod Effect
pub mod Body
use pullsmith.Common.{
  ℕ, ◌+◌, String, Bool, true, false, Option, none, some, List, [], ◌∷◌, ◌++◌, not, leb, ◌==◌,
  if◌then◌else◌, where_rows, find_row, length, take_text, show, ◌<>◌, str_eq, is_some, is_blank,
  or_text,
}
use pullsmith.States.{
  waiting_for_approval, planning, pr_created, failed, human_rejection, state_eq, state_name,
}
use pullsmith.Schemas.{ImplementationPlan, VerificationResult, confidence_name}
use pullsmith.Diff
use pullsmith.Diff.{ChangeSet}
use pullsmith.Risk.{RiskAssessment, level_name}
use pullsmith.Db.{
  Json, null, num, text, AgentRun, EventKind, create_pull_request, execute_run, AgentPlan, RunDiff,
  Decision, approved, rejected, revision_requested, Approval, PullRequest,
}
use pullsmith.Db.Session.{
  Action, return, review_error, approval_required, require, query, change, fail_if, new_id, utc_now,
  ◌>>=◌, ◌>>◌,
}
use pullsmith.Events.{append_event, transition}
use pullsmith.Jobs.{enqueue}

unfoldable pub decision_name : Decision → String
decision_name approved = "approved"
decision_name rejected = "rejected"
decision_name revision_requested = "revision_requested"

unfoldable pub is_approved : Decision → Bool
is_approved approved = true
is_approved _ = false

-- Every plan of the run stays, and the new one has the next version.
unfoldable pub store_plan : (run_id : ℕ) → ImplementationPlan → Action AgentPlan
store_plan run_id plan = do
  existing ← query (λ db. where_rows (λ p. p.run_id == run_id) db.plans)
  plan_id ← new_id
  let row : AgentPlan = record {
    id = plan_id;
    run_id = run_id;
    version = length existing + 1;
    problem_understanding = plan.problem_understanding;
    suspected_root_cause = plan.suspected_root_cause;
    root_cause_confidence = confidence_name plan.root_cause_confidence;
    verification_strategy = plan.verification_strategy;
    payload = plan;
  }
  change (λ db. record db { plans = db.plans ++ row ∷ [] })
  return row

unfoldable pub store_diff :
    (sha256 : String → String) (run_id : ℕ)
    → ChangeSet
    → RiskAssessment
    → Option VerificationResult
    → Action RunDiff
unfolding Diff.file_count
store_diff sha256 run_id change_set risk verification = do
  diff_id ← new_id
  now ← utc_now
  let diff_text = Diff.unified_diff change_set
  let row : RunDiff = record {
    id = diff_id;
    run_id = run_id;
    diff_text = diff_text;
    diff_hash = sha256 diff_text;
    files_changed = Diff.file_count change_set;
    lines_added = Diff.lines_added change_set;
    lines_removed = Diff.lines_removed change_set;
    risk_level = level_name risk.level;
    risk_score = risk.score;
    risk_reasons = risk.reasons;
    risk_warnings = risk.warnings;
    risk_blocking = risk.blocking;
    sensitive_paths = Diff.sensitive_paths change_set;
    verification = verification;
    created_at = now;
  }
  change (λ db. record db { diffs = db.diffs ++ row ∷ [] })
  return row

unfoldable pub newer_diff : RunDiff → Option RunDiff → RunDiff
newer_diff d none = d
newer_diff d (some e) = if leb e.created_at d.created_at then d else e

-- ORDER BY created_at DESC LIMIT 1, with the first of several rows of one time.
unfoldable pub newest_diff : List RunDiff → Option RunDiff
unfolding newer_diff
newest_diff [] = none
newest_diff (d ∷ ds) = some (newer_diff d (newest_diff ds))

unfoldable pub latest_diff : (run_id : ℕ) → Action (Option RunDiff)
latest_diff run_id = query (λ db. newest_diff (where_rows (λ d. d.run_id == run_id) db.diffs))

unfoldable newer_plan : AgentPlan → Option AgentPlan → AgentPlan
newer_plan p none = p
newer_plan p (some q) = if leb q.version p.version then p else q

-- ORDER BY version DESC LIMIT 1
unfoldable pub newest_plan : List AgentPlan → Option AgentPlan
unfolding newer_plan
newest_plan [] = none
newest_plan (p ∷ ps) = some (newer_plan p (newest_plan ps))

unfoldable pub latest_plan : (run_id : ℕ) → Action (Option AgentPlan)
latest_plan run_id = query (λ db. newest_plan (where_rows (λ p. p.run_id == run_id) db.plans))

unfoldable pub get_approval : (run_id : ℕ) → Action (Option Approval)
get_approval run_id = query (λ db. find_row (λ a. a.run_id == run_id) db.approvals)

unfoldable pub decide : AgentRun → (user_id : ℕ) → Decision → Option String → Action Approval
decide run user_id decision comment = do
  earlier ← get_approval run.id
  fail_if (is_some earlier) (review_error "This run has already been decided")
  latest ← latest_diff run.id
  diff ← require latest (review_error "There is no diff to review for this run")
  approval_id ← new_id
  now ← utc_now
  let approval : Approval = record {
    id = approval_id;
    run_id = run.id;
    user_id = user_id;
    decision = decision;
    diff_hash = diff.diff_hash;
    comment = comment;
    created_at = now;
  }
  change (λ db. record db { approvals = db.approvals ++ approval ∷ [] })
  return approval

-- The state check that the three decisions share.
unfoldable pub assert_awaiting : AgentRun → Action (Unit {0})
assert_awaiting run =
    fail_if (not (state_eq run.state waiting_for_approval))
      (review_error ("Run is in state " <> state_name run.state <> ", not awaiting approval"))

abbrev pub is_blocking : Option RunDiff → Bool
is_blocking none = false
is_blocking (some diff) = diff.risk_blocking

unfoldable pub approve : AgentRun → (user_id : ℕ) → Option String → Action Approval
approve run user_id comment = do
  assert_awaiting run
  diff ← latest_diff run.id
  fail_if (is_blocking diff) (
      review_error "This change cannot be approved: a possible credential was detected in the diff")
  approval ← decide run user_id approved comment
  append_event run.id EventKind.approval "Change approved by reviewer" "info" none
      (some (("decision", text "approved") ∷ []))
  enqueue create_pull_request (some run.id) none 0 3
  return approval

unfoldable pub reject : AgentRun → (user_id : ℕ) → Option String → Action Approval
reject run user_id comment = do
  assert_awaiting run
  approval ← decide run user_id rejected comment
  transition run.id failed (some "Rejected by reviewer") (some human_rejection) comment none
  return approval

unfoldable pub request_revision : AgentRun → (user_id : ℕ) → String → Action Approval
request_revision run user_id comment = do
  assert_awaiting run
  fail_if (is_blank comment) (review_error "A revision request must explain what needs to change")
  approval ← decide run user_id revision_requested (some comment)
  transition run.id planning (some "Revision requested by reviewer") none none
      (some (("comment", text (take_text 500 comment)) ∷ []))
  enqueue execute_run (some run.id) none 0 3
  return approval

unfoldable pub assert_push_allowed :
    (sha256 : String → String) (run_id : ℕ) (diff_text : String) → Action Approval
assert_push_allowed sha256 run_id diff_text = do
  found ← get_approval run_id
  approval ← require found (approval_required "No approval exists for this run")
  fail_if (not (is_approved approval.decision)) (
      approval_required
        ("Run was not approved (decision was '" <> decision_name approval.decision <> "')"))
  fail_if (not (str_eq approval.diff_hash (sha256 diff_text))) (
      approval_required
        "The change has been modified since it was approved; a new review is required")
  return approval

abbrev optional_num : Option ℕ → Json
optional_num none = null
optional_num (some n) = num n

abbrev optional_text : Option String → Json
optional_text none = null
optional_text (some s) = text s

unfoldable pub record_pull_request :
    AgentRun
    → (repository_id : ℕ) → Approval
    → (branch title : String) → Option ℕ
    → (html_url commit_sha : Option String) → Action PullRequest
record_pull_request run repository_id approval branch title number html_url commit_sha = do
  pull_request_id ← new_id
  let row : PullRequest = record {
    id = pull_request_id;
    run_id = run.id;
    repository_id = repository_id;
    approval_id = approval.id;
    branch = branch;
    number = number;
    title = title;
    html_url = html_url;
    commit_sha = commit_sha;
  }
  change (λ db. record db { pull_requests = db.pull_requests ++ row ∷ [] })
  transition run.id pr_created (some ("Pull request opened: " <> or_text html_url branch)) none none
      (some (
        ("branch", text branch)
        ∷ ("number", optional_num number)
        ∷ ("url", optional_text html_url)
        ∷ []))
  return row

-- The run id stands for the text of the uuid.
unfoldable pub branch_name : (run_id : String) (issue_number : ℕ) → String
branch_name run_id issue_number = "agent/issue-" <> show issue_number <> "-" <> take_text 8 run_id
