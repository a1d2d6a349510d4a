-- ===== src/Api/ReviewRoutes.antt =====
-- api/routes/review.py: the review screen and the three decisions. A response that repeats the
-- fields of a row is the row; the lengths of a comment are checked before the handler runs.
pub mod Screen
use pullsmith.Common.{ℕ, String, Bool, true, false, Option, none, some, not, ◌&&◌, is_some}
use pullsmith.States.{RunState}
use pullsmith.Db.{AgentRun, AgentPlan, RunDiff, Approval}
use pullsmith.Db.Session.{Action, return, http, require, ◌>>=◌, ◌>>◌}
use pullsmith.Runs.{get_run, is_awaiting_human}
use pullsmith.Review.{
  latest_plan, latest_diff, get_approval, is_blocking, approve, reject, request_revision,
}
use pullsmith.Api.{request, translated, not_found_404, review_error_409}

unfoldable pub owned_run : (user_id run_id : ℕ) → Action AgentRun
unfolding not_found_404
owned_run user_id run_id = translated not_found_404 (get_run run_id user_id)

unfoldable pub get_plan : (run_id user_id : ℕ) → Action AgentPlan
unfolding owned_run
get_plan run_id user_id = request do
  owned_run user_id run_id
  plan ← latest_plan run_id
  require plan (http 404 "No plan has been produced yet")

unfoldable pub get_diff : (run_id user_id : ℕ) → Action RunDiff
unfolding owned_run
get_diff run_id user_id = request do
  owned_run user_id run_id
  diff ← latest_diff run_id
  require diff (http 404 "No diff has been produced yet")

pub record ReviewBundle : Type 0 where
  pub run_id : ℕ
  pub state : RunState
  pub awaiting_approval : Bool
  pub iterations_used : ℕ
  pub plan : Option AgentPlan
  pub diff : Option RunDiff
  pub approval : Option Approval
  pub can_approve : Bool

unfoldable pub get_review_bundle : (run_id user_id : ℕ) → Action ReviewBundle
unfolding owned_run is_awaiting_human
get_review_bundle run_id user_id = request do
  run ← owned_run user_id run_id
  plan ← latest_plan run_id
  diff ← latest_diff run_id
  approval ← get_approval run_id
  let bundle : ReviewBundle = record {
    run_id = run.id;
    state = run.state;
    awaiting_approval = is_awaiting_human run;
    iterations_used = run.iteration;
    plan = plan;
    diff = diff;
    approval = approval;
    can_approve = is_some diff && (not (is_blocking diff) && not (is_some approval));
  }
  return bundle

unfoldable pub approve_run : (run_id user_id : ℕ) → (comment : Option String) → Action Approval
unfolding owned_run review_error_409
approve_run run_id user_id comment =
    request
      do run ← owned_run user_id run_id; translated review_error_409 (approve run user_id comment)

unfoldable pub reject_run : (run_id user_id : ℕ) → (comment : Option String) → Action Approval
unfolding owned_run review_error_409
reject_run run_id user_id comment =
    request
      do run ← owned_run user_id run_id; translated review_error_409 (reject run user_id comment)

unfoldable pub request_revision_route : (run_id user_id : ℕ) → (comment : String) → Action Approval
unfolding owned_run review_error_409
request_revision_route run_id user_id comment = request do
  run ← owned_run user_id run_id
  translated review_error_409 (request_revision run user_id comment)
