-- ===== src/Api/RunRoutes.antt =====
-- api/routes/runs.py, the requests that answer at once. A response that repeats the fields of a
-- row is the row.
use pullsmith.Common.{ℕ, Bool, Option, List, map, or_else}
use pullsmith.States.{RunState}
use pullsmith.Db.{AgentRun, AgentEvent}
use pullsmith.Db.Session.{Action, return, ◌>>=◌, ◌>>◌}
use pullsmith.Events.{list_events}
use pullsmith.Runs.{create_run, get_run, list_runs, cancel_run, is_awaiting_human}
use pullsmith.Api.{request, translated, not_found_404, run_error}

pub record RunResponse : Type 0 where
  pub run : AgentRun
  pub awaiting_human : Bool

unfoldable to_response : AgentRun → RunResponse
unfolding is_awaiting_human
to_response run = record { run = run; awaiting_human = is_awaiting_human run }

pub record CreateRunRequest : Type 0 where
  pub repository_id : ℕ
  pub issue_id : ℕ
  pub require_plan_approval : Bool
  pub max_iterations : Option ℕ

-- `default_iterations` is `settings.max_iterations`; a number in the body is at least 1.
unfoldable create_run_route :
    (user_id default_iterations : ℕ) → CreateRunRequest → Action (ℕ × RunState)
unfolding run_error
create_run_route user_id default_iterations body = request do
  run ← translated run_error (
      create_run user_id body.repository_id body.issue_id
        (or_else body.max_iterations default_iterations) body.require_plan_approval)
  return (run.id, run.state)

unfoldable list_runs_route : (user_id limit offset : ℕ) → Action (List RunResponse)
unfolding to_response
list_runs_route user_id limit offset =
    request do runs ← list_runs user_id limit offset; return (map to_response runs)

unfoldable pub get_run_route : (run_id user_id : ℕ) → Action RunResponse
unfolding to_response not_found_404
get_run_route run_id user_id =
    request do run ← translated not_found_404 (get_run run_id user_id); return (to_response run)

unfoldable pub cancel_run_route : (run_id user_id : ℕ) → Action RunResponse
unfolding to_response run_error
cancel_run_route run_id user_id =
    request do run ← translated run_error (cancel_run run_id user_id); return (to_response run)

unfoldable pub event_history : (run_id user_id after : ℕ) → Action (List AgentEvent)
unfolding not_found_404
event_history run_id user_id after =
    request do translated not_found_404 (get_run run_id user_id); list_events run_id after 500
