-- ===== src/Runs.antt =====
-- services/run_manager.py: the lifecycle of a run. Rows of a key are found by `find_row`, and
-- `create_run` looks for an active run with `first()`.
use pullsmith.Common.{
  ℕ, String, Bool, Option, none, some, List, [], ◌∷◌, ◌++◌, not, ◌&&◌, leb, ◌==◌, if◌then◌else◌,
  where_rows, find_row, take, drop, show, ◌<>◌, is_some, or_else,
}
use pullsmith.States.{
  created, completed, failed, cancelled, human_rejection, contains, is_terminal, awaits_human,
  state_name,
}
use pullsmith.Db.{text, num, AgentRun, info, execute_run}
use pullsmith.Db.Session.{
  Action, not_found, run_conflict, require, query, change, fail_if, new_id, utc_now, ◌>>=◌, ◌>>◌,
}
use pullsmith.Events.{find_run, append_event, transition}
use pullsmith.Jobs.{enqueue}

-- `AgentRun.issue_id == issue_id` and the state not one of the three final ones
unfoldable pub is_active_for : (issue_id : ℕ) → AgentRun → Bool
is_active_for issue_id run =
    (run.issue_id == issue_id) && not (contains (completed ∷ failed ∷ cancelled ∷ []) run.state)

abbrev active_conflict : Option AgentRun → String
active_conflict none = ""
active_conflict (some active) = "Run " <> show active.id <> " is already active for this issue"

unfoldable pub create_run :
    (user_id repository_id issue_id max_iterations : ℕ) (require_plan_approval : Bool)
    → Action AgentRun
create_run user_id repository_id issue_id max_iterations require_plan_approval = do
  owned ←
      query
        (λ db. find_row (λ r. (r.id == repository_id) && (r.user_id == user_id)) db.repositories)
  repository ← require owned (not_found "Repository not found")
  listed ←
      query
        (λ db. find_row (λ i. (i.id == issue_id) && (i.repository_id == repository_id)) db.issues)
  issue ← require listed (not_found "Issue not found for this repository")
  active ← query (λ db. find_row (is_active_for issue_id) db.runs)
  fail_if (is_some active) (run_conflict (active_conflict active))
  run_id ← new_id
  now ← utc_now
  let run : AgentRun = record {
    id = run_id;
    user_id = user_id;
    repository_id = repository_id;
    issue_id = issue_id;
    snapshot_id = none;
    state = created;
    failure_category = none;
    failure_detail = none;
    iteration = 0;
    max_iterations = max_iterations;
    tool_call_count = 0;
    require_plan_approval = require_plan_approval;
    started_at = none;
    finished_at = none;
    last_event_sequence = 0;
    created_at = now;
  }
  change (λ db. record db { runs = db.runs ++ run ∷ [] })
  append_event run.id info ("Run queued for issue #" <> show issue.number) "info" none
      (some (("repository", text repository.full_name) ∷ ("issue_number", num issue.number) ∷ []))
  enqueue execute_run (some run.id) none 0 3
  -- The session hands out one object for a row, so the caller sees the event counted.
  query (λ db. or_else (find_run run_id db.runs) run)

unfoldable pub get_run : (run_id user_id : ℕ) → Action AgentRun
get_run run_id user_id = do
  found ← query (λ db. find_row (λ r. (r.id == run_id) && (r.user_id == user_id)) db.runs)
  require found (not_found "Run not found")

-- ORDER BY created_at DESC: insertion behind the newer rows.
unfoldable insert_run : AgentRun → List AgentRun → List AgentRun
insert_run r [] = r ∷ []
insert_run r (x ∷ xs) =
    let rest = insert_run r xs in if leb x.created_at r.created_at then r ∷ x ∷ xs else x ∷ rest

unfoldable newest_first : List AgentRun → List AgentRun
unfolding insert_run
newest_first [] = []
newest_first (r ∷ rs) = insert_run r (newest_first rs)

unfoldable pub list_runs : (user_id limit offset : ℕ) → Action (List AgentRun)
unfolding newest_first
list_runs user_id limit offset =
    query (λ db.
      take limit (drop offset (newest_first (where_rows (λ r. r.user_id == user_id) db.runs))))

unfoldable pub cancel_run : (run_id user_id : ℕ) → Action AgentRun
cancel_run run_id user_id = do
  run ← get_run run_id user_id
  fail_if (is_terminal run.state)
      (run_conflict ("Run already finished in state " <> state_name run.state))
  transition run.id cancelled (some "Cancelled by user") (some human_rejection) none none

unfoldable pub is_awaiting_human : AgentRun → Bool
is_awaiting_human run = awaits_human run.state
