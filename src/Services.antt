-- ===== src/Services.antt =====
-- The service layer as a whole: what the API and the worker may do to the database, one service
-- call of services/*.py at a time and in any order. A call that raised may have written: its
-- caller rolls that back or commits it (agent/orchestrator.py, `_fail`), so a step is any call. The
-- rows that agent/orchestrator.py writes past the services are steps, too.
pub mod Keeps
pub mod Writes
pub mod Rules
pub mod Timeline
pub mod Decided
pub mod Active
pub mod Aside
pub mod Approved
use pullsmith.Common.{ℕ, ◌+◌, ◌==◌, String, Bool, Option, none, some, update_rows}
use pullsmith.Orchestrator.Snapshots.{find_snapshot, save_snapshot}
use pullsmith.States.{RunState, FailureCategory}
use pullsmith.Schemas.{ImplementationPlan, VerificationResult}
use pullsmith.Diff.{ChangeSet}
use pullsmith.Risk.{RiskAssessment}
use pullsmith.Db.{Db, AgentRun, RepositorySnapshot, EventKind, Payload, JobKind, Approval}
use pullsmith.Db.Session.{Action}
use pullsmith.Events.{append_event, transition}
use pullsmith.Jobs.{enqueue, claim_next, heartbeat, mark_succeeded, mark_failed, reclaim_expired}
use pullsmith.Runs.{create_run, cancel_run}
use pullsmith.Review.{
  store_plan, store_diff, approve, reject, request_revision, record_pull_request,
}

abbrev pub with_snapshot : (snapshot_id : ℕ) → AgentRun → AgentRun
with_snapshot snapshot_id r = record r { snapshot_id = some snapshot_id }

abbrev pub with_work : (iteration tool_call_count : ℕ) → AgentRun → AgentRun
with_work iteration tool_call_count r = record r {
  iteration = iteration;
  tool_call_count = tool_call_count;
}

-- The four before `waited` are what agent/orchestrator.py writes itself.
module _ (sha256 : String → String) where
  pub data Step : Db → Db → Type 0 where
    run_created :
        {db : Db} (user_id repository_id issue_id max_iterations : ℕ) (plan_approval : Bool)
        → Step db (create_run user_id repository_id issue_id max_iterations plan_approval db).1
    run_cancelled : {db : Db} (run_id user_id : ℕ) → Step db (cancel_run run_id user_id db).1
    event_appended :
        {db : Db} (run_id : ℕ) (kind : EventKind) (message level : String) (payload : Payload)
        → Step db (append_event run_id kind message level none payload db).1
    moved :
        {db : Db} (run_id : ℕ) (target : RunState) (message : Option String)
        (category : Option FailureCategory) (detail : Option String) (payload : Payload)
        → Step db (transition run_id target message category detail payload db).1
    job_enqueued :
        {db : Db} (kind : JobKind) (run_id : Option ℕ) (payload : Payload) (delay attempts : ℕ)
        → Step db (enqueue kind run_id payload delay attempts db).1
    job_claimed :
        {db : Db} (skipped : ℕ → Bool) (worker_id : String) (lease : ℕ)
        → Step db (claim_next skipped worker_id lease db).1
    job_beat : {db : Db} (job_id lease : ℕ) → Step db (heartbeat job_id lease db).1
    job_succeeded : {db : Db} (job_id : ℕ) → Step db (mark_succeeded job_id db).1
    job_failed :
        {db : Db} (job_id : ℕ) (error : String) (delay : ℕ)
        → Step db (mark_failed job_id error delay db).1
    jobs_reclaimed : {db : Db} → Step db (reclaim_expired db).1
    plan_stored :
        {db : Db} (run_id : ℕ) (plan : ImplementationPlan) → Step db (store_plan run_id plan db).1
    diff_stored :
        {db : Db} (run_id : ℕ) (changes : ChangeSet) (risk : RiskAssessment)
        (verification : Option VerificationResult)
        → Step db (store_diff sha256 run_id changes risk verification db).1
    approved_by :
        {db : Db} (run : AgentRun) (user_id : ℕ) (comment : Option String)
        → Step db (approve run user_id comment db).1
    rejected_by :
        {db : Db} (run : AgentRun) (user_id : ℕ) (comment : Option String)
        → Step db (reject run user_id comment db).1
    sent_back :
        {db : Db} (run : AgentRun) (user_id : ℕ) (comment : String)
        → Step db (request_revision run user_id comment db).1
    pull_request_recorded :
        {db : Db} (run : AgentRun) (repository_id : ℕ) (approval : Approval) (branch title : String)
        (number : Option ℕ) (html_url commit_sha : Option String)
        → Step db
            (record_pull_request run repository_id approval branch title number html_url commit_sha
              db).1
    snapshot_found :
        {db : Db} (repository_id : ℕ) (commit_sha : String)
        → Step db (find_snapshot repository_id commit_sha db).1
    snapshot_saved :
        {db : Db} (snapshot : RepositorySnapshot)
        → Step db (record db { snapshots = save_snapshot snapshot db.snapshots })
    snapshot_noted :
        {db : Db} (run_id snapshot_id : ℕ)
        → Step db (record db {
          runs = update_rows (λ r. r.id == run_id) (with_snapshot snapshot_id) db.runs;
        })
    work_noted :
        {db : Db} (run_id iteration tool_call_count : ℕ)
        → Step db (record db {
          runs = update_rows (λ r. r.id == run_id) (with_work iteration tool_call_count) db.runs;
        })
    waited : {db : Db} (seconds : ℕ) → Step db (record db { now = db.now + seconds })

  pub data Steps (a : Db) : Db → Type 0 where
    here : Steps a a
    next : {b c : Db} → Steps a b → Step b c → Steps a c
