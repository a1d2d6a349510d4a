-- ===== src/Db.antt =====
-- models/core.py, models/review.py and db/base.py: the rows of the tables that the services use,
-- and the session. A table is the list of its rows in the order of insertion. A primary key is a
-- number, and a time is a number of seconds. `updated_at`, which no code reads, is left out.
pub mod Session
use pullsmith.Common.{ℕ, String, Bool, Option, List, [], ◌∷◌}
use pullsmith.States.{RunState, FailureCategory}
use pullsmith.Schemas.{ImplementationPlan, VerificationResult}

-- The JSON values that the program puts into an event's payload.
mutual
  pub data Json : Type 0 where
    null : Json
    bool : Bool → Json
    num : ℕ → Json
    text : String → Json
    texts : List String → Json
    object : Fields → Json

  pub data Fields : Type 0 where
    no_fields : Fields
    field : String → Json → Fields → Fields

-- A dict inside of a payload.
unfoldable pub fields_of : List (String × Json) → Fields
fields_of [] = no_fields
fields_of ((key, value) ∷ more) = field key value (fields_of more)

abbrev pub Payload : Type 0
Payload = Option (List (String × Json))

pub record Repository : Type 0 where
  pub id : ℕ
  pub user_id : ℕ
  pub owner : String
  pub name : String
  pub full_name : String
  pub default_branch : String
  pub clone_url : Option String

pub record RepositorySnapshot : Type 0 where
  pub id : ℕ
  pub repository_id : ℕ
  pub commit_sha : String
  pub index_status : String
  pub chunk_count : ℕ
  pub created_at : ℕ

pub record Issue : Type 0 where
  pub id : ℕ
  pub repository_id : ℕ
  pub number : ℕ
  pub title : String
  pub body : Option String

pub record AgentRun : Type 0 where
  pub id : ℕ
  pub user_id : ℕ
  pub repository_id : ℕ
  pub issue_id : ℕ
  pub snapshot_id : Option ℕ
  pub state : RunState
  pub failure_category : Option FailureCategory
  pub failure_detail : Option String
  pub iteration : ℕ
  pub max_iterations : ℕ
  pub tool_call_count : ℕ
  pub require_plan_approval : Bool
  pub started_at : Option ℕ
  pub finished_at : Option ℕ
  pub last_event_sequence : ℕ
  pub created_at : ℕ

-- services/event_service.py, `EventKind`
pub data EventKind : Type 0 where
  state_changed info warning error tool_call retrieval test_run approval : EventKind

pub record AgentEvent : Type 0 where
  pub id : ℕ
  pub run_id : ℕ
  pub sequence : ℕ
  pub kind : EventKind
  pub state : RunState
  pub message : String
  pub level : String
  pub payload : Payload
  pub created_at : ℕ

-- services/job_queue.py, `JobStatus` and `JobKind`
pub data JobStatus : Type 0 where
  queued running succeeded failed : JobStatus

pub data JobKind : Type 0 where
  execute_run index_repository create_pull_request : JobKind

pub record Job : Type 0 where
  pub id : ℕ
  pub kind : JobKind
  pub run_id : Option ℕ
  pub payload : Payload
  pub status : JobStatus
  pub attempts : ℕ
  pub max_attempts : ℕ
  pub run_after : ℕ
  pub locked_at : Option ℕ
  pub locked_by : Option String
  pub lease_expires_at : Option ℕ
  pub last_error : Option String

pub record AgentPlan : Type 0 where
  pub id : ℕ
  pub run_id : ℕ
  pub version : ℕ
  pub problem_understanding : String
  pub suspected_root_cause : String
  pub root_cause_confidence : String
  pub verification_strategy : String
  pub payload : ImplementationPlan

pub record RunDiff : Type 0 where
  pub id : ℕ
  pub run_id : ℕ
  pub diff_text : String
  pub diff_hash : String
  pub files_changed : ℕ
  pub lines_added : ℕ
  pub lines_removed : ℕ
  pub risk_level : String
  pub risk_score : ℕ
  pub risk_reasons : List String
  pub risk_warnings : List String
  pub risk_blocking : Bool
  pub sensitive_paths : List String
  pub verification : Option VerificationResult
  pub created_at : ℕ

-- services/review_service.py, `Decision`
pub data Decision : Type 0 where
  approved rejected revision_requested : Decision

pub record Approval : Type 0 where
  pub id : ℕ
  pub run_id : ℕ
  pub user_id : ℕ
  pub decision : Decision
  pub diff_hash : String
  pub comment : Option String
  pub created_at : ℕ

pub record PullRequest : Type 0 where
  pub id : ℕ
  pub run_id : ℕ
  pub repository_id : ℕ
  pub approval_id : ℕ
  pub branch : String
  pub number : Option ℕ
  pub title : String
  pub html_url : Option String
  pub commit_sha : Option String

-- `now` is the clock, and `unused_id` the next key that `new_id` hands out.
pub record Db : Type 0 where
  pub now : ℕ
  pub unused_id : ℕ
  pub repositories : List Repository
  pub snapshots : List RepositorySnapshot
  pub issues : List Issue
  pub runs : List AgentRun
  pub events : List AgentEvent
  pub jobs : List Job
  pub plans : List AgentPlan
  pub diffs : List RunDiff
  pub approvals : List Approval
  pub pull_requests : List PullRequest
