-- ===== src/Tests.antt =====
-- Small inputs for the theorems on the services: a run that waits for its approval, the diff that
-- it is about, and a queue of two jobs.
mod Reviews
mod Queue
mod Agent
mod Ratings
mod Boundaries
mod Structured
mod Json
mod Changes
mod Routes
mod Suites
mod Repairs
mod Drives
mod Edits
mod Reads
mod Publishing
mod Registry
mod Maps
use pullsmith.Common.{ℕ, String, Bool, true, false, Option, none, some, List, [], ◌∷◌}
use pullsmith.States.{waiting_for_approval}
use pullsmith.Schemas.{VerificationResult}
use pullsmith.Diff.{FileDiff, ChangeSet}
use pullsmith.Risk.{low, RiskAssessment}
use pullsmith.Db.{Db, AgentRun, Repository, Issue, Job, JobStatus, queued, execute_run}

abbrev pub waiting : AgentRun
waiting = record {
  id = 1;
  user_id = 7;
  repository_id = 3;
  issue_id = 4;
  snapshot_id = none;
  state = waiting_for_approval;
  failure_category = none;
  failure_detail = none;
  iteration = 0;
  max_iterations = 5;
  tool_call_count = 0;
  require_plan_approval = false;
  started_at = some 0;
  finished_at = none;
  last_event_sequence = 0;
  created_at = 0;
}

abbrev pub empty_db : Db
empty_db = record {
  now = 100;
  unused_id = 50;
  repositories =
      record {
        id = 3;
        user_id = 7;
        owner = "ann";
        name = "site";
        full_name = "ann/site";
        default_branch = "main";
        clone_url = some "https://example.org/ann/site.git";
      }
      ∷ [];
  snapshots = [];
  issues =
      record { id = 4; repository_id = 3; number = 12; title = "Broken link"; body = none } ∷ [];
  runs = [];
  events = [];
  jobs = [];
  plans = [];
  diffs = [];
  approvals = [];
  pull_requests = [];
}

abbrev pub waiting_db : Db
waiting_db = record empty_db { runs = waiting ∷ [] }

abbrev pub changes : ChangeSet
changes = record {
  files =
      record {
        path = "app.py";
        action = "modified";
        lines_added = 1;
        lines_removed = 1;
        is_sensitive = false;
        diff_text = "-a\n+b";
        truncated = false;
      }
      ∷ [];
  truncated = false;
}

abbrev pub harmless : RiskAssessment
harmless = record { level = low; score = 0; reasons = []; warnings = []; blocking = false }

abbrev pub job : ℕ → ℕ → Job
job id run_after = record {
  id = id;
  kind = execute_run;
  run_id = none;
  payload = none;
  status = queued;
  attempts = 0;
  max_attempts = 3;
  run_after = run_after;
  locked_at = none;
  locked_by = none;
  lease_expires_at = none;
  last_error = none;
}

abbrev pub queue_db : Db
queue_db = record empty_db { jobs = job 10 90 ∷ job 11 80 ∷ [] }
