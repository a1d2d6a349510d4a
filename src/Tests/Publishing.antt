-- ===== src/Tests/Publishing.antt =====
-- The theorems on the publication and the worker, applied to an approved run of one file.
use pullsmith.Common.{
  ◌≡◌, refl, ◌⊎◌, inr, ℕ, ◌+◌, ◌≤◌, String, Bool, false, none, some, [], ◌∷◌, All,
}
use pullsmith.States.{completed, failed, can_transition}
use pullsmith.Db.{
  Db, AgentPlan, RunDiff, Approval, approved, Job, running, create_pull_request, Json, text, num,
  object, fields_of,
}
use pullsmith.Github.{Request}
use pullsmith.Orchestrator.{Runtime, Ride, fresh_scratch, raised_by}
use pullsmith.Orchestrator.Moves.{state_in}
use pullsmith.Orchestrator.Publish
use pullsmith.Orchestrator.Gated.{IsHeld, IsOpen, create_pull_request-IsHeld}
use pullsmith.Jobs.{claim_next}
use pullsmith.Events.{append_event}
use pullsmith.Review.{newest_diff, newest_plan, get_approval, is_approved}
use pullsmith.Worker.{Shift, process_one, worker_round}
use pullsmith.Worker.Refines.{worker_round-Steps}
use pullsmith.Worker.Interleaved.{SystemStep, called, worked, turns-invariants}
use pullsmith.Orchestrator.Via.{Star, here, next}
use pullsmith.Events.Timeline.{IsTimeline}
use pullsmith.Runs.{create_run}
use pullsmith.Services.{Steps, run_created}
use pullsmith.Services.Active.Rows.{active_count}
use pullsmith.Worker.Settled.{IsLetGo, process_one-IsLetGo}
use pullsmith.Tests.{waiting_db, empty_db, job}
use pullsmith.Tests.Repairs.{plan}
use pullsmith.Tests.Drives.{runtime}

abbrev sha : String → String
sha s = s

abbrev holding : Runtime ℕ
holding = record runtime { read_text = λ path w name. some "b" }

-- Every answer of GitHub has what any request looks for; the world counts the requests.
abbrev answer : Json
answer = object (
    fields_of (
      ("object", object (fields_of (("sha", text "c0") ∷ [])))
      ∷ ("commit", object (fields_of (("sha", text "c1") ∷ [])))
      ∷ ("head", object (fields_of (("sha", text "c1") ∷ [])))
      ∷ ("sha", text "b0")
      ∷ ("number", num 5)
      ∷ ("html_url", text "https://example.org/5")
      ∷ []))

abbrev request : Request ℕ
request method path fields w = (inr answer, w + 1)

abbrev diff_text : String
diff_text = "--- a/app.py\n+++ b/app.py\n-a\n+b\n"

abbrev stored_plan : AgentPlan
stored_plan = record {
  id = 60;
  run_id = 1;
  version = 1;
  problem_understanding = "The link is broken";
  suspected_root_cause = "A missing slash";
  root_cause_confidence = "high";
  verification_strategy = "pytest";
  payload = plan;
}

abbrev stored_diff : RunDiff
stored_diff = record {
  id = 61;
  run_id = 1;
  diff_text = diff_text;
  diff_hash = diff_text;
  files_changed = 1;
  lines_added = 1;
  lines_removed = 1;
  risk_level = "low";
  risk_score = 0;
  risk_reasons = [];
  risk_warnings = [];
  risk_blocking = false;
  sensitive_paths = [];
  verification = none;
  created_at = 90;
}

abbrev given : Approval
given = record {
  id = 62;
  run_id = 1;
  user_id = 7;
  decision = approved;
  diff_hash = diff_text;
  comment = none;
  created_at = 95;
}

abbrev publishing : Job
publishing = record (job 63 90) { kind = create_pull_request; run_id = some 1 }

abbrev approved_db : Db
approved_db = record waiting_db {
  plans = stored_plan ∷ [];
  diffs = stored_diff ∷ [];
  approvals = given ∷ [];
  jobs = publishing ∷ [];
}

abbrev ride_of : Db → Ride ℕ
ride_of db = record { db = db; committed = db; scratch = fresh_scratch 0; world = 0 }

abbrev base64 : String → String
base64 s = s

abbrev published : Ride ℕ
published = (Publish.create_pull_request sha holding request base64 1 (ride_of approved_db)).1

five_requests : published.world ≡ 5
unfolding Publish.create_pull_request append_event can_transition newest_diff newest_plan
    get_approval is_approved fields_of raised_by
five_requests = refl

completes : state_in 1 published.committed ≡ some completed
unfolding Publish.create_pull_request append_event can_transition newest_diff newest_plan
    get_approval is_approved fields_of raised_by
completes = refl

abbrev unapproved_db : Db
unapproved_db = record approved_db { approvals = [] }

refused_run :
    state_in 1
      (Publish.create_pull_request sha holding request base64 1 (ride_of unapproved_db)).1.committed
    ≡ some failed
unfolding Publish.create_pull_request append_event can_transition newest_diff newest_plan
    get_approval is_approved fields_of raised_by
refused_run = refl

create_pull_request-IsHeld_example :
    IsOpen sha holding request base64 1 unapproved_db
    ⊎ IsHeld sha holding request base64 1 0
        (Publish.create_pull_request sha holding request base64 1 (ride_of unapproved_db))
create_pull_request-IsHeld_example =
    create_pull_request-IsHeld sha holding request base64 1 (ride_of unapproved_db)

abbrev free : ℕ → Bool
free id = false

abbrev client : ℕ → Db → String ⊎ Request ℕ
client user_id db = inr request

abbrev claimed_job : Job
claimed_job = record publishing {
  status = running;
  attempts = 1;
  locked_at = some 100;
  locked_by = some "w1";
  lease_expires_at = some 160;
}

abbrev shift : Shift ℕ
shift = record { stored = approved_db; world = 0 }

process_one-IsLetGo_example :
    All (IsLetGo 63) (process_one sha holding client base64 free "w1" 60 shift).1.stored.jobs
unfolding claim_next
process_one-IsLetGo_example =
    process_one-IsLetGo sha holding client base64 free "w1" 60 shift claimed_job refl

worker_round-Steps_example :
    Steps sha approved_db (worker_round sha holding client base64 free "w1" 60 shift).1.stored
worker_round-Steps_example = worker_round-Steps sha holding client base64 free "w1" 60 shift

-- A run is asked for, and a worker takes its job.
abbrev asked : Shift ℕ
asked = record { stored = (create_run 7 3 4 5 false empty_db).1; world = 0 }

abbrev taken : Db
taken = (worker_round sha holding client base64 free "w1" 60 asked).1.stored

abbrev two_turns : Star (SystemStep sha holding client base64) empty_db taken
two_turns = next (next here (called (run_created 7 3 4 5 false))) (worked asked free "w1" 60)

fails_early : state_in 50 taken ≡ some failed
unfolding worker_round create_run claim_next append_event can_transition pullsmith.Jobs.enqueue
    pullsmith.Orchestrator.Prepare.clone_step
fails_early = refl

turns-invariants_example :
    IsTimeline taken × ((issue_id : ℕ) → active_count issue_id taken.runs ≤ 1)
turns-invariants_example =
    turns-invariants sha holding client base64 two_turns refl
      (record { numbered = λ id. refl; agrees = λ id. refl })
