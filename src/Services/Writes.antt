-- ===== src/Services/Writes.antt =====
-- What a service call writes to the tables of diffs and approvals.
use pullsmith.Common.{◌≡◌, refl, ◌∙◌, ℕ, String, Option, none, some, [], ◌∷◌, ◌++◌}
use pullsmith.Db.{Db, RunDiff, RepositorySnapshot, Decision, approved, rejected, revision_requested}
use pullsmith.Events.Frame.{SameTables, append_event-SameTables, transition-SameTables}
use pullsmith.Jobs.{enqueue, heartbeat, mark_succeeded, reclaim_expired}
use pullsmith.Review.{store_plan, store_diff}
use pullsmith.Review.Effect.{Effect, approve-Effect, reject-Effect, request_revision-Effect}
use pullsmith.Orchestrator.Snapshots.{find_snapshot, take_snapshot, known_snapshot}
use pullsmith.Services.Keeps.{
  Rules, create_run-keeps, cancel_run-keeps, mark_failed-keeps, claim_next-keeps,
  record_pull_request-keeps,
}
use pullsmith.Services.{
  Step, run_created, run_cancelled, event_appended, moved, job_enqueued, job_claimed, job_beat,
  job_succeeded, job_failed, jobs_reclaimed, plan_stored, diff_stored, approved_by, rejected_by,
  sent_back, pull_request_recorded, waited, snapshot_found, snapshot_saved, snapshot_noted,
  work_noted,
}

-- Neither table is touched.
pub record Keeps (a b : Db) : Type 0 where
  pub diffs : b.diffs ≡ a.diffs
  pub approvals : b.approvals ≡ a.approvals

Keeps-tables : {a b c : Db} → Keeps a b → SameTables b c → Keeps a c
Keeps-tables k t = record { diffs = t.diffs ∙ k.diffs; approvals = t.approvals ∙ k.approvals }

Keeps-refl : (a : Db) → Keeps a a
Keeps-refl a = record { diffs = refl; approvals = refl }

pub data Writes (sha256 : String → String) (a b : Db) : Type 0 where
  keeps : Keeps a b → Writes sha256 a b
  stores :
      (row : RunDiff)
      → row.diff_hash ≡ sha256 row.diff_text
      → b.diffs ≡ a.diffs ++ row ∷ []
      → b.approvals ≡ a.approvals
      → Writes sha256 a b
  decides : (run_id : ℕ) (d : Decision) → Effect run_id d a b → Writes sha256 a b

untouched : (a : Db) → Rules (Keeps a)
untouched a = record {
  with_id = λ db k. record { diffs = k.diffs; approvals = k.approvals };
  with_jobs = λ db jobs k. record { diffs = k.diffs; approvals = k.approvals };
  with_pull_requests = λ db rows k. record { diffs = k.diffs; approvals = k.approvals };
  with_run = λ db run i e f g k. record { diffs = k.diffs; approvals = k.approvals };
  appended = λ r k m l p db h. Keeps-tables h (append_event-SameTables r k m l none p db);
  moved = λ r t m c d p db h. Keeps-tables h (transition-SameTables r t m c d p db);
}

taken-Keeps :
    (repository_id : ℕ) (commit_sha : String) (found : Option RepositorySnapshot) (db : Db)
    → Keeps db (take_snapshot repository_id commit_sha found db).1
unfolding take_snapshot
taken-Keeps repository_id commit_sha none db = record { diffs = refl; approvals = refl }
taken-Keeps repository_id commit_sha (some s) db = record { diffs = refl; approvals = refl }

pub Step-Writes : (sha256 : String → String) {a b : Db} → Step sha256 a b → Writes sha256 a b
unfolding store_plan store_diff enqueue heartbeat mark_succeeded reclaim_expired find_snapshot
Step-Writes sha256 (run_created u r i m p) =
    keeps (create_run-keeps (Keeps _) (untouched _) u r i m p _ (Keeps-refl _))
Step-Writes sha256 (run_cancelled r u) =
    keeps (cancel_run-keeps (Keeps _) (untouched _) r u _ (Keeps-refl _))
Step-Writes sha256 (event_appended {db} r k m l p) =
    keeps (Keeps-tables (Keeps-refl db) (append_event-SameTables r k m l none p db))
Step-Writes sha256 (moved {db} r t m c d p) =
    keeps (Keeps-tables (Keeps-refl db) (transition-SameTables r t m c d p db))
Step-Writes sha256 (job_enqueued k r p d n) = keeps (record { diffs = refl; approvals = refl })
Step-Writes sha256 (job_claimed s w l) =
    keeps (claim_next-keeps (Keeps _) (untouched _) s w l _ (Keeps-refl _))
Step-Writes sha256 (job_beat j l) = keeps (record { diffs = refl; approvals = refl })
Step-Writes sha256 (job_succeeded j) = keeps (record { diffs = refl; approvals = refl })
Step-Writes sha256 (job_failed j e d) =
    keeps (mark_failed-keeps (Keeps _) (untouched _) j e d _ (Keeps-refl _))
Step-Writes sha256 jobs_reclaimed = keeps (record { diffs = refl; approvals = refl })
Step-Writes sha256 (plan_stored r p) = keeps (record { diffs = refl; approvals = refl })
Step-Writes sha256 (diff_stored r c k v) = stores _ refl refl refl
Step-Writes sha256 (approved_by {db} run u c) = decides run.id approved (approve-Effect run u db c)
Step-Writes sha256 (rejected_by {db} run u c) = decides run.id rejected (reject-Effect run u db c)
Step-Writes sha256 (sent_back {db} run u c) =
    decides run.id revision_requested (request_revision-Effect run u db c)
Step-Writes sha256 (pull_request_recorded run r a b t n h s) =
    keeps (record_pull_request-keeps (Keeps _) (untouched _) run r a b t n h s _ (Keeps-refl _))
Step-Writes sha256 (snapshot_found {db} r c) = keeps (taken-Keeps r c (known_snapshot r c db) db)
Step-Writes sha256 (snapshot_saved s) = keeps (record { diffs = refl; approvals = refl })
Step-Writes sha256 (snapshot_noted r s) = keeps (record { diffs = refl; approvals = refl })
Step-Writes sha256 (work_noted r i t) = keeps (record { diffs = refl; approvals = refl })
Step-Writes sha256 (waited s) = keeps (record { diffs = refl; approvals = refl })
