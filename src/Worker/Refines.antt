-- ===== src/Worker/Refines.antt =====
-- worker/main.py as a client of the services: what is stored changes by their steps alone.
use pullsmith.Common.{
  refl, ◌⊎◌, inl, inr, ℕ, String, Bool, true, false, Option, none, some, find_row, ◌==◌, Bool-cases,
  Option-cases,
}
use pullsmith.Db.{Db, Job, JobKind, execute_run, index_repository, create_pull_request}
use pullsmith.States.{is_terminal}
use pullsmith.Phases.{Raised, return, ◌>>=◌, ◌>>◌}
use pullsmith.Github.{Request}
use pullsmith.Jobs.{claim_next, mark_succeeded, mark_failed, reclaim_expired}
use pullsmith.Services
use pullsmith.Services.{Steps, job_claimed, job_succeeded, job_failed, jobs_reclaimed}
use pullsmith.Orchestrator.{Runtime, Ride, Step, service, commit, as_crash}
use pullsmith.Orchestrator.Via.{here, joined, Committed, Via, bind-Via, commit-Via, via}
use pullsmith.Orchestrator.Refines.{advance-Served, create_pull_request-Served}
use pullsmith.Orchestrator.Advance.{advance}
use pullsmith.Worker.{
  Shift, session, after_rollback, attempt_run, after_attempt, handle_execute_run,
  handle_create_pull_request, handle_job, finish_job, work_on, process_one, worker_round, survived,
  error_text, publish_run,
}
use pullsmith.Worker.Served.{
  Stored, Commits, IsServed, session-IsServed, bind-IsServed, pure-IsServed, load_run-Served,
  record_failure-IsServed, mark_succeeded-Served, mark_failed-Served, claim_next-Served,
  reclaim_expired-Served, as_steps,
}

module _ (sha256 : String → String) {World : Type 0} where
  module _ (runtime : Runtime World) (client_for_user : (user_id : ℕ) → Db → String ⊎ Request World)
      (base64 : String → String) where
    rolled-Committed :
        (start : Ride World) (r : (Raised ⊎ Unit {0}) × Ride World)
        → Committed (Services.Step sha256) start r.1
        → Committed (Services.Step sha256) start (after_rollback r).1
    rolled-Committed start (inr done, left) h = h
    rolled-Committed start (inl why, left) h = h

    attempt-Commits :
        (run_id : ℕ) → Commits sha256 (attempt_run sha256 runtime client_for_user base64 run_id)
    unfolding attempt_run
    attempt-Commits run_id ride =
        elim (Option-cases (find_row (λ r. r.id == run_id) ride.db.runs)) [
          | inl e ↦ rw e (inl refl)
          | inr (run, e) ↦ rw e (elim (Bool-cases (is_terminal run.state)) [
            | inl t ↦ rw t (inl refl)
            | inr f ↦ rw f (
                rolled-Committed ride ((advance sha256 runtime run_id 11 >> commit) ride) (
                  (bind-Via (advance-Served sha256 run_id runtime 11) (λ _. commit-Via)).commits
                    ride))
          ])
        ]

    after_attempt-IsServed :
        (run_id : ℕ) (r : Raised ⊎ Unit {0})
        → IsServed sha256 (after_attempt sha256 runtime client_for_user base64 run_id r)
    after_attempt-IsServed run_id (inr done) = pure-IsServed sha256 (inr tt)
    after_attempt-IsServed run_id (inl why) =
        bind-IsServed sha256 (record_failure-IsServed sha256 run_id why)
          (λ _. pure-IsServed sha256 (inl why))

    execute_run-IsServed :
        (run_id : ℕ)
        → IsServed sha256 (handle_execute_run sha256 runtime client_for_user base64 run_id)
    unfolding handle_execute_run
    execute_run-IsServed run_id =
        bind-IsServed sha256
          (session-IsServed sha256 (attempt_run sha256 runtime client_for_user base64 run_id)
            (attempt-Commits run_id))
          (after_attempt-IsServed run_id)

    client-Served :
        (user_id : ℕ)
        → Via
            (Services.Step sha256)
            (λ (ride : Ride World). (as_crash (client_for_user user_id ride.db), ride))
    client-Served user_id = record { writes = λ ride. here; commits = λ ride. inl refl }

    publish_run-Served :
        (run_id : ℕ)
        → Via (Services.Step sha256) (publish_run sha256 runtime client_for_user base64 run_id)
    unfolding publish_run
    publish_run-Served run_id =
        search (via, load_run-Served, client-Served, create_pull_request-Served) depth 30

    create_pull_request-IsServed :
        (run_id : ℕ)
        → IsServed sha256 (handle_create_pull_request sha256 runtime client_for_user base64 run_id)
    unfolding handle_create_pull_request
    create_pull_request-IsServed run_id =
        session-IsServed sha256 (publish_run sha256 runtime client_for_user base64 run_id)
          (λ ride. (publish_run-Served run_id).commits ride)

    handle_job-IsServed :
        (kind : JobKind) (run_id : Option ℕ)
        → IsServed sha256 (handle_job sha256 runtime client_for_user base64 kind run_id)
    unfolding handle_job
    handle_job-IsServed execute_run (some run_id) = execute_run-IsServed run_id
    handle_job-IsServed execute_run none = pure-IsServed sha256 _
    handle_job-IsServed create_pull_request (some run_id) = create_pull_request-IsServed run_id
    handle_job-IsServed create_pull_request none = pure-IsServed sha256 _
    handle_job-IsServed index_repository run_id = pure-IsServed sha256 _

    finish_job-Stored :
        (job_id : ℕ) (r : Raised ⊎ Unit {0}) (left : Shift World)
        → Stored sha256 left.stored
            (finish_job sha256 runtime client_for_user base64 job_id (r, left)).1.stored
    unfolding finish_job
    finish_job-Stored job_id (inr done) left =
        (session-IsServed sha256 (service (mark_succeeded job_id) >> (commit >> return true))
            (λ ride. succeeded.commits ride)).steps
          left
      where
        succeeded :
            Via
              (Services.Step sha256)
              (service {World = World} (mark_succeeded job_id) >> (commit >> return true))
        succeeded = search (via, mark_succeeded-Served) depth 20
    finish_job-Stored job_id (inl why) left =
        (session-IsServed sha256
            (service (mark_failed job_id (error_text why) 30) >> (commit >> return true))
            (λ ride. noted.commits ride)).steps
          left
      where
        noted : Via (Services.Step sha256) (
            service {World = World} (mark_failed job_id (error_text why) 30)
            >> (commit >> return true))
        noted = search (via, mark_failed-Served) depth 20

    handled-Stored :
        (job : Job) (db : Db) (r : (Raised ⊎ Unit {0}) × Shift World)
        → Stored sha256 db r.1.stored
        → Stored sha256 db (finish_job sha256 runtime client_for_user base64 job.id r).1.stored
    handled-Stored job db (r, left) h = joined h (finish_job-Stored job.id r left)

    work_on-IsServed :
        (o : Option Job) → IsServed sha256 (work_on sha256 runtime client_for_user base64 o)
    work_on-IsServed none = pure-IsServed sha256 (inr false)
    work_on-IsServed (some job) = record {
      steps = λ shift.
          handled-Stored job shift.stored
            (handle_job sha256 runtime client_for_user base64 job.kind job.run_id shift)
            ((handle_job-IsServed job.kind job.run_id).steps shift);
    }

    module _ (skipped : ℕ → Bool) (worker_id : String) (lease_seconds : ℕ) where
      abbrev claiming : Step World (Option Job)
      claiming = do job ← service (claim_next skipped worker_id lease_seconds); commit; return job

      claiming-Served : Via (Services.Step sha256) claiming
      claiming-Served = search (via, claim_next-Served) depth 20

      process_one-IsServed :
          IsServed sha256
            (process_one sha256 runtime client_for_user base64 skipped worker_id lease_seconds)
      unfolding process_one
      process_one-IsServed =
          bind-IsServed sha256
            (session-IsServed sha256 claiming (λ ride. claiming-Served.commits ride))
            work_on-IsServed

      abbrev reclaiming : Step World (Unit {0})
      reclaiming = service reclaim_expired >> commit

      reclaiming-Served : Via (Services.Step sha256) reclaiming
      reclaiming-Served = search (via, reclaim_expired-Served) depth 20

      survived-Stored :
          (db : Db) (r : (Raised ⊎ Bool) × Shift World)
          → Stored sha256 db r.1.stored
          → Stored sha256 db (survived sha256 runtime client_for_user base64 r).1.stored
      survived-Stored db (inr did_work, left) h = h
      survived-Stored db (inl why, left) h = h

      pub worker_round-Stored :
          (shift : Shift World)
          → Stored sha256 shift.stored
              (worker_round sha256 runtime client_for_user base64 skipped worker_id lease_seconds
                shift).1.stored
      unfolding worker_round
      worker_round-Stored shift =
          survived-Stored shift.stored
            ((session reclaiming
                >> process_one sha256 runtime client_for_user base64 skipped worker_id
                    lease_seconds)
              shift)
            ((bind-IsServed sha256
                (session-IsServed sha256 reclaiming (λ ride. reclaiming-Served.commits ride))
                (λ _. process_one-IsServed)).steps
              shift)

      -- Whatever a round of the worker leaves stored is where a sequence of steps of the service
      -- layer leads from what was stored before: calls of the services, and the writes to the
      -- snapshots and to a run's snapshot and counters that the orchestrator makes itself.
      pub worker_round-Steps :
          (shift : Shift World)
          → Steps sha256 shift.stored
              (worker_round sha256 runtime client_for_user base64 skipped worker_id lease_seconds
                shift).1.stored
      worker_round-Steps shift = as_steps (worker_round-Stored shift)
