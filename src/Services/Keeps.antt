-- ===== src/Services/Keeps.antt =====
-- A property of the database that the parts of a service call keep is kept by the call.
use pullsmith.Common.{
  ◌≡◌, ℕ, ◌+◌, String, Bool, Option, none, some, List, [], ◌∷◌, ◌++◌, inl, inr, Bool-cases,
  Option-cases, ◌==◌, ◌&&◌, find_row, refl, show, ◌<>◌,
}
use pullsmith.States.{RunState, created, FailureCategory, is_terminal}
use pullsmith.Db.{
  Db, AgentRun, EventKind, info, text, num, Payload, Job, JobKind, PullRequest, Approval,
  Repository, Issue,
}
use pullsmith.Db.Session.{after-keeps}
use pullsmith.Events.{append_event, transition}
use pullsmith.Jobs.{enqueue, claim_next, mark_failed}
use pullsmith.Jobs.Claim.{claim_next_lem}
use pullsmith.Runs.{is_active_for, create_run, get_run, cancel_run}
use pullsmith.Review.{record_pull_request}

pub record Rules (P : Db → Type 0) : Type 0 where
  pub with_id : (db : Db) → P db → P (record db { unused_id = db.unused_id + 1 })
  pub with_jobs : (db : Db) (jobs : List Job) → P db → P (record db { jobs = jobs })
  pub with_pull_requests :
      (db : Db) (rows : List PullRequest) → P db → P (record db { pull_requests = rows })
  pub with_run :
      (db : Db) (run : AgentRun)
      → run.id ≡ db.unused_id
      → run.last_event_sequence ≡ 0
      → run.state ≡ created
      → find_row (is_active_for run.issue_id) db.runs ≡ none
      → P db
      → P (record db { unused_id = db.unused_id + 1; runs = db.runs ++ run ∷ [] })
  pub appended :
      (run_id : ℕ) (kind : EventKind) (message level : String) (payload : Payload) (db : Db)
      → P db
      → P (append_event run_id kind message level none payload db).1
  pub moved :
      (run_id : ℕ) (target : RunState) (message : Option String) (category : Option FailureCategory)
      (detail : Option String) (payload : Payload) (db : Db)
      → P db
      → P (transition run_id target message category detail payload db).1

module _ (P : Db → Type 0) (rules : Rules P) where
  open rules use {with_id, with_jobs, with_pull_requests, with_run, appended, moved}

  pub enqueue-keeps :
      (kind : JobKind) (run_id : Option ℕ) (payload : Payload) (delay attempts : ℕ) (db : Db)
      → P db
      → P (enqueue kind run_id payload delay attempts db).1
  unfolding enqueue
  enqueue-keeps kind run_id payload delay attempts db h =
      with_jobs (record db { unused_id = db.unused_id + 1 }) _ (with_id db h)

  pub claim_next-keeps :
      (skipped : ℕ → Bool) (worker_id : String) (lease : ℕ) (db : Db)
      → P db
      → P (claim_next skipped worker_id lease db).1
  claim_next-keeps skipped worker_id lease db h = elim (claim_next_lem skipped worker_id lease db) [
    | inl (_, e) ↦ rw e h
    | inr (j, _, e) ↦ rw e (with_jobs db _ h)
  ]

  pub mark_failed-keeps :
      (job_id : ℕ) (error : String) (delay : ℕ) (db : Db)
      → P db
      → P (mark_failed job_id error delay db).1
  unfolding mark_failed
  mark_failed-keeps job_id error delay db h =
      elim (Option-cases (find_row (λ j. j.id == job_id) db.jobs)) [
        | inl e ↦ rw e h
        | inr (j, e) ↦ rw e (with_jobs db _ h)
      ]

  pub cancel_run-keeps : (run_id user_id : ℕ) (db : Db) → P db → P (cancel_run run_id user_id db).1
  unfolding cancel_run get_run
  cancel_run-keeps run_id user_id db h =
      elim (Option-cases (find_row (λ r. (r.id == run_id) && (r.user_id == user_id)) db.runs)) [
        | inl e ↦ rw e h
        | inr (run, e) ↦ rw e (elim (Bool-cases (is_terminal run.state)) [
          | inl t ↦ rw t h
          | inr f ↦ rw f (moved _ _ _ _ _ _ db h)
        ])
      ]

  module _ (user_id repository_id issue_id max_iterations : ℕ) (plan_approval : Bool)
      (db : Db) where
    abbrev owned : Option Repository
    owned = find_row (λ r. (r.id == repository_id) && (r.user_id == user_id)) db.repositories

    abbrev listed : Option Issue
    listed = find_row (λ i. (i.id == issue_id) && (i.repository_id == repository_id)) db.issues

    abbrev queued_run : AgentRun
    queued_run = record {
      id = db.unused_id;
      user_id = user_id;
      repository_id = repository_id;
      issue_id = issue_id;
      snapshot_id = none;
      state = created;
      failure_category = none;
      failure_detail = none;
      iteration = 0;
      max_iterations = max_iterations;
      tool_call_count = 0;
      require_plan_approval = plan_approval;
      started_at = none;
      finished_at = none;
      last_event_sequence = 0;
      created_at = db.now;
    }

    pub create_run-keeps :
        P db → P (create_run user_id repository_id issue_id max_iterations plan_approval db).1
    unfolding create_run enqueue
    create_run-keeps h = elim (Option-cases owned) [
      | inl e ↦ rw e h
      | inr (r, e) ↦ rw e (elim (Option-cases listed) [
        | inl f ↦ rw f h
        | inr (i, f) ↦ rw f (elim (Option-cases (find_row (is_active_for issue_id) db.runs)) [
          | inr (active, g) ↦ rw g h
          | inl g ↦ rw g (
              after-keeps P
                (append_event db.unused_id info ("Run queued for issue #" <> show i.number) "info"
                  none
                  (some (("repository", text r.full_name) ∷ ("issue_number", num i.number) ∷ []))
                  (record db { unused_id = db.unused_id + 1; runs = db.runs ++ queued_run ∷ [] }))
                _ (appended _ _ _ _ _ _ (with_run db queued_run refl refl refl g h))
                (λ _ h'. with_jobs _ _ (with_id _ h')))
        ])
      ])
    ]

  pub record_pull_request-keeps :
      (run : AgentRun) (repository_id : ℕ) (approval : Approval) (branch title : String)
      (number : Option ℕ) (html_url commit_sha : Option String) (db : Db)
      → P db
      → P
          (record_pull_request run repository_id approval branch title number html_url commit_sha
            db).1
  unfolding record_pull_request
  record_pull_request-keeps run repository_id approval branch title number html_url commit_sha db
        h =
      after-keeps P (transition run.id _ _ _ _ _ _) _
        (moved _ _ _ _ _ _ _
          (with_pull_requests (record db { unused_id = db.unused_id + 1 }) _ (with_id db h)))
        (λ _ h'. h')
