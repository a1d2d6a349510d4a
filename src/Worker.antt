-- ===== src/Worker.antt =====
-- worker/main.py: one job per call, each in its own sessions. What a session has not committed is
-- gone when it closes. The client of GitHub that github/tokens.py builds for a user is the
-- argument `client_for_user`; the loop's waiting and the signals are left out.
pub mod Settled
pub mod Served
pub mod Refines
pub mod Interleaved
use pullsmith.Common.{
  ℕ, ◌⊎◌, inl, inr, String, Bool, true, false, Option, none, some, List, [], ◌∷◌, ◌==◌,
  if◌then◌else◌, find_row, take_text, show, ◌<>◌,
}
use pullsmith.States.{pr_created, failed, tool_failure, state_eq, is_terminal}
use pullsmith.Db.{Db, AgentRun, Job, JobKind, execute_run, index_repository, create_pull_request}
use pullsmith.Events.{transition}
use pullsmith.Jobs.{claim_next, mark_succeeded, mark_failed, reclaim_expired}
use pullsmith.Phases.{
  Raised, aborted, quota, unapproved, crashed, Fallible, return, raise, then_do, ◌>>=◌, ◌>>◌,
}
use pullsmith.Github.{Request}
use pullsmith.Orchestrator.{
  Runtime, fresh_scratch, Ride, Step, service, commit, needed, on_world, as_crash,
}
use pullsmith.Orchestrator.Advance.{advance}
use pullsmith.Orchestrator.Publish

-- What is stored, as every new session sees it.
pub record Shift (World : Type 0) : Type 0 where
  pub stored : Db
  pub world : World

-- `f"{type(exc).__name__}: {exc}"`
unfoldable pub error_text : Raised → String
error_text (aborted category detail) = "RunAborted: " <> detail
error_text (quota why) = "QuotaExceededError: " <> why
error_text (unapproved why) = "ApprovalRequiredError: " <> why
error_text (crashed why) = why

abbrev kind_name : JobKind → String
kind_name execute_run = "execute_run"
kind_name index_repository = "index_repository"
kind_name create_pull_request = "create_pull_request"

-- What an `except` clause gets, after its rollback.
abbrev pub after_rollback :
    {World : Type 0}
    → (Raised ⊎ Unit {0}) × Ride World
    → (Raised ⊎ (Raised ⊎ Unit {0})) × Ride World
after_rollback (inr done, ride) = (inr (inr tt), ride)
after_rollback (inl why, ride) = (inr (inl why), record ride { db = ride.committed })

abbrev pub Work : Type 0 → Type 0 → Type 0
Work World A = Fallible (Shift World) A

module _ {World : Type 0} where
  -- `async with session_scope()`
  unfoldable pub session : {A : Type 0} → Step World A → Work World A
  session body shift =
      let r = body (record {
        db = shift.stored;
        committed = shift.stored;
        scratch = fresh_scratch 0;
        world = shift.world;
      }) in
      (r.0, record { stored = r.1.committed; world = r.1.world })

  -- `_load_run`
  abbrev pub load_run : (run_id : ℕ) → Step World AgentRun
  load_run run_id = λ ride.
      needed (find_row (λ r. r.id == run_id) ride.db.runs)
        (crashed "NoResultFound: No row was found when one was required") ride

  unfoldable pub record_failed_run : (run_id : ℕ) → Raised → Step World (Unit {0})
  unfolding error_text transition is_terminal take_text
  record_failed_run run_id why = do
    run ← load_run run_id
    let failing : Step World (Unit {0}) = (do
      service (
          transition run_id failed (some "Run failed during execution") (some tool_failure)
            (some (take_text 2000 (error_text why))) none)
      commit)
    if is_terminal run.state then return tt else failing

  -- `_record_failure`
  unfoldable pub record_failure : (run_id : ℕ) → Raised → Work World (Unit {0})
  unfolding session record_failed_run
  record_failure run_id why = session (record_failed_run run_id why)

module _ {World : Type 0} (sha256 : String → String) (runtime : Runtime World)
    (client_for_user : (user_id : ℕ) → Db → String ⊎ Request World) (base64 : String → String) where
  -- `_handle_execute_run`: eleven rounds of the driver are enough.
  unfoldable pub attempt_run : (run_id : ℕ) → Step World (Raised ⊎ Unit {0})
  unfolding advance is_terminal
  attempt_run run_id = do
    run ← load_run run_id
    let attempt : Step World (Raised ⊎ Unit {0}) =
        λ ride. after_rollback ((advance sha256 runtime run_id 11 >> commit) ride)
    if is_terminal run.state then return (inr tt) else attempt

  abbrev after_attempt : (run_id : ℕ) → (Raised ⊎ Unit {0}) → Work World (Unit {0})
  after_attempt run_id (inr done) = return tt
  after_attempt run_id (inl why) = record_failure run_id why >> raise why

  unfoldable pub handle_execute_run : (run_id : ℕ) → Work World (Unit {0})
  unfolding session attempt_run record_failure
  handle_execute_run run_id = session (attempt_run run_id) >>= after_attempt run_id

  -- `_handle_create_pull_request`
  unfoldable pub publish_run : (run_id : ℕ) → Step World (Unit {0})
  unfolding Publish.create_pull_request is_terminal state_eq
  publish_run run_id = do
    run ← load_run run_id
    let publish : Step World (Unit {0}) = (do
      request ← (λ ride. (as_crash (client_for_user run.user_id ride.db), ride))
      Publish.create_pull_request sha256 runtime request base64 run_id
      commit)
    let unless_opened : Step World (Unit {0}) =
        if state_eq run.state pr_created then return tt else publish
    if is_terminal run.state then return tt else unless_opened

  unfoldable pub handle_create_pull_request : (run_id : ℕ) → Work World (Unit {0})
  unfolding session publish_run
  handle_create_pull_request run_id = session (publish_run run_id)

  unfoldable pub handle_job : JobKind → Option ℕ → Work World (Unit {0})
  unfolding handle_execute_run handle_create_pull_request
  handle_job execute_run (some run_id) = handle_execute_run run_id
  handle_job create_pull_request (some run_id) = handle_create_pull_request run_id
  handle_job kind run_id =
      raise (crashed ("RuntimeError: Unsupported job kind: " <> kind_name kind))

  -- After the handler: the job succeeds, or its failure is noted, for a retry in thirty seconds.
  unfoldable pub finish_job :
      (job_id : ℕ) → (Raised ⊎ Unit {0}) × Shift World → (Raised ⊎ Bool) × Shift World
  unfolding session mark_succeeded mark_failed error_text
  finish_job job_id (inr done, shift) =
      session (do service (mark_succeeded job_id); commit; return true) shift
  finish_job job_id (inl why, shift) =
      session (do service (mark_failed job_id (error_text why) 30); commit; return true) shift

  abbrev work_on : Option Job → Work World Bool
  work_on none = return false
  work_on (some job) = λ shift. finish_job job.id (handle_job job.kind job.run_id shift)

  -- `_process_one`
  unfoldable pub process_one :
      (skipped : ℕ → Bool) (worker_id : String) (lease_seconds : ℕ) → Work World Bool
  unfolding session claim_next finish_job handle_job
  process_one skipped worker_id lease_seconds =
      session (do job ← service (claim_next skipped worker_id lease_seconds); commit; return job)
      >>= work_on

  abbrev survived : (Raised ⊎ Bool) × Shift World → Bool × Shift World
  survived (inr did_work, shift) = (did_work, shift)
  survived (inl why, shift) = (false, shift)

  -- One round of `run_worker`.
  unfoldable pub worker_round :
      (skipped : ℕ → Bool) (worker_id : String) (lease_seconds : ℕ)
      → Shift World
      → Bool × Shift World
  unfolding session reclaim_expired process_one
  worker_round skipped worker_id lease_seconds shift = survived (
      (session (do service reclaim_expired; commit) >> process_one skipped worker_id lease_seconds)
        shift)
