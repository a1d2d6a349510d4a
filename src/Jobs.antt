-- ===== src/Jobs.antt =====
-- services/job_queue.py: the durable job queue. A service call runs in one transaction; the rows
-- that other open transactions hold locked, which SKIP LOCKED passes over, are the argument
-- `skipped` of `claim_next`. Among jobs of one `run_after` the database may return any, the model
-- returns the first.

pub mod Claim
pub mod Lease
pub mod Crashes
use pullsmith.Common.{
  ℕ, ◌+◌, String, Bool, true, false, Option, none, some, List, [], ◌∷◌, ◌++◌, not, ◌&&◌, ltb, leb,
  ◌==◌, if◌then◌else◌, where_rows, find_row, update_rows, length, take_text,
}
use pullsmith.Db.{Db, Job, JobStatus, queued, running, succeeded, failed, JobKind, Payload}
use pullsmith.Db.Session.{
  Action, return, no_result_found, require, query, change, new_id, utc_now, ◌>>=◌, ◌>>◌,
}

unfoldable pub status_eq : JobStatus → JobStatus → Bool
status_eq queued queued = true
status_eq running running = true
status_eq succeeded succeeded = true
status_eq failed failed = true
status_eq _ _ = false

unfoldable pub enqueue :
    JobKind → Option ℕ → Payload → (delay_seconds max_attempts : ℕ) → Action Job
enqueue kind run_id payload delay_seconds max_attempts = do
  job_id ← new_id
  now ← utc_now
  let job : Job = record {
    id = job_id;
    kind = kind;
    run_id = run_id;
    payload = payload;
    status = queued;
    attempts = 0;
    max_attempts = max_attempts;
    run_after = now + delay_seconds;
    locked_at = none;
    locked_by = none;
    lease_expires_at = none;
    last_error = none;
  }
  change (λ db. record db { jobs = db.jobs ++ job ∷ [] })
  return job

-- `Job.status == QUEUED, Job.run_after <= now`, and not locked by another transaction
unfoldable pub is_claimable : (ℕ → Bool) → ℕ → Job → Bool
unfolding status_eq
is_claimable skipped now job =
    status_eq job.status queued && (leb job.run_after now && not (skipped job.id))

unfoldable pub sooner : Job → Option Job → Job
sooner j none = j
sooner j (some k) = if leb j.run_after k.run_after then j else k

-- ORDER BY run_after LIMIT 1
unfoldable pub earliest : List Job → Option Job
unfolding sooner
earliest [] = none
earliest (j ∷ js) = some (sooner j (earliest js))

abbrev pub save_job : Job → List Job → List Job
save_job job jobs = update_rows (λ j. j.id == job.id) (λ _. job) jobs

unfoldable pub claimed : String → (lease_seconds now : ℕ) → Job → Job
claimed worker_id lease_seconds now job = record job {
  status = running;
  attempts = job.attempts + 1;
  locked_at = some now;
  locked_by = some worker_id;
  lease_expires_at = some (now + lease_seconds);
}

unfoldable pub take_job : Option Job → String → (lease_seconds now : ℕ) → Action (Option Job)
unfolding claimed
take_job none worker_id lease_seconds now = return none
take_job (some job) worker_id lease_seconds now = do
  change (λ db. record db { jobs = save_job (claimed worker_id lease_seconds now job) db.jobs })
  return (some (claimed worker_id lease_seconds now job))

unfoldable pub claim_next : (ℕ → Bool) → String → (lease_seconds : ℕ) → Action (Option Job)
unfolding take_job earliest is_claimable
claim_next skipped worker_id lease_seconds = do
  now ← utc_now
  job ← query (λ db. earliest (where_rows (is_claimable skipped now) db.jobs))
  take_job job worker_id lease_seconds now

unfoldable pub heartbeat : (job_id lease_seconds : ℕ) → Action (Unit {0})
heartbeat job_id lease_seconds = change λ db. record db {
  jobs =
      update_rows (λ j. j.id == job_id)
        (λ j. record j { lease_expires_at = some (db.now + lease_seconds) }) db.jobs;
}

unfoldable pub mark_succeeded : ℕ → Action (Unit {0})
mark_succeeded job_id = change λ db. record db {
  jobs =
      update_rows (λ j. j.id == job_id)
        (λ j. record j { status = succeeded; locked_by = none; lease_expires_at = none }) db.jobs;
}

unfoldable pub after_failure : Job → String → (retry_delay_seconds now : ℕ) → Job
after_failure job error retry_delay_seconds now =
    let retry = ltb job.attempts job.max_attempts in
    record job {
      status = if retry then queued else failed;
      run_after = if retry then now + retry_delay_seconds else job.run_after;
      last_error = some (take_text 2000 error);
      locked_by = none;
      lease_expires_at = none;
    }

unfoldable pub mark_failed : ℕ → String → (retry_delay_seconds : ℕ) → Action JobStatus
unfolding after_failure
mark_failed job_id error retry_delay_seconds = do
  found ← query (λ db. find_row (λ j. j.id == job_id) db.jobs)
  job ← require found no_result_found
  now ← utc_now
  let left = after_failure job error retry_delay_seconds now
  change (λ db. record db { jobs = save_job left db.jobs })
  return left.status

-- A lease that is NULL compares as unknown, and the row is not selected.
unfoldable pub lease_over : ℕ → Option ℕ → Bool
lease_over now none = false
lease_over now (some expires) = ltb expires now

unfoldable pub is_expired : ℕ → Job → Bool
unfolding status_eq lease_over
is_expired now job = status_eq job.status running && lease_over now job.lease_expires_at

unfoldable pub reclaim_expired : Action ℕ
unfolding is_expired
reclaim_expired = do
  now ← utc_now
  count ← query (λ db. length (where_rows (is_expired now) db.jobs))
  change (λ db. record db {
    jobs =
        update_rows (is_expired now)
          (λ j. record j { status = queued; locked_by = none; lease_expires_at = none }) db.jobs;
  })
  return count
