-- ===== src/Worker/Settled.antt =====
-- What becomes of a job that the worker claimed (worker/main.py, `_process_one`).
use pullsmith.Common.{
  ◌≡◌, refl, sym, ap, subst, ◌⊎◌, inl, inr, ℕ, String, Bool, true, false, none, some, List, [], ◌∷◌,
  ◌&&◌, ◌==◌, ==_iff, ltb, find_row, find_row-passes, update_rows, All, Bool-cases, Option-cases,
}
use pullsmith.Db.{Db, Job, running}
use pullsmith.Db.Session.{ok}
use pullsmith.Jobs.{status_eq, claim_next, mark_succeeded, mark_failed, after_failure}
use pullsmith.Phases.{Raised}
use pullsmith.Github.{Request}
use pullsmith.Orchestrator.{Runtime}
use pullsmith.Worker.{Shift, session, error_text, handle_job, finish_job, process_one}

-- The row is another job's, or is not running.
abbrev pub IsLetGo : ℕ → Job → Type 0
IsLetGo job_id j = (j.id == job_id && status_eq j.status running) ≡ false

and_false : (b c : Bool) → c ≡ false → (b && c) ≡ false
and_false true c h = h
and_false false c h = refl

update_rows-IsLetGo :
    (job_id : ℕ) (f : Job → Job) (jobs : List Job)
    → ((j : Job) → status_eq (f j).status running ≡ false)
    → All (IsLetGo job_id) (update_rows (λ j. j.id == job_id) f jobs)
update_rows-IsLetGo job_id f [] stopped = tt
update_rows-IsLetGo job_id f (j ∷ js) stopped = elim (Bool-cases (j.id == job_id)) [
  | inl e ↦
      rw e (and_false ((f j).id == job_id) _ (stopped j), update_rows-IsLetGo job_id f js stopped)
  | inr e ↦
      rw e (ap (λ b. b && status_eq j.status running) e, update_rows-IsLetGo job_id f js stopped)
]

find_row-IsLetGo :
    (job_id : ℕ) (jobs : List Job)
    → find_row (λ j. j.id == job_id) jobs ≡ none
    → All (IsLetGo job_id) jobs
find_row-IsLetGo job_id [] e = tt
find_row-IsLetGo job_id (j ∷ js) e = elim (Bool-cases (j.id == job_id)) [
  | inl f ↦ absurd (cc (rw f at e))
  | inr f ↦ (ap (λ b. b && status_eq j.status running) f, find_row-IsLetGo job_id js (rw f at e))
]

after_failure-stopped :
    (job : Job) (error : String) (delay now : ℕ)
    → status_eq (after_failure job error delay now).status running ≡ false
unfolding after_failure status_eq
after_failure-stopped job error delay now = elim (Bool-cases (ltb job.attempts job.max_attempts)) [
  | inl e ↦ rw e refl
  | inr e ↦ rw e refl
]

module _ {World : Type 0} (sha256 : String → String) (runtime : Runtime World)
    (client_for_user : (user_id : ℕ) → Db → String ⊎ Request World) (base64 : String → String) where
  finish_job-IsLetGo :
      (job_id : ℕ) (r : (Raised ⊎ Unit {0}) × Shift World)
      → All
          (IsLetGo job_id)
          (finish_job sha256 runtime client_for_user base64 job_id r).1.stored.jobs
  unfolding finish_job session mark_succeeded mark_failed status_eq
  finish_job-IsLetGo job_id (inr done, shift) =
      update_rows-IsLetGo job_id _ shift.stored.jobs (λ j. refl)
  finish_job-IsLetGo job_id (inl why, shift) =
      elim (Option-cases (find_row (λ j. j.id == job_id) shift.stored.jobs)) [
        | inl e ↦ rw e (find_row-IsLetGo job_id shift.stored.jobs e)
        | inr (job, e) ↦
            let left = after_failure job (error_text why) 30 shift.stored.now in
            let same : job.id ≡ job_id =
              (==_iff _ _).0 (find_row-passes (λ j. j.id == job_id) shift.stored.jobs e) in
            rw e (
              subst
                (λ n.
                  All (IsLetGo job_id) (update_rows (λ j. j.id == n) (λ _. left) shift.stored.jobs))
                (sym same)
                (update_rows-IsLetGo job_id (λ _. left) shift.stored.jobs
                  (λ j. after_failure-stopped job (error_text why) 30 shift.stored.now)))
      ]

  -- A worker lets go of the job that it claimed, whatever its handler does: when `_process_one` is
  -- over, whether it returns or raises, no row of that job is stored as running.
  pub process_one-IsLetGo :
      (skipped : ℕ → Bool) (worker_id : String) (lease_seconds : ℕ) (shift : Shift World)
      (job : Job)
      → (claim_next skipped worker_id lease_seconds shift.stored).0 ≡ ok (some job)
      → All
          (IsLetGo job.id)
          (process_one sha256 runtime client_for_user base64 skipped worker_id lease_seconds
            shift).1.stored.jobs
  unfolding process_one session
  process_one-IsLetGo skipped worker_id lease_seconds shift job e =
      let after_claim : Shift World = record {
        stored = (claim_next skipped worker_id lease_seconds shift.stored).1;
        world = shift.world;
      } in
      rw e (
        finish_job-IsLetGo job.id
          (handle_job sha256 runtime client_for_user base64 job.kind job.run_id after_claim))
