-- ===== src/Jobs/Lease.antt =====
-- What the lease of a claimed job protects it from, and what nothing limits.
use pullsmith.Common.{
  ◌≡◌, refl, inl, inr, ◌≢◌, ℕ, ◌<◌, ◌+◌, String, Bool, true, false, Option, some, List, [], ◌∷◌,
  arith, ◌==◌, find_row, find_row-passes, update_rows, sym, ap, subst, ◌∙◌, ==_iff, All, All-mem,
  All-append, All-update_rows, Bool-cases, Option-cases,
}
use pullsmith.Db.{Db, Job, running, JobKind, Payload}
use pullsmith.Db.Session.{ok}
use pullsmith.Jobs.{
  is_claimable, save_job, claimed, claim_next, enqueue, heartbeat, mark_succeeded, mark_failed,
  after_failure, lease_over, is_expired, reclaim_expired,
}
use pullsmith.Jobs.Claim.{IsFirst, claim_next_lem}

-- The job is running, and its key has been handed out.
pub record IsHeld (id : ℕ) (db : Db) : Type 0 where
  pub running : All (λ k. k.id ≡ id → k.status ≡ running) db.jobs
  pub known : id < db.unused_id

-- What other clients of the queue do while a worker holds job `id`: anything, but they finish
-- other jobs only, and the reclaim comes before the job's lease is over.
pub data Elsewhere (id : ℕ) : Db → Db → Type 0 where
  enqueued :
      {db : Db} (kind : JobKind) (run_id : Option ℕ) (payload : Payload) (delay attempts : ℕ)
      → Elsewhere id db (enqueue kind run_id payload delay attempts db).1
  claimed_one :
      {db : Db} (skipped : ℕ → Bool) (worker_id : String) (lease : ℕ)
      → Elsewhere id db (claim_next skipped worker_id lease db).1
  beat : {db : Db} (job_id lease : ℕ) → Elsewhere id db (heartbeat job_id lease db).1
  succeeded_one :
      {db : Db} (job_id : ℕ) → job_id ≢ id → Elsewhere id db (mark_succeeded job_id db).1
  failed_one :
      {db : Db} (job_id : ℕ) (error : String) (delay : ℕ)
      → job_id ≢ id
      → Elsewhere id db (mark_failed job_id error delay db).1
  reclaimed :
      {db : Db}
      → All (λ k. k.id ≡ id → lease_over db.now k.lease_expires_at ≡ false) db.jobs
      → Elsewhere id db (reclaim_expired db).1
  waited : {db : Db} (seconds : ℕ) → Elsewhere id db (record db { now = db.now + seconds })

pub data Elsewheres (id : ℕ) : Db → Db → Type 0 where
  nothing : {db : Db} → Elsewheres id db db
  also : {a b c : Db} → Elsewhere id a b → Elsewheres id b c → Elsewheres id a c

lease_bars :
    (now : ℕ) (k : Job) → lease_over now k.lease_expires_at ≡ false → is_expired now k ≡ true → ⊥
unfolding is_expired
lease_bars now k valid over = ground arith

module _ (id : ℕ) where
  abbrev HeldJobs : List Job → Type 0
  HeldJobs jobs = All (λ k. k.id ≡ id → k.status ≡ running) jobs

  -- A claim hands out a queued job, so not the held one.
  first_is_other :
      (skipped : ℕ → Bool) (now : ℕ) (jobs : List Job) (j : Job)
      → HeldJobs jobs
      → IsFirst (is_claimable skipped now) jobs j
      → j.id ≢ id
  unfolding is_claimable
  first_is_other skipped now jobs j held first same =
      let r = All-mem (λ k. k.id ≡ id → k.status ≡ running) jobs held first.listed same in
      ground (arith, first.passes)

  save_job-HeldJobs :
      (job : Job) (jobs : List Job) → job.id ≢ id → HeldJobs jobs → HeldJobs (save_job job jobs)
  save_job-HeldJobs job jobs other held =
      All-update_rows (λ k. k.id ≡ id → k.status ≡ running) (λ j. j.id == job.id) (λ _. job) jobs
        (λ k h e same. absurd (other same)) held

  update_other :
      (job_id : ℕ) (f : Job → Job) (jobs : List Job)
      → job_id ≢ id
      → ((k : Job) → (f k).id ≡ k.id)
      → HeldJobs jobs
      → HeldJobs (update_rows (λ j. j.id == job_id) f jobs)
  update_other job_id f jobs other keeps held =
      All-update_rows (λ k. k.id ≡ id → k.status ≡ running) (λ j. j.id == job_id) f jobs
        (λ k h e same. absurd (other (sym ((==_iff _ _).0 e) ∙ sym (keeps k) ∙ same))) held

  reclaimed-HeldJobs :
      (now : ℕ) (jobs : List Job) (f : Job → Job)
      → HeldJobs jobs
      → All (λ k. k.id ≡ id → lease_over now k.lease_expires_at ≡ false) jobs
      → ((k : Job) → (f k).id ≡ k.id)
      → HeldJobs (update_rows (is_expired now) f jobs)
  reclaimed-HeldJobs now [] f held valid keeps = tt
  reclaimed-HeldJobs now (k ∷ ks) f held valid keeps = (
    elim (Bool-cases (is_expired now k)) [
      | inl over ↦ rw over (λ same. absurd (lease_bars now k (valid.0 (sym (keeps k) ∙ same)) over))
      | inr not_over ↦ rw not_over held.0
    ],
    reclaimed-HeldJobs now ks f held.1 valid.1 keeps,
  )

  Elsewhere-IsHeld : {a b : Db} → Elsewhere id a b → IsHeld id a → IsHeld id b
  unfolding enqueue claimed heartbeat mark_succeeded mark_failed reclaim_expired
  Elsewhere-IsHeld (enqueued {db} kind run_id payload delay attempts) h = record {
    running =
        All-append (λ k. k.id ≡ id → k.status ≡ running) db.jobs _ h.running
          ((λ same. absurd (fresh same)), tt);
    known = omega (arith, h.known);
  }
    where
      fresh : db.unused_id ≡ id → ⊥
      fresh same = omega (arith, h.known)
  Elsewhere-IsHeld (claimed_one {db} skipped worker_id lease) h =
      elim (claim_next_lem skipped worker_id lease db) [
        | inl (_, e) ↦ rw e h
        | inr (j, first, e) ↦ rw e (record {
          running =
              save_job-HeldJobs (claimed worker_id lease db.now j) db.jobs
                (first_is_other skipped db.now db.jobs j h.running first) h.running;
          known = h.known;
        })
      ]
  Elsewhere-IsHeld (beat {db} job_id lease) h = record {
    running =
        All-update_rows (λ k. k.id ≡ id → k.status ≡ running) (λ j. j.id == job_id) _ db.jobs
          (λ k h _ same. h same) h.running;
    known = h.known;
  }
  Elsewhere-IsHeld (succeeded_one {db} job_id other) h = record {
    running = update_other job_id _ db.jobs other (λ k. refl) h.running;
    known = h.known;
  }
  Elsewhere-IsHeld (failed_one {db} job_id error delay other) h =
      elim (Option-cases (find_row (λ j. j.id == job_id) db.jobs)) [
        | inl e ↦ rw e h
        | inr (j, e) ↦
            let named : j.id ≡ job_id =
              (==_iff _ _).0 (find_row-passes (λ j. j.id == job_id) db.jobs e) in
            rw e (record {
              running =
                  save_job-HeldJobs (after_failure j error delay db.now) db.jobs
                    (λ same. other (sym named ∙ same)) h.running;
              known = h.known;
            })
      ]
  Elsewhere-IsHeld (reclaimed {db} in_lease) h = record {
    running = reclaimed-HeldJobs db.now db.jobs _ h.running in_lease (λ k. refl);
    known = h.known;
  }
  Elsewhere-IsHeld (waited seconds) h = record { running = h.running; known = h.known }

  Elsewheres-IsHeld : {a b : Db} → Elsewheres id a b → IsHeld id a → IsHeld id b
  Elsewheres-IsHeld nothing h = h
  Elsewheres-IsHeld (also one more) h = Elsewheres-IsHeld more (Elsewhere-IsHeld one h)

save_job-running :
    (job : Job) (jobs : List Job)
    → job.status ≡ running
    → All (λ k. k.id ≡ job.id → k.status ≡ running) (save_job job jobs)
save_job-running job [] r = tt
save_job-running job (k ∷ ks) r = (λ same. ground arith, save_job-running job ks r)

-- A claimed job is held.
claimed-IsHeld :
    (skipped : ℕ → Bool) (worker_id : String) (lease_seconds : ℕ) (db : Db) {j : Job} {after : Db}
    → All (λ k. k.id < db.unused_id) db.jobs
    → claim_next skipped worker_id lease_seconds db ≡ (ok (some j), after)
    → IsHeld j.id after
unfolding claimed
claimed-IsHeld skipped worker_id lease_seconds db {j} {after} keyed e =
    elim (claim_next_lem skipped worker_id lease_seconds db) [
      | inl (_, none_left) ↦ cc
      | inr (i, first, taken) ↦
          let q : claimed worker_id lease_seconds db.now i ≡ j = cc in
          let m : record db { jobs = save_job (claimed worker_id lease_seconds db.now i) db.jobs }
              ≡ after =
            cc in
          subst (λ x. IsHeld x.id after) q
            (subst (IsHeld i.id) m (record {
              running = save_job-running (claimed worker_id lease_seconds db.now i) db.jobs refl;
              known = All-mem (λ k. k.id < db.unused_id) db.jobs keyed first.listed;
            }))
    ]

-- While a job's lease runs and its worker has not finished it, no other claim gets it: in a queue
-- whose keys have been handed out, and whatever the other clients do after the claim, in any order
-- (they finish other jobs only, and a reclaim finds the lease not over), a later claim returns
-- another job.
pub claim_next-exclusive :
    (skipped skipped' : ℕ → Bool) (worker_id worker_id' : String) (lease lease' : ℕ) (a : Db)
    {b c d : Db} {j j' : Job}
    → All (λ k. k.id < a.unused_id) a.jobs
    → claim_next skipped worker_id lease a ≡ (ok (some j), b)
    → Elsewheres j.id b c
    → claim_next skipped' worker_id' lease' c ≡ (ok (some j'), d)
    → j'.id ≢ j.id
unfolding claimed
claim_next-exclusive s s' w w' lease lease' a {c = c} {j = j} {j' = j'} keyed first others second =
    let held = Elsewheres-IsHeld j.id others (claimed-IsHeld s w lease _ keyed first) in
    elim (claim_next_lem s' w' lease' c) [
      | inl (_, none_left) ↦ cc
      | inr (i, is_first, taken) ↦
          let other : i.id ≢ j.id = first_is_other j.id s' c.now c.jobs i held.running is_first in
          let q : claimed w' lease' c.now i ≡ j' = cc in λ same. other (ap (λ x. x.id) q ∙ same)
    ]
