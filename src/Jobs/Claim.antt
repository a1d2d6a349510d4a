-- ===== src/Jobs/Claim.antt =====
-- Which job `claim_next` hands out.
use mathlib.Core.List.{Memᴰ}
use native.Mathlib.Nat.{le_trans}
use pullsmith.Common.{
  leb→le, ◌≡◌, ◌+◌, ◌==◌, ◌↔◌, update_rows, refl, ◌⊎◌, inl, inr, ℕ, ◌≤◌, String, Bool, true, false,
  Option, none, some, List, [], ◌∷◌, arith, leb, where_rows, All, Bool-cases,
}
use pullsmith.Db.{Db, Job, JobStatus, queued, running, succeeded, failed}
use pullsmith.Db.Session.{Result, ok}
use pullsmith.Jobs.{
  status_eq, is_claimable, sooner, earliest, save_job, claimed, take_job, claim_next,
}

-- `j` is one of the rows, passes the test, and no row that passes is due before it.
pub record IsFirst (p : Job → Bool) (jobs : List Job) (j : Job) : Type 0 where
  pub listed : Memᴰ j jobs
  pub passes : p j ≡ true
  pub first : All (λ k. p k ≡ true → j.run_after ≤ k.run_after) jobs

module _ (p : Job → Bool) where
  abbrev NoneOrFirst : List Job → Option Job → Type 0
  NoneOrFirst jobs none = All (λ k. p k ≡ false) jobs
  NoneOrFirst jobs (some j) = IsFirst p jobs j

  none_before :
      (n : ℕ) (jobs : List Job)
      → All (λ k. p k ≡ false) jobs
      → All (λ k. p k ≡ true → n ≤ k.run_after) jobs
  none_before n [] h = tt
  none_before n (x ∷ xs) h = (λ e. cc, none_before n xs h.1)

  earlier :
      (m n : ℕ) (jobs : List Job)
      → m ≤ n
      → All (λ k. p k ≡ true → n ≤ k.run_after) jobs
      → All (λ k. p k ≡ true → m ≤ k.run_after) jobs
  earlier m n [] le h = tt
  earlier m n (x ∷ xs) le h = (λ e. le_trans le (h.0 e), earlier m n xs le h.1)

  earliest_with :
      (x : Job) (xs : List Job) (o : Option Job)
      → p x ≡ true
      → NoneOrFirst xs o
      → IsFirst p (x ∷ xs) (sooner x o)
  unfolding sooner
  earliest_with x xs none px h = record {
    listed = Memᴰ.head refl;
    passes = px;
    first = (λ e. omega arith, none_before x.run_after xs h);
  }
  earliest_with x xs (some j) px h = elim (Bool-cases (leb x.run_after j.run_after)) [
    | inl e ↦ rw e (record {
      listed = Memᴰ.head refl;
      passes = px;
      first = (λ e. omega arith, earlier x.run_after j.run_after xs (leb→le _ _ e) h.first);
    })
    | inr e ↦ rw e (record {
      listed = Memᴰ.tail h.listed;
      passes = h.passes;
      first = (λ _. ground arith, h.first);
    })
  ]

  earliest_lem : (jobs : List Job) → NoneOrFirst jobs (earliest (where_rows p jobs))
  unfolding earliest
  earliest_lem [] = tt
  earliest_lem (x ∷ xs) = elim (Bool-cases (p x)) [
    | inl e ↦ rw e (earliest_with x xs (earliest (where_rows p xs)) e (earliest_lem xs))
    | inr e ↦ rw e (skip (earliest (where_rows p xs)) e (earliest_lem xs))
  ]
    where
      skip : (o : Option Job) → p x ≡ false → NoneOrFirst xs o → NoneOrFirst (x ∷ xs) o
      skip none e h = (e, h)
      skip (some j) e h = record {
        listed = Memᴰ.tail h.listed;
        passes = h.passes;
        first = (λ t. cc, h.first);
      }

module _ (skipped : ℕ → Bool) (worker_id : String) (lease_seconds : ℕ) (db : Db) where
  abbrev claimable : Job → Bool
  claimable = is_claimable skipped db.now

  abbrev handed_out : Job → Job
  handed_out j = claimed worker_id lease_seconds db.now j

  abbrev Outcome : Result (Option Job) × Db → Type 0
  Outcome r =
      All (λ k. claimable k ≡ false) db.jobs × (r ≡ (ok none, db))
      ⊎ (j : Job) × IsFirst claimable db.jobs j
        × (r ≡ (ok (some (handed_out j)), record db { jobs = save_job (handed_out j) db.jobs }))

  take_job-Outcome :
      (o : Option Job)
      → NoneOrFirst claimable db.jobs o
      → Outcome (take_job o worker_id lease_seconds db.now db)
  unfolding take_job
  take_job-Outcome none h = inl (h, refl)
  take_job-Outcome (some j) h = inr (j, h, refl)

pub claim_next_lem :
    (skipped : ℕ → Bool) (worker_id : String) (lease_seconds : ℕ) (db : Db)
    → let p = is_claimable skipped db.now in
      let r = claim_next skipped worker_id lease_seconds db in
      All (λ k. p k ≡ false) db.jobs × (r ≡ (ok none, db))
      ⊎ ((j : Job) × IsFirst p db.jobs j
          × (let j' = claimed worker_id lease_seconds db.now j in
              r ≡ (ok (some j'), record db { jobs = save_job j' db.jobs })))
unfolding claim_next
claim_next_lem skipped worker_id lease_seconds db =
    let p = is_claimable skipped db.now in
    take_job-Outcome skipped worker_id lease_seconds db (earliest (where_rows p db.jobs))
      (earliest_lem p db.jobs)

-- What a worker looks for: a queued job that is due and that no other transaction locks.
abbrev pub IsWaiting : (ℕ → Bool) → (now : ℕ) → Job → Type 0
IsWaiting skipped now job = (job.status ≡ queued) × (job.run_after ≤ now) × (skipped job.id ≡ false)

status_eq-queued : (s : JobStatus) → status_eq s queued ≡ true → s ≡ queued
unfolding status_eq
status_eq-queued queued h = refl
status_eq-queued running h = cc
status_eq-queued succeeded h = cc
status_eq-queued failed h = cc

is_claimable-IsWaiting :
    (skipped : ℕ → Bool) (now : ℕ) (job : Job)
    → (is_claimable skipped now job ≡ true) ↔ IsWaiting skipped now job
unfolding is_claimable
is_claimable-IsWaiting skipped now job = (
  λ h. elim (Bool-cases (status_eq job.status queued)) [
    | inr other ↦ absurd (cc (rw other at h))
    | inl waits ↦ elim (Bool-cases (leb job.run_after now)) [
      | inr early ↦ absurd (cc (rw (waits, early) at h))
      | inl due ↦ elim (Bool-cases (skipped job.id)) [
        | inl locked ↦ absurd (cc (rw (waits, due, locked) at h))
        | inr free ↦ (status_eq-queued job.status waits, leb→le _ _ due, free)
      ]
    ]
  ],
  λ (waits, due, free).
      let on_time : leb job.run_after now ≡ true = ground (arith, due) in
      rw (waits, on_time, free) refl,
)

module _ (skipped : ℕ → Bool) (now : ℕ) where
  none_waits :
      (jobs : List Job)
      → All (λ k. is_claimable skipped now k ≡ false) jobs
      → All (λ k. ¬ (IsWaiting skipped now k)) jobs
  none_waits [] h = tt
  none_waits (k ∷ ks) h =
      (λ waits. let is = (is_claimable-IsWaiting skipped now k).1 waits in cc, none_waits ks h.1)

  first_waits :
      (n : ℕ) (jobs : List Job)
      → All (λ k. is_claimable skipped now k ≡ true → n ≤ k.run_after) jobs
      → All (λ k. IsWaiting skipped now k → n ≤ k.run_after) jobs
  first_waits n [] h = tt
  first_waits n (k ∷ ks) h =
      (λ waits. h.0 ((is_claimable-IsWaiting skipped now k).1 waits), first_waits n ks h.1)

-- A claim that finds no queued job that is due and unlocked changes nothing and returns nothing.
-- Otherwise it returns one of these, with the smallest `run_after` of them, and it is written back
-- as it is returned: running, with one attempt more, locked now by this worker, and with a lease
-- that ends `lease_seconds` from now; nothing else is written.
pub claim_next_cases :
    (skipped : ℕ → Bool) (worker_id : String) (lease_seconds : ℕ) (db : Db)
    → let r = claim_next skipped worker_id lease_seconds db in
      All (λ k. ¬ (IsWaiting skipped db.now k)) db.jobs × (r ≡ (ok none, db))
      ⊎ ((j : Job) × Memᴰ j db.jobs
          × IsWaiting skipped db.now j
          × All (λ k. IsWaiting skipped db.now k → j.run_after ≤ k.run_after) db.jobs
          × (let j' : Job = record j {
            status = running;
            attempts = j.attempts + 1;
            locked_at = some db.now;
            locked_by = some worker_id;
            lease_expires_at = some (db.now + lease_seconds);
          } in
              r ≡ (
                ok (some j'),
                record db { jobs = update_rows (λ k. k.id == j.id) (λ _. j') db.jobs },
              )))
unfolding claimed
claim_next_cases skipped worker_id lease_seconds db =
    elim (claim_next_lem skipped worker_id lease_seconds db) [
      | inl (none_left, same) ↦ inl (none_waits skipped db.now db.jobs none_left, same)
      | inr (j, is, taken) ↦ inr (
        j,
        is.listed,
        (is_claimable-IsWaiting skipped db.now j).0 is.passes,
        first_waits skipped db.now j.run_after db.jobs is.first,
        taken,
      )
    ]
