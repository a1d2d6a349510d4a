-- ===== src/Jobs/Crashes.antt =====
-- A job whose worker dies is reclaimed and claimed again: the attempts are counted and not limited.
use pullsmith.Common.{
  ◌≡◌, refl, ℕ, zero, suc, ◌≤◌, ◌+◌, String, Bool, true, false, some, [], ◌∷◌, arith, leb, ==_refl,
  lt→ltb,
}
use pullsmith.Db.{Db, Job, running}
use pullsmith.Jobs.{is_expired, claim_next, reclaim_expired}

abbrev no_locks : ℕ → Bool
no_locks _ = false

-- The worker that holds the job dies; when the lease is over another one polls the queue.
crash_round : String → ℕ → Db → Db
unfolding reclaim_expired claim_next
crash_round worker_id lease db =
    let later : Db = record db { now = db.now + lease + 1 } in
    (claim_next no_locks worker_id lease (reclaim_expired later).1).1

pub crash_rounds : String → ℕ → ℕ → Db → Db
crash_rounds worker_id lease zero db = db
crash_rounds worker_id lease (suc n) db =
    crash_rounds worker_id lease n (crash_round worker_id lease db)

-- The one job of the queue is running under a lease of at most `lease`.
pub record IsLone (lease : ℕ) (j : Job) (db : Db) : Type 0 where
  pub alone : db.jobs ≡ j ∷ []
  pub is_running : j.status ≡ running
  pub expires : ℕ
  pub leased : j.lease_expires_at ≡ some expires
  pub soon : expires ≤ db.now + lease
  pub due : j.run_after ≤ db.now

expired :
    (lease : ℕ) (j : Job) (db : Db) → IsLone lease j db → is_expired (db.now + lease + 1) j ≡ true
unfolding is_expired
expired lease j db h =
    ground (arith, h.is_running, h.leased, h.soon, lt→ltb h.expires (db.now + lease + 1))

abbrev retaken : String → ℕ → ℕ → Job → Job
retaken worker_id lease later j = record j {
  status = running;
  attempts = j.attempts + 1;
  locked_at = some later;
  locked_by = some worker_id;
  lease_expires_at = some (later + lease);
}

crash_round-eq :
    (worker_id : String) (lease : ℕ) (j : Job) (db : Db)
    → IsLone lease j db
    → let later = db.now + lease + 1 in
      crash_round worker_id lease db
      ≡ record db { now = later; jobs = retaken worker_id lease later j ∷ [] }
unfolding crash_round
crash_round-eq worker_id lease j db h =
    let due : leb j.run_after (db.now + lease + 1) ≡ true = ground (arith, h.due) in
    rw (h.alone, expired lease j db h) (rw due (rw (==_refl j.id)))

one_round :
    (worker_id : String) (lease : ℕ) (j : Job) (db : Db)
    → IsLone lease j db
    → IsLone lease (retaken worker_id lease (db.now + lease + 1) j) (crash_round worker_id lease db)
one_round worker_id lease j db h = rw (crash_round-eq worker_id lease j db h) (record {
  alone = refl;
  is_running = refl;
  expires = db.now + lease + 1 + lease;
  leased = refl;
  soon = omega arith;
  due = omega (arith, h.due);
})

-- The one job of the queue, running under a lease of at most `lease` and due by then, is handed out
-- again however often it was tried: after `n` more crashes of its workers it is running with `n`
-- more attempts, whatever its `max_attempts`.
pub crash_rounds-attempts :
    (worker_id : String) (lease n : ℕ) (j : Job) (db : Db)
    → IsLone lease j db
    → (j' : Job) × ((crash_rounds worker_id lease n db).jobs ≡ j' ∷ [])
      × (j'.status ≡ running)
      × (j'.attempts ≡ j.attempts + n)
      × (j'.max_attempts ≡ j.max_attempts)
unfolding crash_rounds
crash_rounds-attempts worker_id lease zero j db h = (j, h.alone, h.is_running, omega arith, refl)
crash_rounds-attempts worker_id lease (suc n) j db h =
    let (j', alone, is_running, attempts, limit) =
      crash_rounds-attempts worker_id lease n _ _ (one_round worker_id lease j db h) in
    (j', alone, is_running, omega (arith, attempts), limit)
