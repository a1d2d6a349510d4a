-- ===== src/Tests/Queue.antt =====
-- The theorems on the job queue and the states, applied to the sample queue.
use mathlib.Core.List.{Memᴰ}
use pullsmith.Common.{
  ◌≡◌, ◌≢◌, ◌≤◌, ◌+◌, ◌==◌, update_rows, ◌⊎◌, refl, ℕ, Bool, false, none, some, List, [], ◌∷◌,
  arith, All,
}
use pullsmith.States.{
  RunState, created, cloning_repository, analyzing_issue, exploring_repository, indexing_repository,
  retrieving_context, planning, implementing, testing, verifying, waiting_for_approval, pr_created,
  completed, can_transition, is_terminal,
}
use pullsmith.States.Gates.{History, start, step, History-completed, ◌⟶*◌, ⟶*-completed}
use pullsmith.Db.{Db, Job, running}
use pullsmith.Db.Session.{ok}
use pullsmith.Jobs.{
  is_claimable, earliest, sooner, claimed, take_job, claim_next, status_eq, heartbeat,
}
use pullsmith.Jobs.Claim.{IsWaiting, claim_next_cases}
use pullsmith.Jobs.Lease.{Elsewheres, nothing, also, beat, claim_next-exclusive}
use pullsmith.Jobs.Crashes.{IsLone, crash_rounds, crash_rounds-attempts}
use pullsmith.Tests.{queue_db, job}

abbrev free : ℕ → Bool
free _ = false

claim_next_cases_example :
    let r = claim_next free "w1" 300 queue_db in
    All (λ k. ¬ (IsWaiting free 100 k)) queue_db.jobs × (r ≡ (ok none, queue_db))
    ⊎ ((j : Job) × Memᴰ j queue_db.jobs
        × IsWaiting free 100 j
        × All (λ k. IsWaiting free 100 k → j.run_after ≤ k.run_after) queue_db.jobs
        × (let j' : Job = record j {
          status = running;
          attempts = j.attempts + 1;
          locked_at = some 100;
          locked_by = some "w1";
          lease_expires_at = some (100 + 300);
        } in
            r ≡ (
              ok (some j'),
              record queue_db { jobs = update_rows (λ k. k.id == j.id) (λ _. j') queue_db.jobs },
            )))
claim_next_cases_example = claim_next_cases free "w1" 300 queue_db

-- The job that was due first is taken first.
abbrev first_job : Job
first_job = claimed "w1" 300 100 (job 11 80)

abbrev second_job : Job
second_job = claimed "w2" 300 100 (job 10 90)

abbrev after_first : Db
after_first = (claim_next free "w1" 300 queue_db).1

abbrev after_beat : Db
after_beat = (heartbeat 11 300 after_first).1

abbrev after_second : Db
after_second = (claim_next free "w2" 300 after_beat).1

claim : Unit {0}
unfolding claim_next take_job earliest sooner is_claimable status_eq claimed heartbeat
claim = tt

first_claim : claim_next free "w1" 300 queue_db ≡ (ok (some first_job), after_first)
unfolding claim
first_claim = refl

second_claim : claim_next free "w2" 300 after_beat ≡ (ok (some second_job), after_second)
unfolding claim
second_claim = refl

between : Elsewheres 11 after_first after_beat
between = also (beat 11 300) nothing

claim_next-exclusive_example : second_job.id ≢ first_job.id
unfolding claimed
claim_next-exclusive_example =
    claim_next-exclusive free free "w1" "w2" 300 300 queue_db (omega arith, (omega arith, tt))
      first_claim between second_claim

abbrev lone_db : Db
lone_db = record queue_db { jobs = record first_job { attempts = 3 } ∷ [] }

lone : IsLone 300 (record first_job { attempts = 3 }) lone_db
unfolding claimed
lone = record {
  alone = refl;
  is_running = refl;
  expires = 400;
  leased = refl;
  soon = omega arith;
  due = omega arith;
}

-- After five crashes the job is on its eighth attempt, of three.
crash_rounds-attempts_example :
    (j : Job) × ((crash_rounds "w2" 300 5 lone_db).jobs ≡ j ∷ [])
    × (j.status ≡ running)
    × (j.attempts ≡ 8)
    × (j.max_attempts ≡ 3)
unfolding claimed
crash_rounds-attempts_example =
    crash_rounds-attempts "w2" 300 5 (record first_job { attempts = 3 }) lone_db lone

through : History (
    completed ∷ pr_created ∷ waiting_for_approval ∷ verifying ∷ testing ∷ implementing ∷ planning
    ∷ retrieving_context ∷ indexing_repository ∷ exploring_repository ∷ analyzing_issue
    ∷ cloning_repository ∷ created ∷ [])
unfolding can_transition
through = step refl (
    step refl (
      step refl (
        step refl (
          step refl (
            step refl
              (step refl (step refl (step refl (step refl (step refl (step refl start)))))))))))

History-completed_example :
    (rest : List RunState) × ((pr_created ∷ waiting_for_approval ∷ verifying ∷ testing
        ∷ implementing ∷ planning ∷ retrieving_context ∷ indexing_repository ∷ exploring_repository
        ∷ analyzing_issue ∷ cloning_repository ∷ created ∷ [])
      ≡ pr_created ∷ waiting_for_approval ∷ verifying ∷ testing ∷ rest)
History-completed_example = History-completed through

⟶*-completed_example : planning ⟶* completed
unfolding is_terminal
⟶*-completed_example = ⟶*-completed planning refl
