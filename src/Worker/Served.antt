-- ===== src/Worker/Served.antt =====
-- worker/main.py: what a session of it leaves stored is where steps of the services lead.
use pullsmith.Common.{◌≡◌, refl, sym, subst, ◌⊎◌, inl, inr, ℕ, String, Bool}
use pullsmith.Db.{Db}
use pullsmith.Phases.{Raised, then_do, ◌>>=◌}
use pullsmith.Jobs.{claim_next, mark_succeeded, mark_failed, reclaim_expired}
use pullsmith.Services
use pullsmith.Services.{Steps, job_claimed, job_succeeded, job_failed, jobs_reclaimed}
use pullsmith.Orchestrator.{Ride, Step, service, fresh_scratch}
use pullsmith.Orchestrator.Via.{Star, here, next, joined, Committed, Via, needed-Via, via}
use pullsmith.Orchestrator.Serves.{transition-Served}
use pullsmith.Worker.{Shift, Work, session, load_run, record_failure, record_failed_run}

abbrev pub Stored : (sha256 : String → String) → Db → Db → Type 0
Stored sha256 a b = Star (Services.Step sha256) a b

pub as_steps : {sha256 : String → String} {a b : Db} → Stored sha256 a b → Steps sha256 a b
as_steps here = Services.here
as_steps (next steps step) = Services.next (as_steps steps) step

committed-Stored :
    (sha256 : String → String) (db left : Db)
    → (left ≡ db) ⊎ Stored sha256 db left
    → Stored sha256 db left
committed-Stored sha256 db left (inl same) = subst (Stored sha256 db) (sym same) here
committed-Stored sha256 db left (inr steps) = steps

module _ (sha256 : String → String) {World : Type 0} where
  abbrev pub Commits : {A : Type 0} → Step World A → Type 0
  Commits m = (ride : Ride World) → Committed (Services.Step sha256) ride (m ride).1

  -- What is stored afterwards is where service calls lead.
  pub record IsServed {A : Type 0} (m : Work World A) : Type 0 where
    pub steps : (shift : Shift World) → Stored sha256 shift.stored (m shift).1.stored

  pub session-IsServed : {A : Type 0} (body : Step World A) → Commits body → IsServed (session body)
  unfolding session
  session-IsServed body h = record {
    steps = λ shift.
        let ride : Ride World = record {
          db = shift.stored;
          committed = shift.stored;
          scratch = fresh_scratch 0;
          world = shift.world;
        } in
        committed-Stored sha256 shift.stored (body ride).1.committed (h ride);
  }

  then_do-Stored :
      {A B : Type 0} (db : Db) (r : (Raised ⊎ A) × Shift World) (f : A → Work World B)
      → Stored sha256 db r.1.stored
      → ((a : A) → IsServed (f a))
      → Stored sha256 db (then_do r f).1.stored
  then_do-Stored db (inl why, left) f h more = h
  then_do-Stored db (inr a, left) f h more = joined h ((more a).steps left)

  pub bind-IsServed :
      {A B : Type 0} {m : Work World A} {f : A → Work World B}
      → IsServed m
      → ((a : A) → IsServed (f a))
      → IsServed (m >>= f)
  bind-IsServed {m} {f} hm hf = record {
    steps = λ shift. then_do-Stored shift.stored (m shift) f (hm.steps shift) hf;
  }

  pub pure-IsServed : {A : Type 0} (r : Raised ⊎ A) → IsServed (λ shift. (r, shift))
  pure-IsServed r = record { steps = λ shift. here }

  pub load_run-Served : (run_id : ℕ) → Via (Services.Step sha256) (load_run {World = World} run_id)
  load_run-Served run_id = record {
    writes = λ ride. (needed-Via _ _).writes ride;
    commits = λ ride. (needed-Via _ _).commits ride;
  }

  failure_recorded :
      (run_id : ℕ) (why : Raised)
      → Via (Services.Step sha256) (record_failed_run {World = World} run_id why)
  unfolding record_failed_run
  failure_recorded run_id why = search (via, load_run-Served, transition-Served) depth 30

  pub record_failure-IsServed : (run_id : ℕ) (why : Raised) → IsServed (record_failure run_id why)
  unfolding record_failure
  record_failure-IsServed run_id why =
      session-IsServed (record_failed_run run_id why)
        (λ ride. (failure_recorded run_id why).commits ride)

  pub mark_succeeded-Served :
      (job_id : ℕ) → Via (Services.Step sha256) (service {World = World} (mark_succeeded job_id))
  mark_succeeded-Served job_id = record {
    writes = λ ride. next here (job_succeeded job_id);
    commits = λ ride. inl refl;
  }

  pub mark_failed-Served :
      (job_id : ℕ) (error : String) (delay : ℕ)
      → Via (Services.Step sha256) (service {World = World} (mark_failed job_id error delay))
  mark_failed-Served job_id error delay = record {
    writes = λ ride. next here (job_failed job_id error delay);
    commits = λ ride. inl refl;
  }

  pub claim_next-Served :
      (skipped : ℕ → Bool) (worker_id : String) (lease : ℕ)
      → Via (Services.Step sha256) (service {World = World} (claim_next skipped worker_id lease))
  claim_next-Served skipped worker_id lease = record {
    writes = λ ride. next here (job_claimed skipped worker_id lease);
    commits = λ ride. inl refl;
  }

  pub reclaim_expired-Served : Via (Services.Step sha256) (service {World = World} reclaim_expired)
  reclaim_expired-Served = record {
    writes = λ ride. next here jobs_reclaimed;
    commits = λ ride. inl refl;
  }
