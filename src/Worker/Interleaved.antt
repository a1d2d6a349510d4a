-- ===== src/Worker/Interleaved.antt =====
-- The API (api/v1/*.py) and the worker (worker/main.py) on one database: calls of the services and
-- rounds of a worker, one after another in any order.
use pullsmith.Common.{◌≡◌, ℕ, ◌≤◌, ◌⊎◌, String, Bool, []}
use pullsmith.Db.{Db}
use pullsmith.Github.{Request}
use pullsmith.Services
use pullsmith.Services.Active.{Steps-active_count}
use pullsmith.Services.Active.Rows.{active_count}
use pullsmith.Services.Timeline.{Steps-IsTimeline}
use pullsmith.Events.Timeline.{IsTimeline}
use pullsmith.Orchestrator.{Runtime}
use pullsmith.Orchestrator.Via.{Star, here, next, joined}
use pullsmith.Worker.{Shift, worker_round}
use pullsmith.Worker.Served.{Stored, as_steps}
use pullsmith.Worker.Refines.{worker_round-Stored}

module _ (sha256 : String → String) {World : Type 0} (runtime : Runtime World)
    (client_for_user : (user_id : ℕ) → Db → String ⊎ Request World) (base64 : String → String) where
  -- A call that the API makes, or a round of some worker in some world.
  pub data SystemStep : Db → Db → Type 0 where
    called : {a b : Db} → Services.Step sha256 a b → SystemStep a b
    worked :
        (shift : Shift World) (skipped : ℕ → Bool) (worker_id : String) (lease_seconds : ℕ)
        → SystemStep shift.stored
            (worker_round sha256 runtime client_for_user base64 skipped worker_id lease_seconds
              shift).1.stored

  turn-Stored : {a b : Db} → SystemStep a b → Stored sha256 a b
  turn-Stored (called step) = next here step
  turn-Stored (worked shift skipped worker_id lease_seconds) =
      worker_round-Stored sha256 runtime client_for_user base64 skipped worker_id lease_seconds
        shift

  turns-Stored : {a b : Db} → Star SystemStep a b → Stored sha256 a b
  turns-Stored here = here
  turns-Stored (next turns turn) = joined (turns-Stored turns) (turn-Stored turn)

  -- Take a database without runs whose timeline is in order, and after it any calls of the API and
  -- any rounds of the worker, one after another. Then every run's events are numbered without a gap
  -- and the last of them shows the run's state, and an issue has at most one run that is not
  -- completed, failed or cancelled.
  pub turns-invariants :
      {a b : Db}
      → Star SystemStep a b
      → a.runs ≡ []
      → IsTimeline a
      → IsTimeline b × ((issue_id : ℕ) → active_count issue_id b.runs ≤ 1)
  turns-invariants turns no_runs h =
      let steps = as_steps (turns-Stored turns) in
      (Steps-IsTimeline sha256 steps h, Steps-active_count sha256 steps no_runs)
