-- ===== src/Events/Frame.antt =====
-- What writing events and changing states leaves alone: every table but the runs and the events.
use pullsmith.Common.{◌≡◌, refl, ℕ, String, Option, inl, inr, Bool-cases, Option-cases}
use pullsmith.States.{RunState, FailureCategory, can_transition}
use pullsmith.Db.{Db, EventKind, Payload}
use pullsmith.Events.{find_run, append_event, transition}

-- The other tables of two databases are the same.
pub record SameTables (a b : Db) : Type 0 where
  pub jobs : b.jobs ≡ a.jobs
  pub plans : b.plans ≡ a.plans
  pub diffs : b.diffs ≡ a.diffs
  pub approvals : b.approvals ≡ a.approvals
  pub pull_requests : b.pull_requests ≡ a.pull_requests
  pub now : b.now ≡ a.now

abbrev same : (a : Db) → SameTables a a
same a = record {
  jobs = refl;
  plans = refl;
  diffs = refl;
  approvals = refl;
  pull_requests = refl;
  now = refl;
}

pub append_event-SameTables :
    (run_id : ℕ) (kind : EventKind) (message level : String) (state : Option RunState)
    (payload : Payload) (db : Db)
    → SameTables db (append_event run_id kind message level state payload db).1
unfolding append_event
append_event-SameTables run_id kind message level state payload db =
    elim (Option-cases (find_run run_id db.runs)) [
      | inl e ↦ rw e (same db)
      | inr (run, e) ↦ rw e (record {
        jobs = refl;
        plans = refl;
        diffs = refl;
        approvals = refl;
        pull_requests = refl;
        now = refl;
      })
    ]

pub transition-SameTables :
    (run_id : ℕ) (target : RunState) (message : Option String) (category : Option FailureCategory)
    (detail : Option String) (payload : Payload) (db : Db)
    → SameTables db (transition run_id target message category detail payload db).1
unfolding transition
transition-SameTables run_id target message category detail payload db =
    elim (Option-cases (find_run run_id db.runs)) [
      | inl e ↦ rw e (same db)
      | inr (run, e) ↦ rw e (elim (Bool-cases (can_transition run.state target)) [
        | inl t ↦ rw t (record {
          jobs = refl;
          plans = refl;
          diffs = refl;
          approvals = refl;
          pull_requests = refl;
          now = refl;
        })
        | inr f ↦ rw f (same db)
      ])
    ]
