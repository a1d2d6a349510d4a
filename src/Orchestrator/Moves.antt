-- ===== src/Orchestrator/Moves.antt =====
-- agent/orchestrator.py: which writes change the state of the run.
use pullsmith.Common.{
  ◌≡◌, refl, sym, ◌∙◌, ap, ℕ, inl, inr, String, Option, none, some, List, [], ◌∷◌, Bool-cases,
  Option-cases, ◌+◌, ◌==◌, ==_refl, update_rows,
}
use pullsmith.States.{RunState, FailureCategory, can_transition}
use pullsmith.Db.{Db, AgentRun, RepositorySnapshot, EventKind, Payload}
use pullsmith.Db.Session.{ok}
use pullsmith.Events.{find_run, save_run, append_event, enter_state, transition}
use pullsmith.Events.Timeline.{find_run-save_run, find_run-id}
use pullsmith.Review.{store_plan, store_diff}
use pullsmith.Orchestrator.Snapshots.{take_snapshot, find_snapshot, known_snapshot}
use pullsmith.Orchestrator.Via.{Star, here, next}
use pullsmith.Orchestrator.Quiet.{
  Quiet, event_noted, plan_noted, diff_noted, snapshot_noted, work_noted, snapshot_found,
  snapshot_saved,
}

abbrev pub state_of : Option AgentRun → Option RunState
state_of none = none
state_of (some run) = some run.state

abbrev pub state_in : (run_id : ℕ) → Db → Option RunState
state_in run_id db = state_of (find_run run_id db.runs)

-- A row of the id is replaced by another of the id.
saved :
    (run_id : ℕ) (old run : AgentRun) (runs : List AgentRun)
    → find_run run_id runs ≡ some old
    → run.id ≡ run_id
    → find_run run_id (save_run run runs) ≡ some run
saved run_id old run runs found same =
    rw (find_run-save_run run runs run_id, same, ==_refl run_id, found) refl

-- Fields that are no state.
updated :
    (run_id : ℕ) (f : AgentRun → AgentRun) (runs : List AgentRun)
    → ((r : AgentRun) → ((f r).id ≡ r.id) × ((f r).state ≡ r.state))
    → state_of (find_run run_id (update_rows (λ r. r.id == run_id) f runs))
      ≡ state_of (find_run run_id runs)
updated run_id f [] keeps = refl
updated run_id f (r ∷ rs) keeps = elim (Bool-cases (r.id == run_id)) [
  | inl e ↦ rw (e, (keeps r).0, e) (ap some (keeps r).1)
  | inr e ↦ rw (e, e) (updated run_id f rs keeps)
]

event_state :
    (run_id : ℕ) (kind : EventKind) (message level : String) (payload : Payload) (db : Db)
    → state_in run_id (append_event run_id kind message level none payload db).1
      ≡ state_in run_id db
unfolding append_event
event_state run_id kind message level payload db = elim (Option-cases (find_run run_id db.runs)) [
  | inl e ↦ rw e (ap state_of e)
  | inr (run, e) ↦ rw e (
      ap state_of (
        saved run_id run (record run { last_event_sequence = run.last_event_sequence + 1 }) db.runs
          e (find_run-id run_id run db.runs e)))
]

take_snapshot_state :
    (run_id repository_id : ℕ) (commit_sha : String) (found : Option RepositorySnapshot) (db : Db)
    → state_in run_id (take_snapshot repository_id commit_sha found db).1 ≡ state_in run_id db
unfolding take_snapshot
take_snapshot_state run_id repository_id commit_sha none db = refl
take_snapshot_state run_id repository_id commit_sha (some s) db = refl

snapshot_state :
    (run_id repository_id : ℕ) (commit_sha : String) (db : Db)
    → state_in run_id (find_snapshot repository_id commit_sha db).1 ≡ state_in run_id db
unfolding find_snapshot
snapshot_state run_id repository_id commit_sha db =
    take_snapshot_state run_id repository_id commit_sha (known_snapshot repository_id commit_sha db)
      db

module _ (sha256 : String → String) (run_id : ℕ) where
  state_in-Quiet : {a b : Db} → Quiet sha256 run_id a b → state_in run_id b ≡ state_in run_id a
  unfolding store_plan store_diff
  state_in-Quiet {a} (event_noted kind message level payload) =
      event_state run_id kind message level payload a
  state_in-Quiet (plan_noted plan) = refl
  state_in-Quiet (diff_noted changes risk verification) = refl
  state_in-Quiet {a} (snapshot_noted snapshot_id) =
      updated run_id (λ r. record r { snapshot_id = some snapshot_id }) a.runs (λ r. (refl, refl))
  state_in-Quiet {a} (work_noted iteration tool_call_count) =
      updated run_id (λ r. record r { iteration = iteration; tool_call_count = tool_call_count })
        a.runs (λ r. (refl, refl))
  state_in-Quiet {a} (snapshot_found repository_id commit_sha) =
      snapshot_state run_id repository_id commit_sha a
  state_in-Quiet (snapshot_saved snapshot) = refl

  -- Events, plans, diffs and snapshots leave the state of the run.
  pub state_in-Star :
      {a b : Db} → Star (Quiet sha256 run_id) a b → state_in run_id b ≡ state_in run_id a
  state_in-Star here = refl
  state_in-Star (next steps step) = state_in-Quiet step ∙ state_in-Star steps

-- A move that returns leaves the run in its target.
pub transition-state :
    (run_id : ℕ) (target : RunState) (message : Option String) (category : Option FailureCategory)
    (detail : Option String) (payload : Payload) (db : Db) {run : AgentRun} {left : Db}
    → transition run_id target message category detail payload db ≡ (ok run, left)
    → state_in run_id left ≡ some target
unfolding transition
transition-state run_id target message category detail payload db {run} {left} returned =
    elim (Option-cases (find_run run_id db.runs)) [
      | inl e ↦ absurd (let r = rw e at returned in cc)
      | inr (old, e) ↦ elim (Bool-cases (can_transition old.state target)) [
        | inr f ↦ absurd (let r = rw (e, f) at returned in cc)
        | inl t ↦
            let moved = record (enter_state old target category detail db.now) {
              last_event_sequence = old.last_event_sequence + 1;
            } in
            sym (ap (λ r. state_in run_id r.1) (rw (e, t) at returned))
            ∙ ap state_of (saved run_id old moved db.runs e (find_run-id run_id old db.runs e))
      ]
    ]
