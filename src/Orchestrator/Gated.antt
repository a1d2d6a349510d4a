-- ===== src/Orchestrator/Gated.antt =====
-- The gate before a pull request (agent/orchestrator.py, `create_pull_request`).
use pullsmith.Common.{
  ◌≡◌, refl, ◌∙◌, ◌⊎◌, inl, inr, ℕ, String, none, some, where_rows, ◌==◌, str_eq, take_text, ◌<>◌,
  Bool-cases, Option-cases,
}
use pullsmith.States.{failed, FailureCategory, category_name, is_terminal}
use pullsmith.Db.{Db, RunDiff, Approval, approved}
use pullsmith.Db.Session.{Error, Result, ok}
use pullsmith.Db.Session
use pullsmith.Events.{find_run, transition}
use pullsmith.Review.{
  newest_diff, newest_plan, latest_diff, latest_plan, get_approval, is_approved,
  assert_push_allowed,
}
use pullsmith.Review.Gate.{find_approval, assert_push_allowed-opens}
use pullsmith.Phases.{Raised, aborted, quota, unapproved, crashed, raise, then_do}
use pullsmith.Github.{Request}
use pullsmith.Orchestrator.{Runtime, Ride, Step, raised_by, served, commit}
use pullsmith.Orchestrator.Publish.{publish, fail_published, or_fail_published, create_pull_request}

-- The gate answers without a write.
pub gate-cases :
    (sha256 : String → String) (run_id : ℕ) (diff_text : String) (db : Db)
    → ((a : Approval) × (assert_push_allowed sha256 run_id diff_text db ≡ (ok a, db)))
      ⊎ ((e : Error) × (assert_push_allowed sha256 run_id diff_text db ≡ (Session.raise e, db)))
unfolding assert_push_allowed get_approval
gate-cases sha256 run_id diff_text db = elim (Option-cases (find_approval run_id db.approvals)) [
  | inl e ↦ rw e (inr (_, refl))
  | inr (a, e) ↦ rw e (elim (Bool-cases (is_approved a.decision)) [
    | inr f ↦ rw f (inr (_, refl))
    | inl f ↦ rw f (elim (Bool-cases (str_eq a.diff_hash (sha256 diff_text))) [
      | inr g ↦ rw g (inr (_, refl))
      | inl g ↦ rw g (inl (a, refl))
    ])
  ])
]

module _ {World : Type 0} (sha256 : String → String) (runtime : Runtime World)
    (request : Request World) (base64 : String → String) (run_id : ℕ) where
  -- Nothing was asked of what is outside of the process, and an exception is raised.
  pub record IsHeld (w : World) (r : (Raised ⊎ Unit {0}) × Ride World) : Type 0 where
    pub same_world : r.1.world ≡ w
    pub why : Raised
    pub raised : r.0 ≡ inl why

  -- The newest diff of the run is approved, with the hash of its text.
  pub record IsOpen (db : Db) : Type 0 where
    pub diff : RunDiff
    pub approval : Approval
    pub newest : newest_diff (where_rows (λ d. d.run_id == run_id) db.diffs) ≡ some diff
    pub decided : find_approval run_id db.approvals ≡ some approval
    pub said : approval.decision ≡ approved
    pub same_hash : approval.diff_hash ≡ sha256 diff.diff_text

  served-world :
      {A B : Type 0} (r : Result A × Db) (f : A → Step World B) (ride : Ride World)
      → ((a : A) (db : Db) → (f a (record ride { db = db })).1.world ≡ ride.world)
      → (then_do (served r.0, record ride { db = r.1 }) f).1.world ≡ ride.world
  served-world (ok a, db) f ride same = same a db
  served-world (Session.raise e, db) f ride same = refl

  fail_published-world :
      (category : FailureCategory) (detail : String) (ride : Ride World)
      → (fail_published sha256 runtime request base64 run_id category detail ride).1.world
        ≡ ride.world
  unfolding fail_published
  fail_published-world category detail ride = elim (Option-cases (find_run run_id ride.db.runs)) [
    | inl e ↦ rw e refl
    | inr (run, e) ↦ rw e (elim (Bool-cases (is_terminal run.state)) [
      | inl t ↦ rw t refl
      | inr f ↦ rw f (
          served-world
            (transition run_id failed (some ("Run failed: " <> category_name category))
              (some category) (some (take_text 2000 detail)) none ride.db)
            (λ _. commit) ride (λ a db. refl))
    ])
  ]

  then_raise :
      (r : (Raised ⊎ Unit {0}) × Ride World) (w : World) (why : Raised)
      → r.1.world ≡ w
      → IsHeld w (then_do r (λ _. raise why))
  then_raise (inl other_one, left) w why same = record {
    same_world = same;
    why = other_one;
    raised = refl;
  }
  then_raise (inr done, left) w why same = record { same_world = same; why = why; raised = refl }

  or_fail_published-IsHeld :
      (r : (Raised ⊎ Unit {0}) × Ride World) (w : World)
      → IsHeld w r
      → IsHeld w (or_fail_published sha256 runtime request base64 run_id r)
  or_fail_published-IsHeld (inr done, left) w held = absurd (let e = held.raised in cc)
  or_fail_published-IsHeld (inl (aborted category detail), left) w held =
      then_raise (fail_published sha256 runtime request base64 run_id category detail left) w _
        (fail_published-world category detail left ∙ held.same_world)
  or_fail_published-IsHeld (inl (unapproved why), left) w held =
      then_raise (fail_published sha256 runtime request base64 run_id _ why left) w _
        (fail_published-world _ why left ∙ held.same_world)
  or_fail_published-IsHeld (inl (quota why), left) w held = held
  or_fail_published-IsHeld (inl (crashed why), left) w held = held

  publish-cases :
      (ride : Ride World)
      → IsOpen ride.db ⊎ IsHeld ride.world (publish sha256 runtime request base64 run_id ride)
  unfolding publish latest_diff latest_plan
  publish-cases ride = elim (Option-cases (find_run run_id ride.db.runs)) [
    | inl e ↦ rw e (inr (record { same_world = refl; why = _; raised = refl }))
    | inr (run, e) ↦
        rw e
          (elim (Option-cases (newest_diff (where_rows (λ d. d.run_id == run_id) ride.db.diffs))) [
            | inl f ↦ rw f (inr (record { same_world = refl; why = _; raised = refl }))
            | inr (diff, f) ↦
                rw f
                  (elim (Option-cases
                    (newest_plan (where_rows (λ p. p.run_id == run_id) ride.db.plans))) [
                      | inl g ↦ rw g (inr (record { same_world = refl; why = _; raised = refl }))
                      | inr (plan, g) ↦
                          rw g (elim (gate-cases sha256 run_id diff.diff_text ride.db) [
                            | inr (why, h) ↦ rw h (
                                inr (record {
                                  same_world = refl;
                                  why = raised_by why;
                                  raised = refl;
                                }))
                            | inl (approval, h) ↦
                                let (found, said, same) =
                                  (assert_push_allowed-opens sha256 run_id diff.diff_text approval
                                      ride.db).0
                                    h in
                                inl (record {
                                  diff = diff;
                                  approval = approval;
                                  newest = f;
                                  decided = found;
                                  said = said;
                                  same_hash = same;
                                })
                          ])
                    ])
          ])
  ]

  -- Either the newest diff of the run is approved with the hash of its text, or
  -- `create_pull_request` raises and asks nothing of GitHub, the disk or anything else outside of
  -- the process.
  pub create_pull_request-IsHeld :
      (ride : Ride World)
      → IsOpen ride.db
        ⊎ IsHeld ride.world (create_pull_request sha256 runtime request base64 run_id ride)
  unfolding create_pull_request
  create_pull_request-IsHeld ride = elim (publish-cases ride) [
    | inl open_gate ↦ inl open_gate
    | inr held ↦ inr (
        or_fail_published-IsHeld (publish sha256 runtime request base64 run_id ride) ride.world
          held)
  ]
