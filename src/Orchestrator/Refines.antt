-- ===== src/Orchestrator/Refines.antt =====
-- agent/orchestrator.py, `advance` and `create_pull_request` as clients of the services.
use pullsmith.Common.{
  ◌≡◌, refl, sym, ap, subst, ◌⊎◌, inl, inr, ℕ, zero, suc, String, Option, none, some, List,
}
use pullsmith.States.{RunState, FailureCategory}
use pullsmith.Phases.{Raised, aborted, quota, unapproved, crashed, ◌>>◌}
use pullsmith.Db.{Db, AgentRun, AgentPlan, RunDiff, Approval}
use pullsmith.Db.Session.{Action, Error, require}
use pullsmith.Review.{latest_diff, latest_plan, assert_push_allowed, record_pull_request}
use pullsmith.Github.{Request}
use pullsmith.Services
use pullsmith.Services.{pull_request_recorded}
use pullsmith.Orchestrator.Publish.{
  open_for, publish_approved, publish, fail_published, or_fail_published, create_pull_request,
}
use pullsmith.Orchestrator.Gated.{gate-cases}
use pullsmith.Orchestrator.{Runtime, Step, service}
use pullsmith.Orchestrator.Advance.{
  check_budget, work_once, round_for, round, unless_settled, drive, fail_run, or_fail,
  remove_checkout, cleanup, finally, with_fresh_scratch, advance, rehydrate,
}
use pullsmith.Orchestrator.Via.{
  Star, here, next, bind-Via, if-Via, handled-Via, return-Via, the_run-Via, via,
}
use pullsmith.Orchestrator.Finishes.{rehydrate-Calm}
use pullsmith.Orchestrator.Serves.{
  Served, calm-Served, move_run-Served, transition-Served, step_for-Served,
}

require-same : {A : Type 0} (o : Option A) (why : Error) (db : Db) → (require o why db).1 ≡ db
require-same none why db = refl
require-same (some a) why db = refl

module _ (sha256 : String → String) (run_id : ℕ) {World : Type 0} (runtime : Runtime World) where
  abbrev Ok : {A : Type 0} → Step World A → Type 0
  Ok m = Served sha256 run_id m

  check_budget-Served : Ok (check_budget sha256 runtime run_id)
  unfolding check_budget
  check_budget-Served = search via depth 20

  work_once-Served : (state : RunState) → Ok (work_once sha256 runtime run_id state)
  unfolding work_once
  work_once-Served state = search (via, check_budget-Served, step_for-Served) depth 20

  round-Served : Ok (round sha256 runtime run_id)
  unfolding round round_for
  round-Served = search (via, work_once-Served) depth 20

  unless-Served :
      (more : Step World (Option RunState))
      → Ok more
      → (o : Option RunState) → Ok (unless_settled sha256 runtime run_id more o)
  unless-Served more h none = h
  unless-Served more h (some state) = return-Via (some state)

  drive-Served : (fuel : ℕ) → Ok (drive sha256 runtime run_id fuel)
  unfolding drive
  drive-Served zero = return-Via none
  drive-Served (suc fuel) = bind-Via round-Served (unless-Served _ (drive-Served fuel))

  fail_run-Served :
      (category : FailureCategory) (detail : String)
      → Ok (fail_run sha256 runtime run_id category detail)
  unfolding fail_run
  fail_run-Served category detail = search (via, transition-Served) depth 20

  or_fail-Served :
      (r : Raised ⊎ Option RunState) → Ok (λ ride. or_fail sha256 runtime run_id (r, ride))
  or_fail-Served (inr state) = return-Via state
  or_fail-Served (inl why) = search (via, fail_run-Served)

  remove_checkout-Served :
      (at : Option (List String)) → Ok (remove_checkout sha256 runtime run_id at)
  remove_checkout-Served none = search via
  remove_checkout-Served (some checkout) = search via depth 20

  cleanup-Served : Ok (cleanup sha256 runtime run_id)
  unfolding cleanup
  cleanup-Served = search (via, remove_checkout-Served) depth 20

  ended-Served : (r : Raised ⊎ Option RunState) → Ok (λ left. (r, left))
  ended-Served (inl why) = search via
  ended-Served (inr state) = search via

  finally-Served :
      (r : Raised ⊎ Option RunState) → Ok (λ ride. finally sha256 runtime run_id (r, ride))
  finally-Served r = bind-Via cleanup-Served (λ _. ended-Served r)

  fresh-Served :
      {A : Type 0} {m : Step World A}
      → Ok m
      → Ok (λ ride. m (with_fresh_scratch sha256 runtime run_id ride))
  fresh-Served {m} h = record {
    writes = λ ride. h.writes (with_fresh_scratch sha256 runtime run_id ride);
    commits = λ ride. h.commits (with_fresh_scratch sha256 runtime run_id ride);
  }

  worked-Served :
      (fuel : ℕ) → Ok (rehydrate sha256 runtime run_id >> drive sha256 runtime run_id fuel)
  worked-Served fuel =
      bind-Via (calm-Served sha256 run_id (rehydrate-Calm sha256 runtime run_id))
        (λ _. drive-Served fuel)

  pub advance-Served : (fuel : ℕ) → Ok (advance sha256 runtime run_id fuel)
  unfolding advance
  advance-Served fuel = bind-Via (the_run-Via run_id) (λ run.
      if-Via _ (return-Via (some run.state)) (
        handled-Via (finally sha256 runtime run_id)
          (handled-Via (or_fail sha256 runtime run_id) (fresh-Served (worked-Served fuel))
            or_fail-Served)
          finally-Served))

  -- A call that only reads.
  reads-Served :
      {A : Type 0} (action : Action A)
      → ((db : Db) → (action db).1 ≡ db)
      → Ok (service {World = World} action)
  reads-Served action same = record {
    writes = λ ride. subst (Star (Services.Step sha256) ride.db) (sym (same ride.db)) here;
    commits = λ ride. inl refl;
  }

  required_row-Served :
      {A : Type 0} (found : Db → Option A) (why : Error)
      → Ok (service {World = World} (λ db. require (found db) why db))
  required_row-Served found why =
      reads-Served (λ db. require (found db) why db) (λ db. require-same (found db) why db)

  push_allowed-Served :
      (diff_text : String)
      → Ok (service {World = World} (assert_push_allowed sha256 run_id diff_text))
  push_allowed-Served diff_text = reads-Served (assert_push_allowed sha256 run_id diff_text) (λ db.
      elim (gate-cases sha256 run_id diff_text db) [
        | inl (a, e) ↦ ap (λ r. r.1) e
        | inr (x, e) ↦ ap (λ r. r.1) e
      ])

  record-Served :
      (run : AgentRun) (repository_id : ℕ) (approval : Approval) (branch title : String)
      (number : Option ℕ) (html_url commit_sha : Option String)
      → Ok (
          service {World = World} (
            record_pull_request run repository_id approval branch title number html_url commit_sha))
  record-Served run repository_id approval branch title number html_url commit_sha = record {
    writes = λ ride.
        next here (
          pull_request_recorded run repository_id approval branch title number html_url commit_sha);
    commits = λ ride. inl refl;
  }

  module _ (request : Request World) (base64 : String → String) where
    publish_approved-Served :
        (run : AgentRun) (plan : AgentPlan) (diff : RunDiff) (approval : Approval)
        → Ok (publish_approved sha256 runtime request base64 run_id run plan diff approval)
    unfolding publish_approved open_for
    publish_approved-Served run plan diff approval =
        search (via, required_row-Served, record-Served, move_run-Served, transition-Served) depth
          60

    publish-Served : Ok (publish sha256 runtime request base64 run_id)
    unfolding publish latest_diff latest_plan
    publish-Served = search (via, push_allowed-Served, publish_approved-Served) depth 40

    fail_published-Served :
        (category : FailureCategory) (detail : String)
        → Ok (fail_published sha256 runtime request base64 run_id category detail)
    unfolding fail_published
    fail_published-Served category detail = search (via, transition-Served) depth 20

    or_fail_published-Served :
        (r : Raised ⊎ Unit {0})
        → Ok (λ ride. or_fail_published sha256 runtime request base64 run_id (r, ride))
    or_fail_published-Served (inr done) = return-Via done
    or_fail_published-Served (inl (aborted category detail)) = search (via, fail_published-Served)
    or_fail_published-Served (inl (unapproved why)) = search (via, fail_published-Served)
    or_fail_published-Served (inl (quota why)) = search via
    or_fail_published-Served (inl (crashed why)) = search via

    pub create_pull_request-Served : Ok (create_pull_request sha256 runtime request base64 run_id)
    unfolding create_pull_request
    create_pull_request-Served =
        handled-Via (or_fail_published sha256 runtime request base64 run_id) publish-Served
          or_fail_published-Served
