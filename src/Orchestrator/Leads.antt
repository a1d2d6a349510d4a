-- ===== src/Orchestrator/Leads.antt =====
-- agent/orchestrator.py: a handler that returns has brought the run nearer to its next gate. The
-- distance counts the states of the straight way that are left.
use pullsmith.Common.{
  ◌≡◌, refl, sym, ◌∙◌, ap, ◌⊎◌, inl, inr, ℕ, ◌<◌, String, Bool, true, false, none, some, arith,
  if◌then◌else◌,
}
use pullsmith.States.{
  RunState, created, cloning_repository, analyzing_issue, exploring_repository, indexing_repository,
  retrieving_context, planning, implementing, testing, analyzing_failure, revising, verifying,
  waiting_for_plan_review, waiting_for_approval,
}
use pullsmith.Db.{Db, AgentRun}
use pullsmith.Db.Session.{Result, ok}
use pullsmith.Db.Session
use pullsmith.Events.{transition}
use pullsmith.Phases.{Raised, return, then_do, ◌>>=◌}
use pullsmith.Orchestrator.{Runtime, Ride, Step, the_run, move_run, served}
use pullsmith.Orchestrator.Prepare.{clone_step, analyse_step, explore_step, retrieve_step}
use pullsmith.Orchestrator.Snapshots.{index_step}
use pullsmith.Orchestrator.Work.{
  plan_step, after_plan_step, implement_step, assess_step, park_if_passed, await_approval_step,
}
use pullsmith.Orchestrator.Via.{Via}
use pullsmith.Orchestrator.Quiet.{
  Quiet, calm, load_issue-Calm, check_out-Calm, context_for-Calm, ensure_analysis-Calm,
  index_now-Calm, retrieve_for-Calm, in_context-Calm,
}
use pullsmith.Orchestrator.Checks.{test_evidence-Calm, self_check-Calm}
use pullsmith.Orchestrator.Moves.{state_in, state_in-Star, transition-state}

unfoldable pub distance : RunState → ℕ
distance created = 10
distance cloning_repository = 9
distance analyzing_issue = 8
distance exploring_repository = 7
distance indexing_repository = 6
distance retrieving_context = 5
distance planning = 4
distance implementing = 3
distance testing = 2
distance verifying = 1
distance analyzing_failure = 1
distance revising = 1
distance _ = 0

abbrev pub Nearer : (run_id bound : ℕ) → Db → Type 0
Nearer run_id bound db =
    (state : RunState) × (state_in run_id db ≡ some state) × (distance state < bound)

module _ (sha256 : String → String) (run_id : ℕ) {World : Type 0} where
  -- When the step returns, the run is nearer than the bound.
  pub record Leads {A : Type 0} (bound : ℕ) (m : Step World A) : Type 0 where
    pub leads :
        (ride left : Ride World) (a : A) → m ride ≡ (inr a, left) → Nearer run_id bound left.db

  then_do-Nearer :
      {A B : Type 0} (bound : ℕ) (r : (Raised ⊎ A) × Ride World) (f : A → Step World B)
      (left : Ride World) (b : B)
      → ((a : A) → r.0 ≡ inr a → Nearer run_id bound r.1.db)
      → ((a : A) → Via (Quiet sha256 run_id) (f a))
      → then_do r f ≡ (inr b, left)
      → Nearer run_id bound left.db
  then_do-Nearer bound (inl why, mid) f left b near calm_after e = absurd cc
  then_do-Nearer bound (inr a, mid) f left b near calm_after e =
      let (state, known, closer) = near a refl in
      let kept = state_in-Star sha256 run_id ((calm_after a).writes mid) in
      (state, ap (λ r. state_in run_id r.1.db) (sym e) ∙ kept ∙ known, closer)

  pub first-Leads :
      {A B : Type 0} {bound : ℕ} {m : Step World A} {f : A → Step World B}
      → Leads bound m
      → ((a : A) → Via (Quiet sha256 run_id) (f a))
      → Leads bound (m >>= f)
  first-Leads {bound} {m} {f} near calm_after = record {
    leads = λ ride left b e.
        then_do-Nearer bound (m ride) f left b
          (λ a h. near.leads ride (m ride).1 a (ap (λ x. (x, (m ride).1)) h)) calm_after e;
  }

  then_do-last :
      {A B : Type 0} (bound : ℕ) (r : (Raised ⊎ A) × Ride World) (f : A → Step World B)
      (left : Ride World) (b : B)
      → ((a : A) → Leads bound (f a))
      → then_do r f ≡ (inr b, left)
      → Nearer run_id bound left.db
  then_do-last bound (inl why, mid) f left b near e = absurd cc
  then_do-last bound (inr a, mid) f left b near e = (near a).leads mid left b e

  pub last-Leads :
      {A B : Type 0} {bound : ℕ} (m : Step World A) {f : A → Step World B}
      → ((a : A) → Leads bound (f a))
      → Leads bound (m >>= f)
  last-Leads {bound} m {f} near = record {
    leads = λ ride left b e. then_do-last bound (m ride) f left b near e;
  }

  moved-Nearer :
      (bound : ℕ) (target : RunState) (r : Result AgentRun × Db) (ride left : Ride World)
      (done : Unit {0})
      → ((run : AgentRun) (db : Db) → r ≡ (ok run, db) → state_in run_id db ≡ some target)
      → distance target < bound
      → then_do (served r.0, record ride { db = r.1 }) (λ _. return tt) ≡ (inr done, left)
      → Nearer run_id bound left.db
  moved-Nearer bound target (ok run, db) ride left done moved closer e =
      (target, ap (λ r. state_in run_id r.1.db) (sym e) ∙ moved run db refl, closer)
  moved-Nearer bound target (Session.raise why, db) ride left done moved closer e = absurd cc

  move-Leads :
      {bound : ℕ} (target : RunState) (message : String)
      → distance target < bound
      → Leads bound (move_run {World = World} run_id target message)
  move-Leads {bound} target message closer = record {
    leads = λ ride left done e.
        moved-Nearer bound target (transition run_id target (some message) none none none ride.db)
          ride left done
          (λ run db h. transition-state run_id target (some message) none none none ride.db h)
          closer e;
  }

  if-Leads :
      {A : Type 0} {bound : ℕ} (b : Bool) {m n : Step World A}
      → Leads bound m
      → Leads bound n
      → Leads bound (if b then m else n)
  if-Leads true hm hn = hm
  if-Leads false hm hn = hn

  module _ (runtime : Runtime World) where
    pub clone-Leads : Leads 10 (clone_step runtime run_id)
    unfolding clone_step distance
    clone-Leads =
        first-Leads (move-Leads cloning_repository _ (omega arith))
          (λ _. check_out-Calm sha256 run_id runtime)

    pub analyse-Leads : Leads 9 (analyse_step runtime run_id)
    unfolding analyse_step distance
    analyse-Leads =
        first-Leads (move-Leads analyzing_issue _ (omega arith))
          (λ _. search (calm, load_issue-Calm) depth 30)

    pub explore-Leads : Leads 8 (explore_step runtime run_id)
    unfolding explore_step distance
    explore-Leads =
        first-Leads (move-Leads exploring_repository _ (omega arith)) (λ _. search calm depth 40)

    pub index-Leads : Leads 7 (index_step runtime run_id)
    unfolding index_step distance
    index-Leads =
        first-Leads (move-Leads indexing_repository _ (omega arith))
          (λ _. search (calm, index_now-Calm) depth 40)

    pub retrieve-Leads : Leads 6 (retrieve_step runtime run_id)
    unfolding retrieve_step distance
    retrieve-Leads =
        first-Leads (move-Leads retrieving_context _ (omega arith))
          (λ _. search (calm, ensure_analysis-Calm, retrieve_for-Calm) depth 40)

    pub plan-Leads : Leads 5 (plan_step sha256 runtime run_id)
    unfolding plan_step distance
    plan-Leads =
        first-Leads (move-Leads planning _ (omega arith))
          (λ _. search (calm, ensure_analysis-Calm, context_for-Calm, in_context-Calm) depth 40)

    pub after_plan-Leads : Leads 4 (after_plan_step sha256 runtime run_id)
    unfolding after_plan_step distance
    after_plan-Leads = last-Leads (the_run run_id) λ run.
        if-Leads run.require_plan_approval (move-Leads waiting_for_plan_review _ (omega arith))
          (move-Leads implementing _ (omega arith))

    pub implement-Leads : Leads 3 (implement_step sha256 runtime run_id)
    unfolding implement_step distance
    implement-Leads =
        let moved : (message : String) → Leads 3 (move_run {World = World} run_id testing message) =
          λ message. move-Leads testing message (omega arith) in
        search (last-Leads, moved) depth 40

    pub await-Leads : Leads 1 (await_approval_step sha256 runtime run_id)
    unfolding await_approval_step park_if_passed distance
    await-Leads =
        let moved : (message : String)
            → Leads 1 (move_run {World = World} run_id waiting_for_approval message) =
          λ message. move-Leads waiting_for_approval message (omega arith) in
        search (last-Leads, moved) depth 20

    pub assess-Leads : Leads 2 (assess_step sha256 runtime run_id)
    unfolding assess_step distance
    assess-Leads =
        first-Leads (move-Leads verifying _ (omega arith))
          (λ _. search (calm, test_evidence-Calm, self_check-Calm) depth 60)
