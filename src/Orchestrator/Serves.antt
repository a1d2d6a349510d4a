-- ===== src/Orchestrator/Serves.antt =====
-- agent/orchestrator.py as a client of the services: whatever a step of it does to the database is a
-- sequence of steps of the services.
use pullsmith.Common.{refl, inl, ℕ, String, Option, List}
use pullsmith.States.{
  RunState, created, cloning_repository, analyzing_issue, exploring_repository, indexing_repository,
  retrieving_context, planning, implementing, testing, verifying, FailureCategory,
}
use pullsmith.Db.{Db, Payload}
use pullsmith.Events.{transition}
use pullsmith.Schemas.{IssueAnalysis}
use pullsmith.Tools.{ToolContext}
use pullsmith.Phases.{Phase}
use pullsmith.Testing.{TestOutcome}
use pullsmith.Services
use pullsmith.Services.{
  event_appended, moved, plan_stored, diff_stored, snapshot_noted, work_noted, snapshot_found,
  snapshot_saved,
}
use pullsmith.Orchestrator.{Runtime, Step, service, move_run, write_run}
use pullsmith.Orchestrator.Observer.{in_context}
use pullsmith.Orchestrator.Prepare.{
  clone_step, analyse_step, explore_step, retrieve_step, ensure_analysis, retrieve_for,
  retriever_for, context_for,
}
use pullsmith.Orchestrator.Snapshots.{index_step}
use pullsmith.Orchestrator.Work.{
  plan_step, after_plan_step, implement_step, assess_step, outcomes_to_approve, park_if_passed,
  await_approval_step,
}
use pullsmith.Orchestrator.Advance.{step_for}
use pullsmith.Orchestrator.Via.{here, next, Via, bind-Via, map-Via, via}
use pullsmith.Orchestrator.Quiet
use pullsmith.Orchestrator.Quiet.{
  Quiet, calm, load_issue-Calm, check_out-Calm, context_for-Calm, ensure_analysis-Calm,
  index_now-Calm, work-Calm, retriever_for-Calm, retrieve_for-Calm, in_context-Calm,
}
use pullsmith.Orchestrator.Checks.{test_evidence-Calm, self_check-Calm}

module _ (sha256 : String → String) (run_id : ℕ) where
  Quiet-Step : (a b : Db) → Quiet sha256 run_id a b → Services.Step sha256 a b
  Quiet-Step a b (Quiet.event_noted kind message level payload) =
      event_appended run_id kind message level payload
  Quiet-Step a b (Quiet.plan_noted plan) = plan_stored run_id plan
  Quiet-Step a b (Quiet.diff_noted changes risk verification) =
      diff_stored run_id changes risk verification
  Quiet-Step a b (Quiet.snapshot_noted snapshot_id) = snapshot_noted run_id snapshot_id
  Quiet-Step a b (Quiet.work_noted iteration tool_call_count) =
      work_noted run_id iteration tool_call_count
  Quiet-Step a b (Quiet.snapshot_found repository_id commit_sha) =
      snapshot_found repository_id commit_sha
  Quiet-Step a b (Quiet.snapshot_saved snapshot) = snapshot_saved snapshot

  module _ {World : Type 0} where
    abbrev pub Served : {A : Type 0} → Step World A → Type 0
    Served m = Via (Services.Step sha256) m

    pub calm-Served : {A : Type 0} {m : Step World A} → Via (Quiet sha256 run_id) m → Served m
    calm-Served h = map-Via Quiet-Step h

    pub transition-Served :
        (target : RunState) (message : Option String) (category : Option FailureCategory)
        (detail : Option String) (payload : Payload)
        → Served (service (transition run_id target message category detail payload))
    transition-Served target message category detail payload = record {
      writes = λ ride. next here (moved run_id target message category detail payload);
      commits = λ ride. inl refl;
    }

    pub move_run-Served :
        (target : RunState) (message : String) → Served (move_run run_id target message)
    move_run-Served target message = search (via, transition-Served)

    in_context-Served :
        {A : Type 0} (context : ToolContext) (phase : Phase World A)
        → Served (in_context run_id context phase)
    in_context-Served context phase = calm-Served (in_context-Calm sha256 run_id context phase)

    work-Served :
        (iteration tool_call_count : ℕ)
        → Served (
            write_run run_id
              (λ r. record r { iteration = iteration; tool_call_count = tool_call_count }))
    work-Served iteration tool_call_count =
        calm-Served (work-Calm sha256 run_id iteration tool_call_count)

    pub ruleset serves = (via, move_run-Served, transition-Served, calm-Served, calm)

    module _ (runtime : Runtime World) where
      clone-Served : Served (clone_step runtime run_id)
      unfolding clone_step
      clone-Served = search (serves, check_out-Calm) depth 30

      analyse-Served : Served (analyse_step runtime run_id)
      unfolding analyse_step
      analyse-Served = search (serves, load_issue-Calm) depth 40

      explore-Served : Served (explore_step runtime run_id)
      unfolding explore_step
      explore-Served = search serves depth 50

      index-Served : Served (index_step runtime run_id)
      unfolding index_step
      index-Served =
          bind-Via (move_run-Served indexing_repository _)
            (λ _. calm-Served (search (calm, index_now-Calm) depth 40))

      retrieve-Served : Served (retrieve_step runtime run_id)
      unfolding retrieve_step
      retrieve-Served = search (serves, ensure_analysis-Calm, retrieve_for-Calm) depth 50

      plan-Served : Served (plan_step sha256 runtime run_id)
      unfolding plan_step
      plan-Served =
          search (serves, ensure_analysis-Calm, context_for-Calm, in_context-Calm) depth 60

      after_plan-Served : Served (after_plan_step sha256 runtime run_id)
      unfolding after_plan_step
      after_plan-Served = search serves depth 30

      ensure_analysis-Served : Served (ensure_analysis runtime run_id)
      ensure_analysis-Served = calm-Served (ensure_analysis-Calm sha256 run_id runtime)

      retrieve_for-Served :
          (analysis : IssueAnalysis) → Served (retrieve_for runtime run_id analysis)
      retrieve_for-Served analysis = calm-Served (retrieve_for-Calm sha256 run_id runtime analysis)

      retriever_for-Served : Served (retriever_for runtime run_id)
      retriever_for-Served = calm-Served (retriever_for-Calm sha256 run_id runtime)

      context_for-Served : Served (context_for runtime run_id)
      context_for-Served = calm-Served (context_for-Calm sha256 run_id runtime)

      implement-Served : Served (implement_step sha256 runtime run_id)
      unfolding implement_step
      implement-Served =
          search
            (
              via, move_run-Served, transition-Served, in_context-Served, work-Served,
              ensure_analysis-Served, retrieve_for-Served, retriever_for-Served, context_for-Served,
            )
            depth 60

      assess-Served : Served (assess_step sha256 runtime run_id)
      unfolding assess_step
      assess-Served = search (serves, test_evidence-Calm, self_check-Calm) depth 80

      park-Served :
          (outcomes : List TestOutcome) → Served (park_if_passed sha256 runtime run_id outcomes)
      unfolding park_if_passed
      park-Served outcomes = search serves depth 30

      await-Served : Served (await_approval_step sha256 runtime run_id)
      unfolding await_approval_step outcomes_to_approve
      await-Served = search (serves, test_evidence-Calm, park-Served) depth 30

      pub step_for-Served : (state : RunState) → Served (step_for sha256 runtime run_id state)
      unfolding step_for
      step_for-Served created = clone-Served
      step_for-Served cloning_repository = analyse-Served
      step_for-Served analyzing_issue = explore-Served
      step_for-Served exploring_repository = index-Served
      step_for-Served indexing_repository = retrieve-Served
      step_for-Served retrieving_context = plan-Served
      step_for-Served planning = after_plan-Served
      step_for-Served implementing = implement-Served
      step_for-Served testing = assess-Served
      step_for-Served verifying = await-Served
      step_for-Served state = search via
