-- ===== src/Orchestrator/Work.antt =====
-- agent/orchestrator.py: the handlers from the plan to the human gate.
use pullsmith.Common.{
  ℕ, ◌⊎◌, inl, inr, String, Option, none, some, List, [], ◌∷◌, map, not, ◌==◌, if◌then◌else◌,
  is_nil, join, ◌<>◌, or_else,
}
use pullsmith.States.{
  planning, waiting_for_plan_review, implementing, testing, verifying, waiting_for_approval,
  implementation_failure, test_failure,
}
use pullsmith.Schemas.{ImplementationPlan, VerificationResult, confidence_name}
use pullsmith.Db.{info, warning, text, texts, num, bool}
use pullsmith.Diff
use pullsmith.Diff.{ChangeSet}
use pullsmith.Diff.Build.{build_change_set}
use pullsmith.RepoMap.{RepositoryMap}
use pullsmith.Testing.{TestOutcome, all_passed}
use pullsmith.Testing.Run.{run_tests}
use pullsmith.Risk.{level_name, describe_risk}
use pullsmith.Risk.Assess.{assess}
use pullsmith.Review.{store_plan, store_diff}
use pullsmith.Planner.{build_plan, plan_summary}
use pullsmith.Repair.{Attempt, RepairResult, iterations_used, describe_repair, verify}
use pullsmith.Repair.Rounds.{implement_and_repair}
use pullsmith.Phases.{Raised, aborted, return, ◌>>=◌, ◌>>◌}
use pullsmith.Orchestrator.{
  Runtime, Ride, Step, service, on_scratch, write_scratch, on_world, outside_text, needed, known_or,
  raise_if, the_run, note_event, move_run, write_run,
}
use pullsmith.Orchestrator.Observer.{in_context}
use pullsmith.Orchestrator.Prepare.{context_for, ensure_analysis, retriever_for, retrieve_for}

abbrev repository_summary : Option RepositoryMap → String
repository_summary none = ""
repository_summary (some m) = or_else m.primary_language "None" <> ", " <> join ", " m.frameworks

-- The outcomes of the last attempt, if there is one.
unfoldable pub last_outcomes : List Attempt → Option (List TestOutcome)
last_outcomes [] = none
last_outcomes (a ∷ []) = some a.test_outcomes
last_outcomes (a ∷ b ∷ more) = last_outcomes (b ∷ more)

abbrev pub repaired_outcomes : Option RepairResult → Option (List TestOutcome)
repaired_outcomes none = none
repaired_outcomes (some result) = last_outcomes result.attempts

abbrev pub planned_tests : Option ImplementationPlan → List String
planned_tests none = []
planned_tests (some plan) = plan.tests_to_add_or_update

abbrev pub why_stopped : Option RepairResult → String
why_stopped none = "no evidence"
why_stopped (some result) = result.stopped_because

abbrev attempts_made : Option RepairResult → ℕ
attempts_made none = 1
attempts_made (some result) = iterations_used result

module _ {World : Type 0} (sha256 : String → String) (runtime : Runtime World) (run_id : ℕ) where
  unfoldable pub plan_step : Step World (Unit {0})
  unfolding ensure_analysis context_for in_context build_plan plan_summary store_plan
      confidence_name
  plan_step = do
    move_run run_id planning "Drafting an implementation plan"
    analysis ← ensure_analysis runtime run_id
    context ← context_for runtime run_id
    scratch ← on_scratch (λ s. s)
    planned ← in_context run_id context (
        build_plan runtime.provider runtime.registry analysis scratch.retrieved
          (repository_summary scratch.mapping) none)
    let plan = planned.0
    write_scratch (λ s. record s { plan = some plan })
    service (store_plan run_id plan)
    note_event run_id info (plan_summary plan) "info" (
        some (
          ("files", texts (map (λ c. c.path) plan.proposed_changes))
          ∷ ("confidence", text (confidence_name plan.root_cause_confidence))
          ∷ []))

  unfoldable pub after_plan_step : Step World (Unit {0})
  after_plan_step = do
    run ← the_run run_id
    if run.require_plan_approval
        then move_run run_id waiting_for_plan_review "Plan ready for review"
        else move_run run_id implementing "Applying changes"

  unfoldable pub implement_step : Step World (Unit {0})
  unfolding ensure_analysis retriever_for retrieve_for context_for in_context implement_and_repair
      describe_repair iterations_used
  implement_step = do
    scratch ← on_scratch (λ s. s)
    plan ← needed scratch.plan (aborted implementation_failure "Plan is missing")
    mapping ← needed scratch.mapping (aborted implementation_failure "Plan is missing")
    let blind : Step World (Unit {0}) =
        ensure_analysis runtime run_id >>= λ analysis. retrieve_for runtime run_id analysis
    if not scratch.retrieval_attempted then blind else return tt
    context ← context_for runtime run_id
    retrieved ← on_scratch (λ s. s.retrieved)
    retrieve ← retriever_for runtime run_id
    run ← the_run run_id
    result ← in_context run_id context (
        implement_and_repair runtime.provider runtime.registry runtime.sandbox mapping plan
          (some retrieve) run.max_iterations none retrieved)
    left ← on_scratch (λ s. or_else s.context context)
    write_scratch (λ s. record s { repair_result = some result; changes = left.changes })
    write_run run_id (λ r. record r {
      iteration = iterations_used result;
      tool_call_count = left.tool_calls_used;
    })
    move_run run_id testing (describe_repair result)

  -- `_outcomes`: the evidence of the repair, or else the tests are run again.
  abbrev pub rerun_tests :
      Option RepositoryMap → (test_paths : List String) → Step World (List TestOutcome)
  rerun_tests none test_paths = return []
  rerun_tests (some mapping) test_paths =
      outside_text (run_tests runtime.sandbox mapping test_paths)

  unfoldable pub test_evidence : Step World (List TestOutcome)
  unfolding last_outcomes run_tests
  test_evidence = do
    scratch ← on_scratch (λ s. s)
    known_or (repaired_outcomes scratch.repair_result)
        (rerun_tests scratch.mapping (planned_tests scratch.plan))

  -- A self-check that raises becomes a warning.
  abbrev pub caught :
      {A : Type 0}
      → (Raised ⊎ (VerificationResult × A)) × Ride World
      → (Raised ⊎ Option VerificationResult) × Ride World
  caught (inr checked, ride) = (inr (some checked.0), ride)
  caught (inl why, ride) =
      (note_event run_id warning "Self-verification could not be completed" "warning" none
          >> return none)
        ride

  unfoldable pub self_check :
      ImplementationPlan → ChangeSet → List TestOutcome → Step World (Option VerificationResult)
  unfolding context_for in_context verify all_passed Diff.unified_diff
  self_check plan change_set outcomes =
      let check : Step World (Option VerificationResult) = λ ride. caught (
        (context_for runtime run_id >>= λ context. in_context run_id context (
            verify runtime.provider runtime.registry plan (Diff.unified_diff change_set) outcomes
              none))
          ride) in
      if all_passed outcomes then check else return none

  unfoldable pub assess_step : Step World (Unit {0})
  unfolding build_change_set test_evidence self_check assess store_diff describe_risk level_name
      Diff.file_count Diff.summary iterations_used
  assess_step = do
    move_run run_id verifying "Verifying the change"
    scratch ← on_scratch (λ s. s)
    plan ← needed scratch.plan (aborted implementation_failure "Plan is missing")
    checkout ← needed scratch.checkout (aborted implementation_failure "Plan is missing")
    read_text ← on_world (runtime.read_text checkout)
    let change_set = build_change_set runtime.unified read_text scratch.changes
    raise_if (Diff.file_count change_set == 0)
        (aborted implementation_failure "No files were changed, so there is nothing to review")
    outcomes ← test_evidence
    write_scratch (λ s. record s { test_outcomes = outcomes })
    verification ← self_check plan change_set outcomes
    let assessment =
        assess change_set outcomes (map (λ c. c.path) plan.proposed_changes)
          (attempts_made scratch.repair_result)
    service (store_diff sha256 run_id change_set assessment verification)
    note_event run_id info (Diff.summary change_set <> ". " <> describe_risk assessment) "info" (
        some (
          ("risk_level", text (level_name assessment.level))
          ∷ ("risk_score", num assessment.score)
          ∷ ("warnings", texts assessment.warnings)
          ∷ ("blocking", bool assessment.blocking)
          ∷ []))

  -- `scratch.test_outcomes or await self._outcomes(scratch)`
  unfoldable pub outcomes_to_approve : Step World (List TestOutcome)
  unfolding test_evidence
  outcomes_to_approve = do
    known ← on_scratch (λ s. s.test_outcomes)
    if is_nil known then test_evidence else return known

  unfoldable pub park_if_passed : List TestOutcome → Step World (Unit {0})
  unfolding all_passed
  park_if_passed outcomes = do
    result ← on_scratch (λ s. s.repair_result)
    raise_if (not (all_passed outcomes))
        (aborted test_failure ("Tests did not pass: " <> why_stopped result))
    move_run run_id waiting_for_approval "Waiting for human approval"

  unfoldable pub await_approval_step : Step World (Unit {0})
  unfolding outcomes_to_approve park_if_passed
  await_approval_step = outcomes_to_approve >>= park_if_passed
