-- ===== src/Repair/Rounds.antt =====
-- agent/repair.py, `implement_and_repair`: a round is one iteration of its loop.
use pullsmith.Common.{
  ℕ, zero, suc, true, false, Option, none, some, List, [], ◌∷◌, ◌++◌, map, not, leb, ◌==◌,
  if◌then◌else◌, length, is_nil, show, ◌<>◌, take_text, last_piece,
}
use pullsmith.Db.{num, bool, text, texts}
use pullsmith.Schemas.{FailureAnalysis, ImplementationPlan}
use pullsmith.Llm.{Message, Usage, no_usage, add_usage}
use pullsmith.Tools.{Tool}
use pullsmith.Loop.{LoopLimits}
use pullsmith.RepoMap.{RepositoryMap}
use pullsmith.Retrieval.{RetrievedChunk}
use pullsmith.Sandbox.{SandboxRunner}
use pullsmith.Testing.{TestOutcome}
use pullsmith.Testing.Run.{run_tests}
use pullsmith.Phases.{Provider, Phase, return, call, text_crashed, report, on_context, ◌>>=◌, ◌>>◌}
use pullsmith.Repair.Prompts.{implement_messages, revise_messages, failing_tests_of}
use pullsmith.Repair.{
  Attempt, has_passed, RepairResult, Retriever, Round, stopped, revised, analysed, last_summary,
  apply_changes, analyse_failure,
}

module _ {World : Type 0} (provider : Provider World) (tools : List (Tool World)) where
  module _ (sandbox : SandboxRunner World) (mapping : RepositoryMap) (plan : ImplementationPlan)
      (retriever : Option (Retriever World)) (max_iterations : ℕ) (limits : Option LoopLimits) where
    -- More code for a failure: only with queries and a retriever.
    unfoldable pub more_context :
        FailureAnalysis
        → List TestOutcome
        → Option (Retriever World)
        → Phase World (List RetrievedChunk)
    unfolding failing_tests_of last_piece
    more_context analysis outcomes none = return []
    more_context analysis outcomes (some retrieve) =
        let queries = analysis.additional_search_queries in
        let asked : Phase World (List RetrievedChunk) = (do
          found ← call (retrieve queries (map last_piece (failing_tests_of outcomes)))
          report "retrieval"
              (("queries", texts queries) ∷ ("chunks_found", num (length found)) ∷ [])
          return found) in
        if is_nil queries then return [] else asked

    unfoldable pub revise : Attempt → Usage → FailureAnalysis → Phase World Round
    unfolding more_context revise_messages
    revise attempt usage analysis = do
      extra ← more_context analysis attempt.test_outcomes retriever
      return (
          revised attempt usage
            (revise_messages plan attempt.iteration attempt.test_outcomes analysis extra))

    -- What an analysis leads to.
    unfoldable pub after_diagnosis : Attempt → Usage → FailureAnalysis × Usage → Phase World Round
    unfolding revise add_usage take_text
    after_diagnosis attempt usage (analysis, analysis_usage) =
        let learned : Attempt = record attempt { failure_analysis = some analysis } in
        let total = add_usage usage analysis_usage in
        let gave_up : Phase World Round =
          report "warning"
            (("message", text ("Stopping: " <> take_text 200 analysis.likely_cause)) ∷ [])
          >> return (stopped learned false "analysis_says_unrecoverable" total) in
        report "info" (analysed analysis)
        >> (if not analysis.is_recoverable then gave_up else revise learned total analysis)

    -- After the tests failed: diagnose, and stop or revise.
    unfoldable pub learn : Attempt → Usage → Phase World Round
    unfolding analyse_failure after_diagnosis
    learn attempt usage =
        analyse_failure provider tools plan attempt.test_outcomes >>= after_diagnosis attempt usage

    -- After the tests were run.
    unfoldable pub judge : Attempt → Usage → Phase World Round
    unfolding learn has_passed show
    judge attempt usage =
        let no_command : Phase World Round =
          report "warning" (
            ("message", text "No test command detected; cannot verify the change objectively") ∷ [])
          >> return (stopped attempt false "no_test_command" usage) in
        let out_of_attempts : Phase World Round =
          report "warning"
            (("message", text ("Stopping after " <> show max_iterations <> " attempts")) ∷ [])
          >> return (stopped attempt false "max_iterations_reached" usage) in
        if has_passed attempt
        then return (stopped attempt true "tests_passed" usage)
        else if is_nil attempt.test_outcomes
        then no_command
        else if attempt.iteration == max_iterations
        then out_of_attempts
        else learn attempt usage

    unfoldable pub after_tests :
        (iteration calls : ℕ) → Usage → List TestOutcome → Phase World Round
    unfolding judge has_passed
    after_tests iteration calls usage outcomes =
        let attempt : Attempt = record {
          iteration = iteration;
          test_outcomes = outcomes;
          failure_analysis = none;
          tool_calls = calls;
        } in
        report "test_run" (
          ("iteration", num iteration)
          ∷ ("passed", bool (has_passed attempt))
          ∷ ("summary", text (last_summary outcomes))
          ∷ [])
        >> judge attempt usage

    unfoldable pub test : Phase World (List TestOutcome)
    unfolding run_tests
    test = call (λ w. text_crashed (run_tests sandbox mapping plan.tests_to_add_or_update w))

    -- After the changes were applied: without budget nothing is tested.
    unfoldable pub after_changes : (iteration : ℕ) → ℕ × Usage → Phase World Round
    unfolding test after_tests
    after_changes iteration (calls, usage) =
        let untested : Attempt = record {
          iteration = iteration;
          test_outcomes = [];
          failure_analysis = none;
          tool_calls = calls;
        } in
        let over_budget : Phase World Round =
          report "warning" (("message", text "Tool call budget exhausted") ∷ [])
          >> return (stopped untested false "tool_budget_exhausted" usage) in
        on_context (λ c. leb c.max_tool_calls c.tool_calls_used) >>= λ exhausted.
        if exhausted then over_budget else test >>= after_tests iteration calls usage

    unfoldable pub take_round : (iteration : ℕ) → List Message → Phase World Round
    unfolding apply_changes after_changes show
    take_round iteration conversation =
        report "info" (
          (
            "message",
            text (
                "Attempt "
                <> show iteration
                <> " of "
                <> show max_iterations
                <> ": applying changes"),
          )
          ∷ [])
        >> (apply_changes provider tools conversation limits >>= after_changes iteration)

    abbrev pub go_on :
        (RepairResult → List Message → Phase World RepairResult)
        → RepairResult
        → Round
        → Phase World RepairResult
    go_on more result (stopped attempt succeeded why usage) = return (record {
      succeeded = succeeded;
      attempts = result.attempts ++ attempt ∷ [];
      usage = add_usage result.usage usage;
      stopped_because = why;
    })
    go_on more result (revised attempt usage conversation) =
        more
          (record result {
            attempts = result.attempts ++ attempt ∷ [];
            usage = add_usage result.usage usage;
          })
          conversation

    -- `remaining` iterations are left, from the number `iteration` on.
    unfoldable pub rounds_from :
        (remaining iteration : ℕ) → RepairResult → List Message → Phase World RepairResult
    unfolding take_round
    rounds_from zero iteration result conversation =
        return (record result { stopped_because = "max_iterations_reached" })
    rounds_from (suc remaining) iteration result conversation =
        take_round iteration conversation
        >>= go_on (λ next said. rounds_from remaining (suc iteration) next said) result

    unfoldable pub implement_and_repair : List RetrievedChunk → Phase World RepairResult
    unfolding rounds_from implement_messages
    implement_and_repair retrieved =
        rounds_from max_iterations 1
          (record {
            succeeded = false;
            attempts = [];
            usage = no_usage;
            stopped_because = "tests_passed";
          })
          (implement_messages plan retrieved)
