-- ===== src/Tests/Repairs.antt =====
-- The theorems on the phases of the agent, applied to a model that reads one file and ends.
use pullsmith.Common.{
  ◌≡◌, refl, inr, ℕ, ◌≤◌, String, true, false, none, some, List, [], ◌∷◌, ◌++◌, length,
}
use pullsmith.Schemas.{high, IssueAnalysis, ImplementationPlan}
use pullsmith.Testing.Honest.{IsSuiteRun}
use pullsmith.Tools.{execute, success}
use pullsmith.Testing.Parse.{parse_test_output}
use pullsmith.Phases.{Schema, Provider, Desk}
use pullsmith.Planner.{plan_summary, format_retrieved}
use pullsmith.Repair.{Attempt, has_passed, RepairResult, describe_repair}
use pullsmith.Repair.Rounds.{implement_and_repair}
use pullsmith.Repair.Verified.{implement_and_repair-suite}
use pullsmith.Tests.Agent.{model, reading, context}
use pullsmith.Tests.Suites.{always, mapping, green_result}

abbrev rejecting : {A : Type 0} → String → Schema A
rejecting name = record { name = name; schema_text = "{}"; validate = λ text. inr "no" }

abbrev pub provider : Provider ℕ
provider = record {
  generate = model;
  issue_analysis = rejecting "IssueAnalysis";
  implementation_plan = rejecting "ImplementationPlan";
  failure_analysis = rejecting "FailureAnalysis";
  verification_result = rejecting "VerificationResult";
}

abbrev pub plan : ImplementationPlan
plan = record {
  problem_understanding = "The link is broken";
  relevant_files = [];
  suspected_root_cause = "A missing slash";
  root_cause_confidence = high;
  proposed_changes = record { path = "app.py"; intent = "add the slash"; is_new_file = false } ∷ [];
  tests_to_add_or_update = [];
  risks = [];
  verification_strategy = "pytest";
  out_of_scope = [];
}

abbrev pub analysis : IssueAnalysis
analysis = record {
  problem_summary = "The link is broken";
  expected_behaviour = "It opens";
  actual_behaviour = "It does not";
  reproduction_steps = [];
  acceptance_criteria = [];
  error_messages = [];
  referenced_symbols = [];
  referenced_paths = [];
  search_queries = "link" ∷ [];
  is_actionable = true;
  clarification_needed = none;
}

abbrev pub desk : Desk ℕ
desk = record { context = context; world = 0; reports = [] }

summary_of_plan :
    plan_summary plan ≡ "Plan: 1 file(s) to change [app.py]. Root-cause confidence: high."
unfolding plan_summary
summary_of_plan = refl

nothing_found : format_retrieved [] ≡ "No code was retrieved for this issue."
unfolding format_retrieved
nothing_found = refl

abbrev pub repair_result : RepairResult
repair_result = record {
  succeeded = true;
  attempts =
      record {
        iteration = 1;
        test_outcomes = parse_test_output green_result (some "pytest") ∷ [];
        failure_analysis = none;
        tool_calls = 1;
      }
      ∷ [];
  usage = record { input_tokens = 20; output_tokens = 10; calls = 2 };
  stopped_because = "tests_passed";
}

described : describe_repair repair_result ≡ "Tests passed after 1 attempt(s)"
unfolding describe_repair
described = refl

-- The first attempt passes.
green_at_once :
    implement_and_repair provider
      (reading ∷ [])
      (always green_result)
      mapping
      plan
      none
      5
      none
      []
      desk
    ≡ (
      inr repair_result,
      (implement_and_repair provider
          (reading ∷ [])
          (always green_result)
          mapping
          plan
          none
          5
          none
          []
          desk).1,
    )
unfolding implement_and_repair execute success parse_test_output
green_at_once = refl

implement_and_repair-suite_example :
    (length repair_result.attempts ≤ 5)
    × (repair_result.succeeded ≡ true
        → (earlier : List Attempt) × (last : Attempt) × (repair_result.attempts
            ≡ earlier ++ last ∷ [])
          × (has_passed last ≡ true)
          × IsSuiteRun (always green_result) mapping last.test_outcomes)
implement_and_repair-suite_example =
    implement_and_repair-suite provider (reading ∷ []) (always green_result) mapping plan none 5
      none [] desk green_at_once
