-- ===== src/Repair/Prompts.antt =====
-- agent/repair.py: what the model is told in each round.
use pullsmith.Common.{
  ℕ, String, some, List, [], ◌∷◌, ◌++◌, map, not, if◌then◌else◌, is_empty, where_rows, take, join,
  show, show_bool, or_text, ◌<>◌,
}
use pullsmith.Schemas.{FailureAnalysis, ImplementationPlan, confidence_name}
use pullsmith.Safety.{wrap_untrusted}
use pullsmith.Retrieval.{RetrievedChunk, citation}
use pullsmith.Testing.{TestOutcome}
use pullsmith.Llm.{Role, Message}
use pullsmith.Phases.{said}

abbrev implementer_system_prompt : String
implementer_system_prompt =
    "You are a senior software engineer implementing an approved plan.\n\nRules:\n- Make the smallest change that satisfies the plan. Do not refactor anything else.\n- Use replace_in_file for edits to existing code. Read the file first so your snippet matches\n  exactly.\n- Follow the conventions already in the file you are editing.\n- Add or update tests when the plan says so.\n- Do not touch files outside the plan unless it is strictly required, and say so if you do.\n\nWhen you have finished editing, stop and say what you changed.\n"

abbrev reviser_system_prompt : String
reviser_system_prompt =
    "You are fixing a failed attempt.\n\nThe tests told you the truth: your previous change did not work. Read the failure carefully\nbefore editing again. Do not repeat the same edit.\n\nIf the failure shows your root cause was wrong, say so and address the real cause instead of\npatching the symptom.\n"

unfoldable format_plan : ImplementationPlan → String
unfolding join confidence_name
format_plan plan =
    let changes = join "\n" (map (λ c. "- " <> c.path <> ": " <> c.intent) plan.proposed_changes) in
    let tests = or_text (some (join ", " plan.tests_to_add_or_update)) "none specified" in
    "Suspected cause ("
    <> confidence_name plan.root_cause_confidence
    <> " confidence): "
    <> plan.suspected_root_cause
    <> "\n\nChanges to make:\n"
    <> changes
    <> "\n\nTests to add or update: "
    <> tests
    <> "\nVerification: "
    <> plan.verification_strategy
    <> "\nOut of scope: "
    <> or_text (some (join ", " plan.out_of_scope)) "nothing stated"

unfoldable format_failures : List TestOutcome → String
unfolding join
format_failures outcomes =
    join "\n\n" (map (λ o. o.output_summary) (where_rows (λ o. not o.passed) outcomes))

-- `name for outcome in outcomes for name in outcome.failing_tests`
unfoldable pub failing_tests_of : List TestOutcome → List String
failing_tests_of [] = []
failing_tests_of (o ∷ os) = o.failing_tests ++ failing_tests_of os

unfoldable chunk_block : List RetrievedChunk → String
unfolding join citation
chunk_block chunks = join "\n\n" (map (λ c. "### " <> citation c <> "\n" <> c.content) chunks)

unfoldable pub implement_messages : ImplementationPlan → List RetrievedChunk → List Message
unfolding format_plan chunk_block wrap_untrusted
implement_messages plan retrieved =
    said Role.system implementer_system_prompt
    ∷ said Role.user (
        "Approved plan:\n"
        <> format_plan plan
        <> "\n\n"
        <> wrap_untrusted "relevant code" (chunk_block (take 10 retrieved)) 24000
        <> "\n\nImplement this plan now.")
    ∷ []

unfoldable pub revise_messages :
    ImplementationPlan
    → (iteration : ℕ) → List TestOutcome
    → FailureAnalysis
    → List RetrievedChunk
    → List Message
unfolding format_plan chunk_block format_failures wrap_untrusted show
revise_messages plan iteration outcomes analysis extra =
    let extra_block = chunk_block (take 8 extra) in
    said Role.system reviser_system_prompt
    ∷ said Role.user (
        "Original plan:\n"
        <> format_plan plan
        <> "\n\nAttempt "
        <> show iteration
        <> " failed.\n\n"
        <> wrap_untrusted "test output" (format_failures outcomes) 8000
        <> "\n\nAnalysis: "
        <> analysis.likely_cause
        <> "\nSuggested fix: "
        <> analysis.suggested_fix
        <> "\nCaused by our change: "
        <> show_bool analysis.caused_by_our_change
        <> "\n\n"
        <> (if is_empty extra_block
            then ""
            else wrap_untrusted "additional code" extra_block 16000 <> "\n\n")
        <> "Revise the implementation.")
    ∷ []

unfoldable pub diagnose_messages : ImplementationPlan → List TestOutcome → List Message
unfolding format_plan format_failures wrap_untrusted
diagnose_messages plan outcomes =
    said Role.system
      "You are diagnosing a failed test run. Be concrete and specific. If the failure shows the original root cause was wrong, say so. Set is_recoverable to false if further attempts are unlikely to help, for example a missing dependency or an environment problem rather than a code bug."
    ∷ said Role.user (
        "We attempted this change:\n"
        <> format_plan plan
        <> "\n\n"
        <> wrap_untrusted "test output" (format_failures outcomes) 8000
        <> "\n\nDiagnose the failure.")
    ∷ []

unfoldable pub verify_messages :
    ImplementationPlan → (diff_text test_result : String) → List Message
unfolding format_plan wrap_untrusted
verify_messages plan diff_text test_result =
    said Role.system
      "You are reviewing your own completed change before a human sees it. Be critical. Report unrelated changes, missing tests and anything you are unsure about. A concern raised now is far cheaper than one found in review."
    ∷ said Role.user (
        "Plan:\n"
        <> format_plan plan
        <> "\n\nTest result: "
        <> test_result
        <> "\n\n"
        <> wrap_untrusted "final diff" diff_text 20000
        <> "\n\nVerify this change against the plan.")
    ∷ []
