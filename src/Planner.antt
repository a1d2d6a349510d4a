-- ===== src/Planner.antt =====
-- agent/planner.py: the reading of an issue and the plan of a change. Planning is read-only.
pub mod ReadOnly
use pullsmith.Common.{
  ◌⊎◌, inl, inr, String, Bool, true, false, Option, none, some, List, [], ◌∷◌, map, leb,
  if◌then◌else◌, length, ◌-◌, is_nil, take, join, show, or_text, ◌<>◌,
}
use pullsmith.Schemas.{IssueAnalysis, ImplementationPlan, confidence_name}
use pullsmith.Safety.{wrap_untrusted}
use pullsmith.Retrieval.{RetrievedChunk, citation, qualified_name}
use pullsmith.Llm.{Role, Message, Usage}
use pullsmith.Tools.{Tool}
use pullsmith.Loop.{LoopLimits, LoopOutcome}
use pullsmith.Phases.{
  Raised, Provider, Phase, said, return, call, tool_loop, structured, conclude, ◌>>=◌, ◌>>◌,
}

abbrev analyst_system_prompt : String
analyst_system_prompt =
    "You are a senior software engineer triaging a bug report before any code is written.\n\nRead the issue and restate it precisely. Extract only what the issue actually says: do not\ninvent reproduction steps, error messages or file names that are not there.\n\nYour output drives an automated code search, so the search_queries you produce matter. Write\nthem as a developer would search: describe the behaviour and the area of the codebase, not\nthe words of the issue title.\n\nIf the issue is too vague to act on, set is_actionable to false and say what is missing.\nGuessing is worse than asking.\n"

abbrev planner_system_prompt : String
planner_system_prompt =
    "You are a senior software engineer planning a minimal, targeted fix.\n\nYou have retrieved code and read-only tools. Use them to confirm what the code actually does\nbefore forming an opinion - retrieved snippets can be out of date, so read the real file\nbefore relying on it.\n\nRules:\n- Prefer the smallest change that fixes the issue. Do not refactor unrelated code.\n- Follow the conventions already present in the repository.\n- Treat your root cause as a hypothesis until tests confirm it.\n- If you find related problems outside this issue, list them as out_of_scope instead of\n  fixing them.\n- Name the tests that should prove the fix works.\n\nYou are planning only. You cannot modify files in this phase.\n"

abbrev retrieved_block_of : RetrievedChunk → String
retrieved_block_of chunk =
    "### " <> citation chunk <> "  (" <> qualified_name chunk <> ")\n" <> chunk.content

unfoldable pub format_retrieved : List RetrievedChunk → String
unfolding join citation qualified_name
format_retrieved chunks =
    if is_nil chunks
    then "No code was retrieved for this issue."
    else join "\n\n" (map retrieved_block_of (take 12 chunks))

unfoldable analysis_messages :
    (issue_title : String)
    → (issue_body : Option String) → (repository_summary : String) → List Message
unfolding wrap_untrusted
analysis_messages issue_title issue_body repository_summary =
    let issue_text =
      "Title: " <> issue_title <> "\n\n" <> or_text issue_body "(no description provided)" in
    said Role.system analyst_system_prompt
    ∷ said Role.user (
        "Repository context:\n"
        <> or_text (some repository_summary) "(not available)"
        <> "\n\n"
        <> wrap_untrusted "github issue" issue_text 8000
        <> "\n\nAnalyse this issue.")
    ∷ []

unfoldable pub analyse_issue :
    {World : Type 0}
    → Provider World
    → (issue_title : String) → (issue_body : Option String) → (repository_summary : String) → World
    → (Raised ⊎ (IssueAnalysis × Usage)) × World
unfolding structured analysis_messages
analyse_issue provider issue_title issue_body repository_summary world =
    structured provider provider.issue_analysis
      (analysis_messages issue_title issue_body repository_summary) world

unfoldable pub plan_messages :
    IssueAnalysis → List RetrievedChunk → (repository_summary : String) → List Message
unfolding format_retrieved wrap_untrusted join
plan_messages analysis retrieved repository_summary =
    said Role.system planner_system_prompt
    ∷ said Role.user (
        "Repository:\n"
        <> or_text (some repository_summary) "(not available)"
        <> "\n\nProblem: "
        <> analysis.problem_summary
        <> "\nExpected: "
        <> analysis.expected_behaviour
        <> "\nActual: "
        <> analysis.actual_behaviour
        <> "\nAcceptance criteria: "
        <> or_text (some (join ", " analysis.acceptance_criteria)) "not stated"
        <> "\n\n"
        <> wrap_untrusted "retrieved code" (format_retrieved retrieved) 24000
        <> "\n\nInvestigate with the read-only tools until you can explain the cause, then produce an implementation plan.")
    ∷ []

unfoldable pub build_plan :
    {World : Type 0}
    → Provider World
    → List (Tool World)
    → IssueAnalysis
    → List RetrievedChunk
    → (repository_summary : String) → (limits : Option LoopLimits)
    → Phase World (ImplementationPlan × LoopOutcome)
unfolding tool_loop conclude plan_messages
build_plan provider tools analysis retrieved repository_summary limits = do
  outcome ←
      tool_loop provider tools (plan_messages analysis retrieved repository_summary) limits false
  concluded ← call (
      conclude provider provider.implementation_plan outcome
        "Produce the implementation plan now, based on what you inspected. Keep the change minimal and list anything deliberately left out of scope.")
  return (concluded.0, concluded.1)

unfoldable pub plan_summary : ImplementationPlan → String
unfolding join show confidence_name
plan_summary plan =
    let count = length plan.proposed_changes in
    let files = join ", " (map (λ c. c.path) (take 5 plan.proposed_changes)) in
    let extra = if leb count 5 then "" else " (+" <> show (count - 5) <> " more)" in
    "Plan: "
    <> show count
    <> " file(s) to change ["
    <> files
    <> extra
    <> "]. Root-cause confidence: "
    <> confidence_name plan.root_cause_confidence
    <> "."
