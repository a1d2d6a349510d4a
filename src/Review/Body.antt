-- ===== src/Review/Body.antt =====
-- services/review_service.py, `pull_request_body`.
use pullsmith.Common.{ℕ, String, List, map, is_nil, if◌then◌else◌, join, show, ◌<>◌}
use pullsmith.Db.{AgentPlan, RunDiff}

abbrev warning_block : List String → String
warning_block warnings =
    if is_nil warnings then "- none" else join "\n" (map (λ w. "- " <> w) warnings)

unfoldable pub pull_request_body :
    (issue_number : ℕ) → AgentPlan → RunDiff → (test_summary : String) → (iterations : ℕ) → String
unfolding show join
pull_request_body issue_number plan diff test_summary iterations =
    "## Summary\n\n"
    <> plan.problem_understanding
    <> "\n\nCloses #"
    <> show issue_number
    <> "\n\n## Suspected root cause\n\n"
    <> plan.suspected_root_cause
    <> "\n\nConfidence: **"
    <> plan.root_cause_confidence
    <> "**\n\n## Verification\n\n"
    <> plan.verification_strategy
    <> "\n\nResult: "
    <> test_summary
    <> "\nAttempts required: "
    <> show iterations
    <> "\n\n## Changes\n\n"
    <> show diff.files_changed
    <> " file(s), +"
    <> show diff.lines_added
    <> "/-"
    <> show diff.lines_removed
    <> " lines.\n\n## Risk assessment\n\n**"
    <> diff.risk_level
    <> "** (heuristic score "
    <> show diff.risk_score
    <> ", for reviewer attention, not a\nsecurity guarantee)\n\n"
    <> warning_block diff.risk_warnings
    <> "\n\n---\n\nGenerated by an AI software engineering agent and approved by a human reviewer before this\npull request was opened. The root cause above is the agent's hypothesis; the test result is\nthe objective evidence.\n"
