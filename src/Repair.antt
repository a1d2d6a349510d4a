-- ===== src/Repair.antt =====
-- agent/repair.py: attempts and their result, and the calls of the model. The loop of
-- `implement_and_repair`, a round for each iteration, is in Rounds, the texts are in Prompts.
pub mod Prompts
pub mod Rounds
pub mod Verified
pub mod Evident
use pullsmith.Common.{
  ℕ, zero, suc, ◌+◌, ◌⊎◌, inl, inr, String, Bool, true, false, Option, none, some, List, [], ◌∷◌,
  ◌++◌, map, not, leb, ◌==◌, if◌then◌else◌, length, is_nil, show, ◌<>◌, take_text, last_piece,
  or_else,
}
use pullsmith.Db.{Json, num, bool, text, texts}
use pullsmith.Schemas.{FailureAnalysis, ImplementationPlan, VerificationResult}
use pullsmith.Llm.{Message, Usage, no_usage, add_usage}
use pullsmith.Tools.{Tool}
use pullsmith.Loop.{LoopLimits, default_limits}
use pullsmith.RepoMap.{RepositoryMap}
use pullsmith.Retrieval.{RetrievedChunk}
use pullsmith.Sandbox.{SandboxRunner}
use pullsmith.Testing.{TestOutcome, describe, all_passed}
use pullsmith.Testing.Run.{run_tests}
use pullsmith.Phases.{
  Raised, Provider, Phase, return, call, text_crashed, report, on_context, tool_loop, structured,
  conclude, ◌>>=◌, ◌>>◌,
}
use pullsmith.Repair.Prompts.{
  implement_messages, revise_messages, diagnose_messages, verify_messages, failing_tests_of,
}

pub record Attempt : Type 0 where
  pub iteration : ℕ
  pub test_outcomes : List TestOutcome
  pub failure_analysis : Option FailureAnalysis
  pub tool_calls : ℕ

unfoldable pub has_passed : Attempt → Bool
unfolding all_passed
has_passed attempt = all_passed attempt.test_outcomes

pub record RepairResult : Type 0 where
  pub succeeded : Bool
  pub attempts : List Attempt
  pub usage : Usage
  pub stopped_because : String

unfoldable pub iterations_used : RepairResult → ℕ
iterations_used result = length result.attempts

unfoldable pub describe_repair : RepairResult → String
unfolding iterations_used show
describe_repair result =
    if result.succeeded
    then "Tests passed after " <> show (iterations_used result) <> " attempt(s)"
    else "Stopped after "
      <> show (iterations_used result)
      <> " attempt(s): "
      <> result.stopped_because

-- The queries and the symbols of a failure lead to more code.
abbrev pub Retriever : Type 0 → Type 0
Retriever World = (queries symbols : List String) → World → (Raised ⊎ List RetrievedChunk) × World

-- A round ends the loop with the last attempt, or the next one starts from another conversation.
pub data Round : Type 0 where
  stopped : Attempt → (succeeded : Bool) → (why : String) → Usage → Round
  revised : Attempt → Usage → List Message → Round

abbrev pub analysed : FailureAnalysis → List (String × Json)
analysed analysis =
    ("message", text ("Failure analysed: " <> analysis.error_type))
    ∷ ("caused_by_our_change", bool analysis.caused_by_our_change)
    ∷ ("recoverable", bool analysis.is_recoverable)
    ∷ []

abbrev pub last_summary : List TestOutcome → String
last_summary [] = "no tests were run"
last_summary (o ∷ []) = describe o
last_summary (o ∷ p ∷ os) = last_summary (p ∷ os)

module _ {World : Type 0} (provider : Provider World) (tools : List (Tool World)) where
  unfoldable pub apply_changes : List Message → Option LoopLimits → Phase World (ℕ × Usage)
  unfolding tool_loop
  apply_changes messages limits = do
    outcome ← tool_loop provider tools messages limits true
    return (length outcome.tool_calls, outcome.usage)

  unfoldable pub analyse_failure :
      ImplementationPlan → List TestOutcome → Phase World (FailureAnalysis × Usage)
  unfolding structured diagnose_messages
  analyse_failure plan outcomes =
      call (structured provider provider.failure_analysis (diagnose_messages plan outcomes))

  -- Read-only; the limits none are those of five steps.
  unfoldable pub verify :
      ImplementationPlan
      → (diff_text : String) → List TestOutcome
      → Option LoopLimits
      → Phase World (VerificationResult × Usage)
  unfolding tool_loop conclude verify_messages
  verify plan diff_text outcomes limits = do
    let five_steps : LoopLimits = record default_limits { max_steps = 5 }
    outcome ←
        tool_loop provider tools (verify_messages plan diff_text (last_summary outcomes))
          (some (or_else limits five_steps)) false
    concluded ← call (
        conclude provider provider.verification_result outcome "Give your verification result now.")
    return (concluded.0, concluded.2)
