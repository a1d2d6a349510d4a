-- ===== src/Testing.antt =====
-- agent/testing.py: what a run of the tests came to. `describe` of `TestOutcome` is here, the
-- reading of a runner's output and the running in the children.
pub mod Patterns
pub mod Parse
pub mod Run
pub mod Honest
use pullsmith.Common.{
  ℕ, zero, suc, ◌/◌, String, Bool, Option, none, some, List, [], ◌∷◌, not, ◌&&◌, if◌then◌else◌, all,
  is_nil, take, ℤ, show_int, show, ◌<>◌, join,
}

pub record TestOutcome : Type 0 where
  pub command : List String
  pub passed : Bool
  pub exit_code : ℤ
  pub duration_ms : ℕ
  pub timed_out : Bool
  pub tests_passed : Option ℕ
  pub tests_failed : Option ℕ
  pub tests_skipped : Option ℕ
  pub failing_tests : List String
  pub output_summary : String
  pub runner_error : Bool

-- A count of none and a count of 0 are both false.
abbrev pub counted : Option ℕ → String
counted none = "suite passed"
counted (some zero) = "suite passed"
counted (some (suc n)) = show (suc n) <> " passed"

abbrev number_failed : Option ℕ → String
number_failed none = "some"
number_failed (some n) = show n

abbrev named_suffix : String → String
named_suffix String.[] = ""
named_suffix (String.◌∷◌ c s) = ": " <> String.◌∷◌ c s

unfoldable pub describe : TestOutcome → String
unfolding join show show_int
describe o =
    if o.timed_out
    then "Tests timed out after " <> show (o.duration_ms / 1000) <> "s"
    else if o.runner_error
    then "Test runner could not execute (exit " <> show_int o.exit_code <> ")"
    else if o.passed
    then "Tests passed (" <> counted o.tests_passed <> ")"
    else number_failed o.tests_failed
      <> " test(s) failed"
      <> named_suffix (join ", " (take 5 o.failing_tests))

-- No tests are no success.
unfoldable pub all_passed : List TestOutcome → Bool
all_passed outcomes = not (is_nil outcomes) && all (λ o. o.passed) outcomes
