-- ===== src/Testing/Parse.antt =====
-- agent/testing.py, `parse_test_output`: a runner's output as facts. Each framework's reader gives
-- the outcome as it leaves it, and the verdict comes last.
use pullsmith.Common.{
  ℕ, zero, suc, String, Bool, true, false, Option, none, some, List, [], ◌∷◌, map, not, ◌&&◌, ◌||◌,
  if◌then◌else◌, int_eq, is_some, is_in, or_else, length, take, str_eq, strip, lower, contains_text,
  ◌<>◌,
}
use pullsmith.Sandbox
use pullsmith.Sandbox.{ExecResult, is_ok}
use pullsmith.Testing.{TestOutcome}
use pullsmith.Testing.Patterns.{
  pytest_counts, failures_titled, mentions, runner_broken, collect_error, js_runner_error,
  js_failed, js_passed, js_failure_names,
}

unfoldable combined_output : ExecResult → String
combined_output result = result.stdout <> "\n" <> result.stderr

unfoldable pub unread_outcome : ExecResult → TestOutcome
unfolding is_ok Sandbox.summary
unread_outcome result = record {
  command = result.argv;
  passed = is_ok result;
  exit_code = result.exit_code;
  duration_ms = result.duration_ms;
  timed_out = result.timed_out;
  tests_passed = none;
  tests_failed = none;
  tests_skipped = none;
  failing_tests = [];
  output_summary = Sandbox.summary 4000 result;
  runner_error = false;
}

-- `counts.get(name)`: of two counts of a name the later one stands in the dict.
unfoldable last_count : String → List (ℕ × String) → Option ℕ
last_count name [] = none
last_count name ((n, word) ∷ more) =
    let later = last_count name more in
    if is_some later then later else if str_eq word name then some n else none

-- `a or b`: a count of 0 is false.
abbrev or_count : Option ℕ → Option ℕ → Option ℕ
or_count none b = b
or_count (some zero) b = b
or_count (some (suc n)) b = some (suc n)

abbrev has_count : Option ℕ → Bool
has_count none = false
has_count (some zero) = false
has_count (some (suc n)) = true

unfoldable pytest_failed : List (ℕ × String) → Option ℕ
unfolding last_count
pytest_failed counts =
    or_count (or_count (last_count "failed" counts) (last_count "error" counts))
      (last_count "errors" counts)

-- Whether the runner of pytest did not run the tests.
unfoldable pub pytest_broken : ExecResult → (tests_failed : Option ℕ) → Bool
unfolding is_ok mentions combined_output
pytest_broken result tests_failed =
    int_eq result.exit_code 5
    || ((not (is_ok result) && mentions runner_broken (combined_output result))
        || (not (is_ok result)
            && (not (has_count tests_failed) && mentions collect_error (combined_output result))))

unfoldable pub read_pytest : ExecResult → TestOutcome → TestOutcome
unfolding pytest_counts pytest_failed last_count failures_titled pytest_broken combined_output
read_pytest result outcome =
    let counts = pytest_counts (combined_output result) in
    let broken = pytest_broken result (pytest_failed counts) in
    record outcome {
      tests_passed = last_count "passed" counts;
      tests_failed = if broken then none else pytest_failed counts;
      tests_skipped = last_count "skipped" counts;
      failing_tests =
          if broken then [] else take 20 (failures_titled "FAILED" (combined_output result));
      runner_error = broken;
    }

unfoldable read_js : ExecResult → TestOutcome → TestOutcome
unfolding js_failed js_passed js_failure_names mentions is_ok lower strip combined_output
read_js result outcome =
    let combined = combined_output result in
    record outcome {
      tests_failed = js_failed (lower combined);
      tests_passed = js_passed (lower combined);
      failing_tests = take 20 (map strip (js_failure_names combined));
      runner_error = not (is_ok result) && mentions js_runner_error combined;
    }

unfoldable read_go : ExecResult → TestOutcome → TestOutcome
unfolding failures_titled combined_output
read_go result outcome =
    let failing = take 20 (failures_titled "--- FAIL:" (combined_output result)) in
    record outcome { failing_tests = failing; tests_failed = or_count (some (length failing)) none }

unfoldable read_unknown : ExecResult → TestOutcome → TestOutcome
unfolding contains_text lower is_ok combined_output
read_unknown result outcome = record outcome {
  runner_error = not (is_ok result) && contains_text "not found" (lower (combined_output result));
}

-- The framework none equals no name.
unfoldable pub read_by : Option String → ExecResult → TestOutcome → TestOutcome
unfolding read_pytest read_js read_go read_unknown is_in
read_by framework result outcome =
    let name = or_else framework "" in
    if str_eq name "pytest"
    then read_pytest result outcome
    else if is_in ("vitest" ∷ "jest" ∷ "playwright" ∷ []) name
    then read_js result outcome
    else if str_eq name "go test"
    then read_go result outcome
    else read_unknown result outcome

-- A timed-out run is not read; otherwise the verdict comes last.
unfoldable pub with_verdict : ExecResult → (unread read : TestOutcome) → TestOutcome
unfolding is_ok
with_verdict result unread read =
    if result.timed_out
    then record unread { passed = false }
    else record read { passed = is_ok result && not read.runner_error }

unfoldable pub parse_test_output : ExecResult → (framework : Option String) → TestOutcome
unfolding unread_outcome read_by with_verdict
parse_test_output result framework =
    let unread = unread_outcome result in
    with_verdict result unread (read_by framework result unread)
