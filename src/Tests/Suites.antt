-- ===== src/Tests/Suites.antt =====
-- The theorems on test runs, applied to a sandbox whose world counts the commands it ran.
use pullsmith.Common.{◌≡◌, refl, inr, ℕ, ◌+◌, true, false, none, some, List, [], ◌∷◌, pos, negsuc}
use pullsmith.RepoMap.{RepositoryMap}
use pullsmith.Sandbox.{ExecResult, SandboxRunner}
use pullsmith.Testing.{TestOutcome, all_passed, describe}
use pullsmith.Testing.Patterns.{js_failed, js_failure_names, pytest_counts}
use pullsmith.Testing.Parse.{parse_test_output}
use pullsmith.Testing.Run.{run_tests}
use pullsmith.Testing.Honest.{
  IsSuiteRun, parse_test_output-passed, parse_test_output-runner_error, run_tests-suite,
}

abbrev pub green_result : ExecResult
green_result = record {
  argv = "pytest" ∷ "-q" ∷ [];
  exit_code = pos 0;
  stdout = "..... [100%]\n5 passed, 1 skipped in 3.2s";
  stderr = "";
  duration_ms = 3200;
  timed_out = false;
}

abbrev red_result : ExecResult
red_result = record green_result {
  exit_code = pos 1;
  stdout = "F.\nFAILED tests/test_a.py::test_one - assert 1 == 2\n1 failed, 4 passed in 0.1s";
}

abbrev empty_result : ExecResult
empty_result = record green_result { exit_code = pos 5; stdout = "no tests ran in 0.01s" }

counts_read : pytest_counts "1 failed, 4 passed" ≡ (1, "failed") ∷ (4, "passed") ∷ []
unfolding pytest_counts
counts_read = refl

red_read :
    describe (parse_test_output red_result (some "pytest"))
    ≡ "1 test(s) failed: tests/test_a.py::test_one"
unfolding describe parse_test_output
red_read = refl

empty_read :
    describe (parse_test_output empty_result (some "pytest"))
    ≡ "Test runner could not execute (exit 5)"
unfolding describe parse_test_output
empty_read = refl

killed_read :
    describe (
      parse_test_output
        (record red_result { exit_code = negsuc 8; stdout = "sh: jest: command not found" })
        (some "jest"))
    ≡ "Test runner could not execute (exit -9)"
unfolding describe parse_test_output
killed_read = refl

js_read : js_failed "files  1 failed\ntests  3 failed | 8 passed (11)" ≡ some 3
unfolding js_failed
js_read = refl

js_names : js_failure_names "  ✕ adds\n FAIL  src/a.test.ts\n" ≡ "adds" ∷ "src/a.test.ts" ∷ []
unfolding js_failure_names
js_names = refl

abbrev pub mapping : RepositoryMap
mapping = record {
  languages = ("python", 3) ∷ [];
  primary_language = some "python";
  package_managers = "pip" ∷ [];
  frameworks = "FastAPI" ∷ [];
  test_framework = some "pytest";
  test_command = some "pytest -q";
  lint_command = none;
  typecheck_command = none;
  build_command = none;
  install_command = none;
  entry_points = [];
  test_paths = [];
  config_files = [];
  file_count = 3;
  test_file_count = 1;
}

-- A sandbox whose world counts what it ran, in which every run gives one result.
abbrev pub always : ExecResult → SandboxRunner ℕ
always result = record {
  prepare = λ spec w. (inr tt, w);
  run = λ argv timeout w. (inr result, w + 1);
  cleanup = λ w. (inr tt, w);
}

abbrev greens : List TestOutcome
greens =
    parse_test_output green_result (some "pytest")
    ∷ parse_test_output green_result (some "pytest")
    ∷ []

both_run : run_tests (always green_result) mapping ("tests/test_a.py" ∷ []) 0 ≡ (inr greens, 2)
unfolding run_tests parse_test_output
both_run = refl

one_run :
    run_tests (always red_result) mapping ("tests/test_a.py" ∷ []) 0
    ≡ (inr (parse_test_output red_result (some "pytest") ∷ []), 1)
unfolding run_tests parse_test_output
one_run = refl

greens-pass : all_passed greens ≡ true
unfolding all_passed parse_test_output
greens-pass = refl

run_tests-suite_example : IsSuiteRun (always green_result) mapping greens
run_tests-suite_example =
    run_tests-suite (always green_result) mapping ("tests/test_a.py" ∷ []) 0 both_run greens-pass

green_read : (parse_test_output green_result (some "pytest")).passed ≡ true
unfolding parse_test_output
green_read = refl

parse_test_output-passed_example :
    (green_result.exit_code ≡ pos 0)
    × (green_result.timed_out ≡ false)
    × ((parse_test_output green_result (some "pytest")).runner_error ≡ false)
parse_test_output-passed_example = parse_test_output-passed green_result (some "pytest") green_read

parse_test_output-runner_error_example :
    let o = parse_test_output empty_result (some "pytest") in
    (o.runner_error ≡ true → (o.passed ≡ false) × (o.tests_failed ≡ none) × (o.failing_tests ≡ []))
    × (empty_result.exit_code ≡ pos 5 → empty_result.timed_out ≡ false → o.runner_error ≡ true)
parse_test_output-runner_error_example = parse_test_output-runner_error empty_result
