-- ===== src/Testing/Honest.antt =====
-- agent/testing.py: what a passed test run stands for.
use pullsmith.Common.{
  ℕ, if-cases, ◌≡◌, refl, ◌⊎◌, inl, inr, String, true, false, Option, none, some, List, [], ◌∷◌,
  ◌++◌, not, ◌&&◌, arith, Bool-cases, &&-left, &&-right, is_empty, or_text, int_eq, pos, negsuc,
  words, ℤ, is_nil, all,
}
use pullsmith.RepoMap.{RepositoryMap}
use pullsmith.Sandbox.{ExecResult, is_ok, SandboxRunner}
use pullsmith.Testing.{TestOutcome, all_passed}
use pullsmith.Testing.Parse.{
  parse_test_output, with_verdict, unread_outcome, read_by, read_pytest, pytest_broken,
}
use pullsmith.Testing.Run.{
  Tested, after_targeted, on_result, run_full, run_targeted, run_tests, test_timeout_seconds,
  targeted_timeout_seconds,
}

int_eq-zero : (n : ℤ) → int_eq n 0 ≡ true → n ≡ pos 0
int_eq-zero (pos n) h = ground arith
int_eq-zero (negsuc n) h = cc

with_verdict-passed :
    (result : ExecResult) (unread read : TestOutcome)
    → (with_verdict result unread read).passed ≡ true
    → (result.exit_code ≡ pos 0)
      × (result.timed_out ≡ false)
      × ((with_verdict result unread read).runner_error ≡ false)
unfolding with_verdict is_ok
with_verdict-passed result unread read h = elim (Bool-cases result.timed_out) [
  | inl late ↦ absurd (cc (rw late at h))
  | inr in_time ↦ rw in_time (
      let h' : ((int_eq result.exit_code 0 && true) && not read.runner_error) ≡ true =
        rw in_time at h in
      (int_eq-zero _ (&&-left _ _ (&&-left _ _ h')), refl, ground arith))
]

-- A command whose output was read as a passed test run exited with 0, within its time, and its
-- runner did execute, whatever the framework and the output are.
pub parse_test_output-passed :
    (result : ExecResult) (framework : Option String)
    → (parse_test_output result framework).passed ≡ true
    → (result.exit_code ≡ pos 0)
      × (result.timed_out ≡ false)
      × ((parse_test_output result framework).runner_error ≡ false)
unfolding parse_test_output
parse_test_output-passed result framework h =
    with_verdict-passed result (unread_outcome result)
      (read_by framework result (unread_outcome result)) h

all-last :
    (earlier : List TestOutcome) (o : TestOutcome)
    → all (λ o. o.passed) (earlier ++ o ∷ []) ≡ true
    → o.passed ≡ true
all-last [] o h = &&-left _ _ h
all-last (e ∷ earlier) o h = all-last earlier o (&&-right _ _ h)

all-green :
    {outcomes ending : List TestOutcome}
    → outcomes ≡ ending
    → all_passed outcomes ≡ true
    → all (λ o. o.passed) ending ≡ true
unfolding all_passed
all-green {outcomes} e h =
    rw e at (&&-right (not (is_nil outcomes)) (all (λ o. o.passed) outcomes) h)

-- The last outcome is that of a run of the whole suite.
pub record IsSuiteRun {World : Type 0} (sandbox : SandboxRunner World) (mapping : RepositoryMap)
    (outcomes : List TestOutcome) : Type 0 where
  pub command : String
  pub detected : or_text mapping.test_command "" ≡ command
  pub non_empty : is_empty command ≡ false
  pub earlier : List TestOutcome
  pub before : World
  pub after : World
  pub result : ExecResult
  pub ran : sandbox.run (words command) test_timeout_seconds before ≡ (inr result, after)
  pub ends_with_it : outcomes ≡ earlier ++ parse_test_output result mapping.test_framework ∷ []
  pub exited_with_zero : result.exit_code ≡ pos 0
  pub in_time : result.timed_out ≡ false

module _ {World : Type 0} (sandbox : SandboxRunner World) (mapping : RepositoryMap) where
  on_result-returned :
      (earlier : List TestOutcome) (more : TestOutcome → World → Tested World)
      (r : (String ⊎ ExecResult) × World) {outcomes : List TestOutcome} {left : World}
      → on_result sandbox mapping earlier more r ≡ (inr outcomes, left)
      → (result : ExecResult) × (after : World) × (r ≡ (inr result, after))
        × (more (parse_test_output result mapping.test_framework) after ≡ (inr outcomes, left))
  unfolding on_result
  on_result-returned earlier more (inl raised, after) e = cc
  on_result-returned earlier more (inr result, after) e = (result, after, refl, e)

  module _ (command : String) (detected : or_text mapping.test_command "" ≡ command)
      (non_empty : is_empty command ≡ false) where
    run_full-suite :
        (earlier : List TestOutcome) (world : World) {outcomes : List TestOutcome} {left : World}
        → run_full sandbox mapping command earlier world ≡ (inr outcomes, left)
        → all_passed outcomes ≡ true
        → IsSuiteRun sandbox mapping outcomes
    unfolding run_full all_passed
    run_full-suite earlier world {outcomes} ran green =
        let (result, after, at_sandbox, returned) =
          on_result-returned earlier (λ outcome w. (inr (earlier ++ outcome ∷ []), w))
            (sandbox.run (words command) test_timeout_seconds world) ran in
        let outcome = parse_test_output result mapping.test_framework in
        let ends : outcomes ≡ earlier ++ outcome ∷ [] = cc in
        let passed = all-last earlier outcome (all-green ends green) in
        let facts = parse_test_output-passed result mapping.test_framework passed in
        record {
          command = command;
          detected = detected;
          non_empty = non_empty;
          earlier = earlier;
          before = world;
          after = after;
          result = result;
          ran = at_sandbox;
          ends_with_it = ends;
          exited_with_zero = facts.0;
          in_time = facts.1;
        }

    after_targeted-suite :
        (outcome : TestOutcome) (world : World) {outcomes : List TestOutcome} {left : World}
        → after_targeted sandbox mapping command outcome world ≡ (inr outcomes, left)
        → all_passed outcomes ≡ true
        → IsSuiteRun sandbox mapping outcomes
    unfolding after_targeted
    after_targeted-suite outcome world {outcomes} {left} ran green =
        elim (if-cases (not outcome.passed) ran) [
          | inr (passed, full) ↦ run_full-suite (outcome ∷ []) world full green
          | inl (red, stopped) ↦
              let ends : outcomes ≡ outcome ∷ [] = cc in
              absurd (let passed = all-last [] outcome (all-green ends green) in ground arith)
        ]

    run_targeted-suite :
        (targeted : Option (List String)) (world : World) {outcomes : List TestOutcome}
        {left : World}
        → run_targeted sandbox mapping command targeted world ≡ (inr outcomes, left)
        → all_passed outcomes ≡ true
        → IsSuiteRun sandbox mapping outcomes
    unfolding run_targeted
    run_targeted-suite none world ran green = run_full-suite [] world ran green
    run_targeted-suite (some targeted) world ran green =
        let (result, after, at_sandbox, returned) =
          on_result-returned [] (after_targeted sandbox mapping command)
            (sandbox.run targeted targeted_timeout_seconds world) ran in
        after_targeted-suite (parse_test_output result mapping.test_framework) after returned green

  -- A green verdict rests on the whole suite: when the tests were run and every outcome passed, the
  -- repository has a test command, and the last outcome is that of a run of this command which
  -- exited with 0 within its time; a run of the tests that the plan names is never enough.
  pub run_tests-suite :
      (test_paths : List String) (world : World) {outcomes : List TestOutcome} {left : World}
      → run_tests sandbox mapping test_paths world ≡ (inr outcomes, left)
      → all_passed outcomes ≡ true
      → IsSuiteRun sandbox mapping outcomes
  unfolding run_tests all_passed
  run_tests-suite test_paths world ran green =
      elim (Bool-cases (is_empty (or_text mapping.test_command ""))) [
        | inl absent ↦ absurd (let e = rw absent at ran in cc)
        | inr present ↦ run_targeted-suite _ refl present _ world (rw present at ran) green
      ]

five_is_broken :
    (result : ExecResult) (n : Option ℕ) → result.exit_code ≡ pos 5 → pytest_broken result n ≡ true
unfolding pytest_broken
five_is_broken result n five = rw five refl

with_verdict-runner_error :
    (result : ExecResult) (unread read : TestOutcome)
    → unread.runner_error ≡ false
    → (read.runner_error ≡ true → (read.tests_failed ≡ none) × (read.failing_tests ≡ []))
      × (result.exit_code ≡ pos 5 → read.runner_error ≡ true)
    → (let o = with_verdict result unread read in
        (o.runner_error ≡ true
          → (o.passed ≡ false) × (o.tests_failed ≡ none) × (o.failing_tests ≡ []))
        × (result.exit_code ≡ pos 5 → result.timed_out ≡ false → o.runner_error ≡ true))
unfolding with_verdict
with_verdict-runner_error result unread read quiet (silent, five_shows) =
    elim (Bool-cases result.timed_out) [
      | inl late ↦ rw late (
        λ broken. absurd (let e : unread.runner_error ≡ true = broken in cc),
        λ five in_time. absurd cc,
      )
      | inr on_time ↦ rw on_time (
        λ broken. let facts = silent broken in (ground arith, facts.0, facts.1),
        λ five in_time. five_shows five,
      )
    ]

read_pytest-runner_error :
    (result : ExecResult) (o : TestOutcome)
    → (let read = read_pytest result o in
        (read.runner_error ≡ true → (read.tests_failed ≡ none) × (read.failing_tests ≡ []))
        × (result.exit_code ≡ pos 5 → read.runner_error ≡ true))
unfolding read_pytest
read_pytest-runner_error result o =
    (λ broken. (rw broken refl, rw broken refl), five_is_broken result _)

-- pytest: a run that is reported as an error of the runner, a run without tests (exit code 5)
-- among them, is not passed, and no count and no name of a failing test is reported for it; and a
-- run that exited with 5 within its time is reported so.
pub parse_test_output-runner_error :
    (result : ExecResult)
    → (let o = parse_test_output result (some "pytest") in
        (o.runner_error ≡ true
          → (o.passed ≡ false) × (o.tests_failed ≡ none) × (o.failing_tests ≡ []))
        × (result.exit_code ≡ pos 5 → result.timed_out ≡ false → o.runner_error ≡ true))
unfolding parse_test_output read_by
parse_test_output-runner_error result =
    with_verdict-runner_error result (unread_outcome result)
      (read_pytest result (unread_outcome result)) refl
      (read_pytest-runner_error result (unread_outcome result))
