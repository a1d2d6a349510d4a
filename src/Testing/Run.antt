-- ===== src/Testing/Run.antt =====
-- agent/testing.py, `targeted_command` and `run_tests`: the tests of the plan first, then the whole
-- suite. What the sandbox raises passes through.
use pullsmith.Common.{
  ℕ, ◌⊎◌, inl, inr, String, Option, none, some, List, [], ◌∷◌, ◌++◌, not, ◌||◌, if◌then◌else◌,
  is_nil, or_else, or_text, is_empty, str_eq, words,
}
use pullsmith.RepoMap.{RepositoryMap}
use pullsmith.Sandbox.{ExecResult, SandboxRunner}
use pullsmith.Testing.{TestOutcome}
use pullsmith.Testing.Parse.{parse_test_output}

unfoldable targeted_command : RepositoryMap → List String → Option (List String)
targeted_command mapping test_paths =
    let framework = or_else mapping.test_framework "" in
    if is_nil test_paths || is_empty (or_text mapping.test_command "")
    then none
    else if str_eq framework "pytest"
    then some ("pytest" ∷ "-q" ∷ test_paths)
    else if str_eq framework "vitest"
    then some ("npx" ∷ "vitest" ∷ "run" ∷ test_paths)
    else if str_eq framework "jest"
    then some ("npx" ∷ "jest" ∷ "--ci" ∷ test_paths)
    else if str_eq framework "go test"
    then some ("go" ∷ "test" ∷ test_paths)
    else none

abbrev pub test_timeout_seconds : ℕ
test_timeout_seconds = 600

abbrev pub targeted_timeout_seconds : ℕ
targeted_timeout_seconds = 240

-- The outcomes, or the text of what was raised.
abbrev pub Tested : Type 0 → Type 0
Tested World = (String ⊎ List TestOutcome) × World

module _ {World : Type 0} (sandbox : SandboxRunner World) (mapping : RepositoryMap) where
  -- What comes of a command: its outcome after the earlier ones, and what is done then.
  unfoldable pub on_result :
      (earlier : List TestOutcome)
      → (TestOutcome → World → Tested World)
      → (String ⊎ ExecResult) × World
      → Tested World
  on_result earlier more (inl raised, world) = (inl raised, world)
  on_result earlier more (inr result, world) =
      more (parse_test_output result mapping.test_framework) world

  unfoldable pub run_full : (command : String) → (earlier : List TestOutcome) → World → Tested World
  unfolding on_result words
  run_full command earlier world =
      on_result earlier (λ outcome w. (inr (earlier ++ outcome ∷ []), w))
        (sandbox.run (words command) test_timeout_seconds world)

  -- A failing targeted run is the answer already.
  unfoldable pub after_targeted : (command : String) → TestOutcome → World → Tested World
  unfolding run_full
  after_targeted command outcome world =
      let full = run_full command (outcome ∷ []) world in
      if not outcome.passed then (inr (outcome ∷ []), world) else full

  unfoldable pub run_targeted : (command : String) → Option (List String) → World → Tested World
  unfolding run_full after_targeted on_result
  run_targeted command none world = run_full command [] world
  run_targeted command (some targeted) world =
      on_result [] (after_targeted command) (sandbox.run targeted targeted_timeout_seconds world)

  -- A command that is none or empty is no command.
  unfoldable pub run_tests : (test_paths : List String) → World → Tested World
  unfolding run_targeted targeted_command
  run_tests test_paths world =
      let command = or_text mapping.test_command "" in
      if is_empty command
      then (inr [], world)
      else run_targeted command (targeted_command mapping test_paths) world
