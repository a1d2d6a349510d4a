-- ===== src/Tests/Maps.antt =====
-- The map of two projects: one in JavaScript with Python requirements, and one with tests and no
-- dependencies.
use pullsmith.Common.{
  ◌≡◌, refl, ◌↔◌, ◌++◌, inr, String, true, false, none, some, List, [], ◌∷◌, is_in, contains_text,
}
use pullsmith.Tools.{execute, success}
use pullsmith.Testing.Parse.{parse_test_output}
use pullsmith.Testing.Honest.{IsSuiteRun}
use pullsmith.Repair.{Attempt, has_passed}
use pullsmith.Repair.Rounds.{implement_and_repair}
use pullsmith.Repair.Evident.{implement_and_repair-Evidence}
use pullsmith.Tests.Agent.{reading}
use pullsmith.Tests.Suites.{always, green_result}
use pullsmith.Tests.Repairs.{provider, plan, desk, repair_result}
use pullsmith.RepoMap.{RepositoryMap}
use pullsmith.RepoMap.Known.{PackageJson, Root, no_pyproject}
use pullsmith.RepoMap.Build.{ScannedFile, build}
use pullsmith.RepoMap.Evidence.{Evidence}
use pullsmith.RepoMap.Shown.{test_command-Evidence}

abbrev scripted : PackageJson
scripted = record {
  has_fields = true;
  dependencies = "react" ∷ [];
  dev_dependencies = "vite" ∷ "react" ∷ [];
  scripts = "test" ∷ "build" ∷ [];
}

abbrev mixed : Root
mixed = record {
  is_file = is_in ("package.json" ∷ "requirements.txt" ∷ "main.py" ∷ []);
  is_directory = λ path. false;
  text_at = λ path. "pytest==8";
  load_json = λ text. some scripted;
  load_toml = λ text. none;
}

abbrev bare : Root
bare = record {
  is_file = is_in ("pyproject.toml" ∷ "pytest.ini" ∷ []);
  is_directory = is_in ("tests" ∷ []);
  text_at = λ path. "";
  load_json = λ text. none;
  load_toml = λ text. some no_pyproject;
}

abbrev files : List ScannedFile
files =
    record { relative_path = "main.py"; language = some "python"; is_test = false }
    ∷ record { relative_path = "src/a.ts"; language = some "typescript"; is_test = false }
    ∷ record { relative_path = "src/b.ts"; language = some "typescript"; is_test = false }
    ∷ record { relative_path = "tests/a.py"; language = some "python"; is_test = true }
    ∷ record { relative_path = "README.md"; language = none; is_test = false }
    ∷ []

abbrev map_of : Root → RepositoryMap
map_of root = build root files

-- The command of one language and the framework of the other.
npm_with_pytest :
    (map_of mixed).test_command ≡ some "npm test"
    × (map_of mixed).test_framework ≡ some "pytest"
    × (map_of mixed).frameworks ≡ "React" ∷ "Vite" ∷ []
unfolding build is_in
npm_with_pytest = (refl, refl, refl)

-- Two languages with two files each: the one that was seen first.
languages_of :
    (map_of mixed).languages ≡ ("python", 2) ∷ ("typescript", 2) ∷ []
    × (map_of mixed).primary_language ≡ some "python"
    × (map_of mixed).test_paths ≡ "tests" ∷ []
unfolding build
languages_of = (refl, refl, refl)

-- Neither pytest.ini nor the directory of tests is looked at.
tests_missed : (map_of bare).test_command ≡ none
unfolding build is_in
tests_missed = refl

test_command-Evidence_example :
    ((c : String) → (map_of mixed).test_command ≡ some c → Evidence mixed c)
    × ((map_of mixed).test_command ≡ none ↔ ((c : String) → ¬ (Evidence mixed c)))
test_command-Evidence_example = test_command-Evidence mixed files

abbrev tested : Root
tested = record mixed { is_file = is_in ("requirements.txt" ∷ []) }

-- The first attempt passes.
green_at_once :
    implement_and_repair provider
      (reading ∷ [])
      (always green_result)
      (map_of tested)
      plan
      none
      5
      none
      []
      desk
    ≡ (
      inr repair_result,
      (implement_and_repair provider
          (reading ∷ [])
          (always green_result)
          (map_of tested)
          plan
          none
          5
          none
          []
          desk).1,
    )
unfolding implement_and_repair build execute success parse_test_output is_in contains_text
green_at_once = refl

implement_and_repair-Evidence_example :
    (earlier : List Attempt) × (last : Attempt) × (repair_result.attempts ≡ earlier ++ last ∷ [])
    × (has_passed last ≡ true)
    × ((run : IsSuiteRun (always green_result) (map_of tested) last.test_outcomes) × Evidence tested
          run.command)
implement_and_repair-Evidence_example =
    implement_and_repair-Evidence provider (reading ∷ []) (always green_result) tested files plan
      none 5 none [] desk green_at_once refl
