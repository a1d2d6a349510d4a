-- ===== src/RepoMap/Evidence.antt =====
-- rag/repo_map.py: no test command without evidence of it below the root, and none missed.
use mathlib.Core.List.{Memᴰ}
use pullsmith.Common.{
  ◌≡◌, refl, inl, inr, String, Bool, true, false, Option, none, some, List, ◌||◌, if◌then◌else◌,
  is_in, contains_text, find_row, find_row-mem, find_row-passes, first_some, is_empty, Bool-cases,
  Option-cases,
}
use pullsmith.RepoMap.{RepositoryMap}
use pullsmith.RepoMap.Known.{Root, PackageJson, Runner, js_test_runners, python_test_runners}
use pullsmith.RepoMap.Detect.{
  all_dependencies, package_read, pyproject_read, mentions_pytest, dependency_text, with_js_runner,
  with_python_runner, with_package, inspect_package_json, with_pyproject, with_requirements,
  read_pyproject, read_requirements, with_dependencies, inspect_python, with_manifest,
  inspect_other_manifests,
}
use pullsmith.RepoMap.Build.{ScannedFile, build}

abbrev npm_command : PackageJson → String
npm_command p = if is_in (all_dependencies p) "vitest" then "npm test -- --run" else "npm test"

-- What shows that a command runs the tests of the project.
pub data Evidence (root : Root) : String → Type 0 where
  declared_script :
      (p : PackageJson)
      → package_read root ≡ some p
      → p.has_fields ≡ true
      → is_in p.scripts "test" ≡ true
      → Evidence root (npm_command p)
  js_dependency :
      (p : PackageJson) (r : Runner)
      → package_read root ≡ some p
      → p.has_fields ≡ true
      → Memᴰ r js_test_runners
      → is_in (all_dependencies p) r.name ≡ true
      → Evidence root r.command
  pytest_section :
      root.is_file "pyproject.toml" ≡ true
      → mentions_pytest (pyproject_read root) ≡ true
      → Evidence root "pytest -q"
  python_dependency :
      (r : Runner)
      → Memᴰ r python_test_runners
      → contains_text r.name (dependency_text root) ≡ true
      → Evidence root r.command
  tests_beside_dependencies :
      (root.is_file "pytest.ini" || root.is_directory "tests") ≡ true
      → is_empty (dependency_text root) ≡ false
      → Evidence root "pytest -q"
  go_module : root.is_file "go.mod" ≡ true → Evidence root "go test ./..."
  cargo_package : root.is_file "Cargo.toml" ≡ true → Evidence root "cargo test"

module _ (root : Root) where
  abbrev pub Backed : Option String → Type 0
  Backed none = Unit
  Backed (some command) = Evidence root command

  if-Backed :
      (b : Bool) (x y : Option String)
      → (b ≡ true → Backed x)
      → Backed y
      → Backed (if b then x else y)
  if-Backed true x y h k = h refl
  if-Backed false x y h k = k

  first_some-Backed : (x y : Option String) → Backed x → Backed y → Backed (first_some x y)
  first_some-Backed none y h k = k
  first_some-Backed (some c) y h k = h

  js_runner-Backed :
      (p : PackageJson) (m : RepositoryMap)
      → package_read root ≡ some p
      → p.has_fields ≡ true
      → Backed m.test_command
      → Backed
          (with_js_runner
            (find_row (λ r. is_in (all_dependencies p) r.name) js_test_runners)
            m).test_command
  js_runner-Backed p m read fields h =
      let runs = λ (r : Runner). is_in (all_dependencies p) r.name in
      elim (Option-cases (find_row runs js_test_runners)) [
        | inl e ↦ rw e h
        | inr (r, e) ↦ rw e (
            first_some-Backed m.test_command (some r.command) h (
              js_dependency p r read fields (find_row-mem runs js_test_runners e)
                (find_row-passes runs js_test_runners e)))
      ]

  with_package-Backed :
      (p : PackageJson) (m : RepositoryMap)
      → package_read root ≡ some p
      → p.has_fields ≡ true
      → Backed m.test_command
      → Backed (with_package root p m).test_command
  unfolding with_package
  with_package-Backed p m read fields h =
      js_runner-Backed p _ read fields
        (if-Backed (is_in p.scripts "test") _ _ (declared_script p read fields) h)

  package-Backed :
      (m : RepositoryMap)
      → Backed m.test_command
      → Backed (inspect_package_json root m).test_command
  unfolding inspect_package_json
  package-Backed m h = elim (Option-cases (package_read root)) [
    | inl e ↦ rw e h
    | inr (p, e) ↦ rw e (elim (Bool-cases p.has_fields) [
      | inl t ↦ rw t (with_package-Backed p m e t h)
      | inr f ↦ rw f h
    ])
  ]

  python_runner-Backed :
      (m : RepositoryMap)
      → Backed m.test_command
      → Backed
          (with_python_runner
            (find_row (λ r. contains_text r.name (dependency_text root)) python_test_runners)
            m).test_command
  python_runner-Backed m h =
      let runs = λ (r : Runner). contains_text r.name (dependency_text root) in
      elim (Option-cases (find_row runs python_test_runners)) [
        | inl e ↦ rw e h
        | inr (r, e) ↦ rw e (
            first_some-Backed m.test_command (some r.command) h (
              python_dependency r (find_row-mem runs python_test_runners e)
                (find_row-passes runs python_test_runners e)))
      ]

  dependencies-Backed :
      (m : RepositoryMap)
      → is_empty (dependency_text root) ≡ false
      → Backed m.test_command
      → Backed (with_dependencies root m).test_command
  unfolding with_dependencies
  dependencies-Backed m there h =
      let named = python_runner-Backed (record m { frameworks = _ }) h in
      if-Backed (root.is_file "pytest.ini" || root.is_directory "tests") _ _
        (λ tests.
          first_some-Backed _ (some "pytest -q") named (tests_beside_dependencies tests there))
        named

  pyproject-Backed :
      (m : RepositoryMap) → Backed m.test_command → Backed (read_pyproject root m).test_command
  unfolding read_pyproject with_pyproject
  pyproject-Backed m h = elim (Bool-cases (root.is_file "pyproject.toml")) [
    | inl t ↦ rw t (if-Backed (mentions_pytest (pyproject_read root)) _ _ (pytest_section t) h)
    | inr f ↦ rw f h
  ]

  requirements-Backed :
      (m : RepositoryMap) → Backed m.test_command → Backed (read_requirements root m).test_command
  unfolding read_requirements with_requirements
  requirements-Backed m h = elim (Bool-cases (root.is_file "requirements.txt")) [
    | inl t ↦ rw t h
    | inr f ↦ rw f h
  ]

  python-Backed :
      (m : RepositoryMap) → Backed m.test_command → Backed (inspect_python root m).test_command
  unfolding inspect_python
  python-Backed m h =
      let required = read_requirements root (read_pyproject root m) in
      let h' = requirements-Backed (read_pyproject root m) (pyproject-Backed m h) in
      elim (Bool-cases (is_empty (dependency_text root))) [
        | inl t ↦ rw t h'
        | inr f ↦ rw f (dependencies-Backed required f h')
      ]

  manifest-Backed :
      (file manager install test build label : String) (m : RepositoryMap)
      → (root.is_file file ≡ true → Evidence root test)
      → Backed m.test_command
      → Backed (with_manifest root file manager install test build label m).test_command
  unfolding with_manifest
  manifest-Backed file manager install test build label m found h =
      elim (Bool-cases (root.is_file file)) [
        | inl t ↦ rw t (first_some-Backed m.test_command (some test) h (found t))
        | inr f ↦ rw f h
      ]

  other_manifests-Backed :
      (m : RepositoryMap)
      → Backed m.test_command
      → Backed (inspect_other_manifests root m).test_command
  unfolding inspect_other_manifests
  other_manifests-Backed m h =
      manifest-Backed _ _ _ _ _ _ _ cargo_package (manifest-Backed _ _ _ _ _ _ m go_module h)

  pub build-Backed : (files : List ScannedFile) → Backed (build root files).test_command
  unfolding build
  build-Backed files = other_manifests-Backed _ (python-Backed _ (package-Backed _ tt))
