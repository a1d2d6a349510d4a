-- ===== src/RepoMap/Detect.antt =====
-- rag/repo_map.py: the inspection of the manifests, each a function of the map so far.
use pullsmith.Common.{
  String, Bool, Option, none, some, List, [], ◌∷◌, ◌++◌, not, ◌||◌, if◌then◌else◌, is_in,
  contains_text, lower, join, where_rows, find_row, first_some, is_empty, or_else, ◌<>◌, str_eq,
}
use pullsmith.RepoMap.{RepositoryMap}
use pullsmith.RepoMap.Known.{
  PackageJson, Pyproject, no_pyproject, Root, framework_markers, Runner, python_test_runners,
  js_test_runners,
}

-- `label and label not in frameworks`
unfoldable add_framework : Option String → List String → List String
unfolding is_in
add_framework none frameworks = frameworks
add_framework (some label) frameworks =
    if is_in frameworks label then frameworks else frameworks ++ label ∷ []

abbrev marker_label : Option (String × String) → Option String
marker_label none = none
marker_label (some (name, label)) = some label

unfoldable add_known : (names frameworks : List String) → List String
unfolding add_framework
add_known [] frameworks = frameworks
add_known (name ∷ names) frameworks =
    add_known names
      (add_framework (marker_label (find_row (λ m. str_eq m.0 name) framework_markers)) frameworks)

unfoldable add_mentioned :
    (dependency_text : String) → (markers : List (String × String)) → List String → List String
unfolding add_framework contains_text
add_mentioned dependency_text [] frameworks = frameworks
add_mentioned dependency_text ((marker, label) ∷ markers) frameworks =
    let after =
      if contains_text marker dependency_text
      then add_framework (some label) frameworks
      else frameworks in
    add_mentioned dependency_text markers after

-- The loop over the runners, up to its `break`: the label is set or kept, the command is kept.
abbrev pub with_js_runner : Option Runner → RepositoryMap → RepositoryMap
with_js_runner none m = m
with_js_runner (some r) m = record m {
  test_framework = some r.label;
  test_command = first_some m.test_command (some r.command);
}

abbrev pub with_python_runner : Option Runner → RepositoryMap → RepositoryMap
with_python_runner none m = m
with_python_runner (some r) m = record m {
  test_framework = first_some m.test_framework (some r.label);
  test_command = first_some m.test_command (some r.command);
}

-- `{**dependencies, **devDependencies}`
unfoldable pub all_dependencies : PackageJson → List String
unfolding is_in
all_dependencies p =
    p.dependencies ++ where_rows (λ d. not (is_in p.dependencies d)) p.dev_dependencies

abbrev flattened : List (List String) → List String
flattened [] = []
flattened (group ∷ groups) = group ++ flattened groups

unfoldable declared_text : Pyproject → String
unfolding join lower
declared_text p = lower (join " " (p.dependencies ++ flattened p.optional_dependencies))

-- What `tool` says of pytest.
unfoldable pub mentions_pytest : Pyproject → Bool
unfolding is_in contains_text
mentions_pytest p = is_in p.tools "pytest" || contains_text "pytest.ini_options" p.tools_text

module _ (root : Root) where
  abbrev package_manager : String
  package_manager =
      if root.is_file "pnpm-lock.yaml"
      then "pnpm"
      else if root.is_file "yarn.lock"
      then "yarn"
      else "npm"

  unfoldable pub with_package : PackageJson → RepositoryMap → RepositoryMap
  unfolding all_dependencies add_known is_in
  with_package p m =
      let dependencies = all_dependencies p in
      let script = is_in p.scripts in
      let scripted : RepositoryMap = record m {
        package_managers = m.package_managers ++ package_manager ∷ [];
        config_files = m.config_files ++ "package.json" ∷ [];
        install_command = some (package_manager <> " install");
        frameworks = add_known dependencies m.frameworks;
        test_command =
            if script "test"
            then some (if is_in dependencies "vitest" then "npm test -- --run" else "npm test")
            else m.test_command;
        lint_command = if script "lint" then some "npm run lint" else m.lint_command;
        typecheck_command =
            if script "typecheck"
            then some "npm run typecheck"
            else if root.is_file "tsconfig.json"
            then some "npx tsc --noEmit"
            else m.typecheck_command;
        build_command = if script "build" then some "npm run build" else m.build_command;
      } in
      let run : RepositoryMap =
        with_js_runner (find_row (λ r. is_in dependencies r.name) js_test_runners) scripted in
      record run {
        entry_points =
            run.entry_points
            ++ where_rows root.is_file (
                "src/main.tsx" ∷ "src/main.ts" ∷ "src/index.tsx" ∷ "src/index.ts" ∷ "index.js"
                ∷ []);
      }

  abbrev pub package_read : Option PackageJson
  package_read =
      if root.is_file "package.json" then root.load_json (root.text_at "package.json") else none

  abbrev on_package : Option PackageJson → RepositoryMap → RepositoryMap
  on_package none m = m
  on_package (some p) m = if p.has_fields then with_package p m else m

  unfoldable pub inspect_package_json : RepositoryMap → RepositoryMap
  unfolding with_package
  inspect_package_json m = on_package package_read m

  abbrev pub pyproject_read : Pyproject
  pyproject_read = or_else (root.load_toml (root.text_at "pyproject.toml")) no_pyproject

  unfoldable pub with_pyproject : Pyproject → RepositoryMap → RepositoryMap
  unfolding is_in mentions_pytest
  with_pyproject p m =
      let poetry = is_in p.tools "poetry" in
      let pytest = mentions_pytest p in
      record m {
        config_files = m.config_files ++ "pyproject.toml" ∷ [];
        package_managers = m.package_managers ++ (if poetry then "poetry" else "pip") ∷ [];
        install_command = some (if poetry then "poetry install" else "pip install -e .");
        test_framework = if pytest then some "pytest" else m.test_framework;
        test_command = if pytest then some "pytest -q" else m.test_command;
        lint_command = if is_in p.tools "ruff" then some "ruff check ." else m.lint_command;
        typecheck_command = if is_in p.tools "mypy" then some "mypy ." else m.typecheck_command;
      }

  unfoldable pub with_requirements : RepositoryMap → RepositoryMap
  unfolding is_in
  with_requirements m =
      let known = is_in m.package_managers "pip" in
      record m {
        config_files = m.config_files ++ "requirements.txt" ∷ [];
        package_managers = if known then m.package_managers else m.package_managers ++ "pip" ∷ [];
        install_command =
            if known then m.install_command else some "pip install -r requirements.txt";
      }

  -- `dependency_text` after both files.
  unfoldable pub dependency_text : String
  unfolding declared_text lower
  dependency_text =
      (if root.is_file "pyproject.toml" then declared_text pyproject_read else "")
      <> (if root.is_file "requirements.txt"
          then " " <> lower (root.text_at "requirements.txt")
          else "")

  -- What the text of the dependencies shows.
  unfoldable pub with_dependencies : RepositoryMap → RepositoryMap
  unfolding dependency_text add_mentioned contains_text
  with_dependencies m =
      let named : RepositoryMap =
        with_python_runner
          (find_row (λ r. contains_text r.name dependency_text) python_test_runners)
          (record m {
            frameworks = add_mentioned dependency_text framework_markers m.frameworks;
          }) in
      let has_tests = root.is_file "pytest.ini" || root.is_directory "tests" in
      record named {
        test_framework =
            if has_tests
            then first_some named.test_framework (some "pytest")
            else named.test_framework;
        test_command =
            if has_tests
            then first_some named.test_command (some "pytest -q")
            else named.test_command;
        entry_points =
            named.entry_points
            ++ where_rows root.is_file
                ("app/main.py" ∷ "main.py" ∷ "manage.py" ∷ "src/main.py" ∷ "wsgi.py" ∷ []);
      }

  unfoldable pub read_pyproject : RepositoryMap → RepositoryMap
  unfolding with_pyproject
  read_pyproject m = if root.is_file "pyproject.toml" then with_pyproject pyproject_read m else m

  unfoldable pub read_requirements : RepositoryMap → RepositoryMap
  unfolding with_requirements
  read_requirements m = if root.is_file "requirements.txt" then with_requirements m else m

  unfoldable pub inspect_python : RepositoryMap → RepositoryMap
  unfolding read_pyproject read_requirements dependency_text with_dependencies
  inspect_python m =
      let required = read_requirements (read_pyproject m) in
      if is_empty dependency_text then required else with_dependencies required

  -- The manifest of a language whose tools need nothing else.
  unfoldable pub with_manifest :
      (file manager install test build label : String) → RepositoryMap → RepositoryMap
  with_manifest file manager install test build label m =
      if root.is_file file
      then record m {
        config_files = m.config_files ++ file ∷ [];
        package_managers = m.package_managers ++ manager ∷ [];
        install_command = some install;
        test_command = first_some m.test_command (some test);
        build_command = first_some m.build_command (some build);
        test_framework = first_some m.test_framework (some label);
      }
      else m

  unfoldable pub inspect_other_manifests : RepositoryMap → RepositoryMap
  unfolding with_manifest
  inspect_other_manifests m =
      with_manifest "Cargo.toml" "cargo" "cargo fetch" "cargo test" "cargo build" "cargo test" (
        with_manifest "go.mod" "go modules" "go mod download" "go test ./..." "go build ./..."
          "go test" m)
