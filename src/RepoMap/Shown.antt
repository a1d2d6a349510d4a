-- ===== src/RepoMap/Shown.antt =====
-- rag/repo_map.py: where there is evidence of a test command, the map has one.
use pullsmith.Common.{
  ◌≡◌, ap, subst, ◌↔◌, inl, inr, String, true, false, none, some, List, is_in, contains_text,
  is_some, Option-cases,
}
use pullsmith.RepoMap.Known.{Root, js_test_runners, python_test_runners}
use pullsmith.RepoMap.Detect.{all_dependencies, dependency_text}
use pullsmith.RepoMap.Build.{ScannedFile, build}
use pullsmith.RepoMap.Evidence.{
  Evidence, declared_script, js_dependency, pytest_section, python_dependency,
  tests_beside_dependencies, go_module, cargo_package, Backed, build-Backed,
}
use pullsmith.RepoMap.Keeps.{
  HasCommand, find_row-found, runner-is_empty, package-shows, python-keeps, python-shows,
  pyproject-shows, dependencies-shows, tests-show, others-keep, go-shows, cargo-shows,
}

module _ (root : Root) where
  Evidence-shows :
      (files : List ScannedFile) {c : String} → Evidence root c → HasCommand (build root files)
  unfolding build
  Evidence-shows files (declared_script p read fields script) =
      others-keep root _ (python-keeps root _ (package-shows root p _ read fields (inl script)))
  Evidence-shows files (js_dependency p r read fields known there) = others-keep root _ (
      python-keeps root _ (
        package-shows root p _ read fields (
          inr
            (find_row-found (λ x. is_in (all_dependencies p) x.name) js_test_runners known there))))
  Evidence-shows files (pytest_section there says) =
      others-keep root _ (pyproject-shows root _ there says)
  Evidence-shows files (python_dependency r known named) = others-keep root _ (
      python-shows root _ (runner-is_empty r _ known named) (λ after.
        dependencies-shows root after (
          inr (
            find_row-found (λ x. contains_text x.name (dependency_text root)) python_test_runners
              known named))))
  Evidence-shows files (tests_beside_dependencies tests there) =
      others-keep root _ (python-shows root _ there (λ after. tests-show root after tests))
  Evidence-shows files (go_module there) = go-shows root _ there
  Evidence-shows files (cargo_package there) = cargo-shows root _ there

  -- The map has no test command exactly if nothing below the root shows one: no script of
  -- package.json, no known runner among the dependencies of package.json, no pytest section, no known
  -- runner in the text of Python's dependencies, no tests beside such a text, no go.mod and no
  -- Cargo.toml. Where it has one, it is the command that one of these shows.
  pub test_command-Evidence :
      (files : List ScannedFile)
      → ((c : String) → (build root files).test_command ≡ some c → Evidence root c)
        × ((build root files).test_command ≡ none ↔ ((c : String) → ¬ (Evidence root c)))
  test_command-Evidence files =
      let backed : (c : String) → (build root files).test_command ≡ some c → Evidence root c =
        λ c e. subst (Backed root) e (build-Backed root files) in
      (
        backed,
        (
          λ e c shown.
              let without : is_some (build root files).test_command ≡ false = ap is_some e in
              let present : is_some (build root files).test_command ≡ true =
                Evidence-shows files shown in
              cc (without, present),
          λ unshown. elim (Option-cases (build root files).test_command) [
            | inl e ↦ e
            | inr (c, e) ↦ absurd (unshown c (backed c e))
          ],
        ),
      )
