-- ===== src/RepoMap.antt =====
-- rag/repo_map.py: what is known of a project. Known and Detect have the manifests and their
-- inspection, Build the languages and the whole map.
pub mod Known
pub mod Detect
pub mod Build
pub mod Evidence
pub mod Keeps
pub mod Shown
use pullsmith.Common.{ℕ, String, Option, none, some, List, [], ◌∷◌, map}
use pullsmith.Db.{Json, null, num, text, texts, object, fields_of}

pub record RepositoryMap : Type 0 where
  pub languages : List (String × ℕ)
  pub primary_language : Option String
  pub package_managers : List String
  pub frameworks : List String
  pub test_framework : Option String
  pub test_command : Option String
  pub lint_command : Option String
  pub typecheck_command : Option String
  pub build_command : Option String
  pub install_command : Option String
  pub entry_points : List String
  pub test_paths : List String
  pub config_files : List String
  pub file_count : ℕ
  pub test_file_count : ℕ

abbrev optional_text : Option String → Json
optional_text none = null
optional_text (some s) = text s

unfoldable pub to_dict : RepositoryMap → List (String × Json)
unfolding fields_of
to_dict m =
    ("languages", object (fields_of (map (λ l. (l.0, num l.1)) m.languages)))
    ∷ ("primary_language", optional_text m.primary_language)
    ∷ ("package_managers", texts m.package_managers)
    ∷ ("frameworks", texts m.frameworks)
    ∷ ("test_framework", optional_text m.test_framework)
    ∷ ("test_command", optional_text m.test_command)
    ∷ ("lint_command", optional_text m.lint_command)
    ∷ ("typecheck_command", optional_text m.typecheck_command)
    ∷ ("build_command", optional_text m.build_command)
    ∷ ("install_command", optional_text m.install_command)
    ∷ ("entry_points", texts m.entry_points)
    ∷ ("test_paths", texts m.test_paths)
    ∷ ("config_files", texts m.config_files)
    ∷ ("file_count", num m.file_count)
    ∷ ("test_file_count", num m.test_file_count)
    ∷ []
