-- ===== src/RepoMap/Build.antt =====
-- rag/repo_map.py, `build`, with the counts of the languages.
use pullsmith.Common.{
  ℕ, suc, String, Bool, Option, none, some, List, [], ◌∷◌, map, ◌&&◌, ltb, if◌then◌else◌, str_eq,
  length, where_rows, contains_text, sorted_set, split_path, head?, or_else,
}
use pullsmith.RepoMap.{RepositoryMap}
use pullsmith.RepoMap.Known.{Root}
use pullsmith.RepoMap.Detect.{inspect_package_json, inspect_python, inspect_other_manifests}

-- rag/workspace.py, `ScannedFile`, with the fields that the map reads.
pub record ScannedFile : Type 0 where
  pub relative_path : String
  pub language : Option String
  pub is_test : Bool

-- A `Counter`, in the order of its first insertions.
unfoldable count_one : String → List (String × ℕ) → List (String × ℕ)
count_one language [] = (language, 1) ∷ []
count_one language ((name, n) ∷ counts) =
    let rest = count_one language counts in
    if str_eq name language then (name, suc n) ∷ counts else (name, n) ∷ rest

abbrev count_file : ScannedFile → List (String × ℕ) → List (String × ℕ)
count_file file counts = elim file.language [
  | none ↦ counts
  | some language ↦ if str_eq language "" then counts else count_one language counts
]

unfoldable count_languages : List ScannedFile → List (String × ℕ) → List (String × ℕ)
unfolding count_one
count_languages [] counts = counts
count_languages (file ∷ files) counts = count_languages files (count_file file counts)

-- `most_common()`: by falling counts, and what was counted first before what has the same count.
unfoldable insert_count : String × ℕ → List (String × ℕ) → List (String × ℕ)
insert_count c [] = c ∷ []
insert_count c (d ∷ ds) =
    let rest = insert_count c ds in if ltb c.1 d.1 then d ∷ rest else c ∷ d ∷ ds

unfoldable most_common : List (String × ℕ) → List (String × ℕ)
unfolding insert_count
most_common [] = []
most_common (c ∷ cs) = insert_count c (most_common cs)

abbrev name_of : Option (String × ℕ) → Option String
name_of none = none
name_of (some c) = some c.0

unfoldable detect_languages : List ScannedFile → List (String × ℕ) × Option String
unfolding count_languages most_common
detect_languages files =
    let counts = most_common (count_languages files []) in (counts, name_of (head? counts))

unfoldable test_directories : List ScannedFile → List String
unfolding split_path contains_text sorted_set
test_directories files = sorted_set (
    map (λ f. or_else (head? (split_path f.relative_path)) "")
      (where_rows (λ f. f.is_test && contains_text "/" f.relative_path) files))

-- `RepositoryMap()`
abbrev empty_map : RepositoryMap
empty_map = record {
  languages = [];
  primary_language = none;
  package_managers = [];
  frameworks = [];
  test_framework = none;
  test_command = none;
  lint_command = none;
  typecheck_command = none;
  build_command = none;
  install_command = none;
  entry_points = [];
  test_paths = [];
  config_files = [];
  file_count = 0;
  test_file_count = 0;
}

unfoldable pub build : Root → List ScannedFile → RepositoryMap
unfolding detect_languages inspect_package_json inspect_python inspect_other_manifests
    test_directories
build root files =
    let counted : RepositoryMap = record empty_map {
      languages = (detect_languages files).0;
      primary_language = (detect_languages files).1;
      file_count = length files;
      test_file_count = length (where_rows (λ f. f.is_test) files);
    } in
    let inspected =
      inspect_other_manifests root (inspect_python root (inspect_package_json root counted)) in
    record inspected { test_paths = test_directories files }
