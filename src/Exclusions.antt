-- ===== src/Exclusions.antt =====
-- rag/exclusions.py: which files of a repository are indexed. Letters are those of ASCII.
pub mod Indexed
use Prim.Native.Char.{code}
use pullsmith.Common.{
  text_length, split_lines, ℕ, zero, suc, ◌+◌, String, Bool, true, false, Option, none, some, List,
  [], ◌∷◌, not, ◌&&◌, ◌||◌, ◌==◌, ltb, if◌then◌else◌, any, is_in, join, str_eq, lower, ends_with,
  contains_text, path_parts, path_name, take, is_some, after_prefix, on_first,
}

-- Matched on any part of a path.
abbrev pub excluded_directories : List String
excluded_directories =
    "node_modules" ∷ "bower_components" ∷ "vendor" ∷ "venv" ∷ ".venv" ∷ "env" ∷ "site-packages"
    ∷ ".git" ∷ ".hg" ∷ ".svn" ∷ ".idea" ∷ ".vscode" ∷ "dist" ∷ "build" ∷ "out" ∷ "target" ∷ ".next"
    ∷ ".nuxt" ∷ ".output" ∷ ".svelte-kit" ∷ "__pycache__" ∷ ".pytest_cache" ∷ ".ruff_cache"
    ∷ ".mypy_cache" ∷ ".cache" ∷ ".turbo" ∷ ".parcel-cache" ∷ "coverage" ∷ "htmlcov" ∷ ".nyc_output"
    ∷ "migrations" ∷ "alembic/versions" ∷ []

abbrev source_extensions : List String
source_extensions =
    ".py" ∷ ".pyi" ∷ ".js" ∷ ".jsx" ∷ ".mjs" ∷ ".cjs" ∷ ".ts" ∷ ".tsx" ∷ ".mts" ∷ ".cts" ∷ ".go"
    ∷ ".rs" ∷ ".java" ∷ ".rb" ∷ ".php" ∷ ".cs" ∷ ".c" ∷ ".h" ∷ ".cpp" ∷ ".hpp" ∷ ".cc" ∷ ".kt"
    ∷ ".swift" ∷ ".scala" ∷ ".sh" ∷ ".sql" ∷ ".vue" ∷ ".svelte" ∷ []

abbrev supporting_filenames : List String
supporting_filenames =
    "package.json" ∷ "pyproject.toml" ∷ "requirements.txt" ∷ "requirements-dev.txt" ∷ "setup.py"
    ∷ "setup.cfg" ∷ "go.mod" ∷ "cargo.toml" ∷ "pom.xml" ∷ "build.gradle" ∷ "gemfile"
    ∷ "composer.json" ∷ "dockerfile" ∷ "docker-compose.yml" ∷ "makefile" ∷ "readme.md"
    ∷ "tsconfig.json" ∷ "vite.config.ts" ∷ "next.config.js" ∷ "pytest.ini" ∷ "tox.ini"
    ∷ "jest.config.js" ∷ "vitest.config.ts" ∷ []

abbrev generated_suffixes : List String
generated_suffixes =
    ".min.js" ∷ ".min.css" ∷ ".bundle.js" ∷ ".chunk.js" ∷ "-lock.json" ∷ ".lock" ∷ ".map"
    ∷ "_pb2.py" ∷ ".pb.go" ∷ ".g.dart" ∷ ".generated.ts" ∷ ".d.ts" ∷ []

unfoldable pub is_excluded_path : String → Bool
unfolding path_parts is_in join contains_text
is_excluded_path relative_path =
    let parts = path_parts relative_path in
    let joined = join "/" parts in
    any (λ part. is_in excluded_directories part) parts
    || any (λ excluded. contains_text "/" excluded && contains_text excluded joined)
        excluded_directories

unfoldable is_generated : String → Bool
unfolding lower ends_with
is_generated relative_path =
    let lowered = lower relative_path in any (λ suffix. ends_with lowered suffix) generated_suffixes

-- From the last dot on.
unfoldable from_last_dot : String → String
from_last_dot String.[] = ""
from_last_dot (String.◌∷◌ c s) =
    let rest = from_last_dot s in if str_eq rest "" && (code c == 46) then String.◌∷◌ c s else rest

-- `Path(name).suffix`: a dot at either end of the name begins none.
unfoldable suffix_of : String → String
unfolding from_last_dot
suffix_of String.[] = ""
suffix_of (String.◌∷◌ c s) =
    let suffix = from_last_dot s in if str_eq suffix "." then "" else suffix

unfoldable pub is_source_file : String → Bool
unfolding suffix_of path_name lower is_in
is_source_file relative_path = is_in source_extensions (lower (suffix_of (path_name relative_path)))

unfoldable is_supporting_file : String → Bool
unfolding path_name lower is_in
is_supporting_file relative_path = is_in supporting_filenames (lower (path_name relative_path))

abbrev max_file_bytes : ℕ
max_file_bytes = 400000

abbrev max_line_length : ℕ
max_line_length = 5000

unfoldable pub should_index : String → (size_bytes : ℕ) → Bool
unfolding is_excluded_path is_generated is_source_file is_supporting_file
should_index relative_path size_bytes =
    if is_excluded_path relative_path || is_generated relative_path
    then false
    else if ltb max_file_bytes size_bytes
    then false
    else is_source_file relative_path || is_supporting_file relative_path

unfoldable looks_minified : String → Bool
unfolding split_lines text_length
looks_minified content =
    any (λ line. ltb max_line_length (text_length line)) (take 200 (split_lines content))

unfoldable is_test_path : String → Bool
unfolding lower path_parts path_name is_in ends_with contains_text after_prefix
is_test_path relative_path =
    let lowered = lower relative_path in
    let name = path_name lowered in
    any (λ segment. is_in ("test" ∷ "tests" ∷ "spec" ∷ "__tests__" ∷ "e2e" ∷ []) segment)
      (path_parts lowered)
    || is_some (after_prefix "test_" name)
    || ends_with name "_test.py"
    || contains_text ".test." name
    || contains_text ".spec." name
    || ends_with name "test.go"
