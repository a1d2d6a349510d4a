-- ===== src/RepoMap/Known.antt =====
-- rag/repo_map.py: what a manifest says, and the tables of known dependencies. What is below the
-- root of a checkout is a `Root`: its files and directories, and what Python's `json` and `tomllib`
-- make of a text. An object is the list of its keys where the code reads no more; one of another
-- shape than the tools of its language write, or a file that cannot be read, is left out.
use pullsmith.Common.{String, Bool, Option, List, [], ◌∷◌}

pub record PackageJson : Type 0 where
  pub has_fields : Bool
  pub dependencies : List String
  pub dev_dependencies : List String
  pub scripts : List String

-- `tools_text` is `str(tools)`.
pub record Pyproject : Type 0 where
  pub dependencies : List String
  pub optional_dependencies : List (List String)
  pub tools : List String
  pub tools_text : String

-- The dict that `_read_toml` returns for what it cannot parse.
abbrev pub no_pyproject : Pyproject
no_pyproject = record {
  dependencies = [];
  optional_dependencies = [];
  tools = [];
  tools_text = "{}";
}

pub record Root : Type 0 where
  pub is_file : (path : String) → Bool
  pub is_directory : (path : String) → Bool
  pub text_at : (path : String) → String
  pub load_json : String → Option PackageJson
  pub load_toml : String → Option Pyproject

abbrev pub framework_markers : List (String × String)
framework_markers =
    ("fastapi", "FastAPI")
    ∷ ("flask", "Flask")
    ∷ ("django", "Django")
    ∷ ("starlette", "Starlette")
    ∷ ("sqlalchemy", "SQLAlchemy")
    ∷ ("pydantic", "Pydantic")
    ∷ ("react", "React")
    ∷ ("next", "Next.js")
    ∷ ("vue", "Vue")
    ∷ ("svelte", "Svelte")
    ∷ ("express", "Express")
    ∷ ("nestjs", "NestJS")
    ∷ ("@nestjs/core", "NestJS")
    ∷ ("vite", "Vite")
    ∷ ("webpack", "webpack")
    ∷ ("tailwindcss", "Tailwind CSS")
    ∷ ("prisma", "Prisma")
    ∷ ("gin-gonic/gin", "Gin")
    ∷ ("spring-boot", "Spring Boot")
    ∷ ("rails", "Rails")
    ∷ ("laravel", "Laravel")
    ∷ []

-- A dependency, with the label and the command of the runner that it is.
pub record Runner : Type 0 where
  pub name : String
  pub label : String
  pub command : String

abbrev pub python_test_runners : List Runner
python_test_runners =
    record { name = "pytest"; label = "pytest"; command = "pytest -q" }
    ∷ record { name = "nose2"; label = "nose2"; command = "nose2" }
    ∷ []

abbrev pub js_test_runners : List Runner
js_test_runners =
    record { name = "vitest"; label = "vitest"; command = "npx vitest run" }
    ∷ record { name = "jest"; label = "jest"; command = "npx jest --ci" }
    ∷ record { name = "mocha"; label = "mocha"; command = "npx mocha" }
    ∷ record { name = "@playwright/test"; label = "playwright"; command = "npx playwright test" }
    ∷ []
