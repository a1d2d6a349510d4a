-- ===== src/Reading/Registered.antt =====
-- agent/tools/filesystem.py, `register_filesystem_tools`, and agent/runtime.py, `build_registry`.
-- What pydantic makes of the arguments of a tool is the parameter `models`: the arguments that its
-- class accepts, or the text of the error. `schema_of` is the JSON schema of the class.
use pullsmith.Common.{ℕ, ◌⊎◌, inl, inr, String, Bool, false, Option, none, some, List, [], ◌∷◌}
use pullsmith.Llm.{Arguments}
use pullsmith.Disk.{Disk}
use pullsmith.Tools.{ToolContext, Tool, crashed, register}
use pullsmith.Editing.{Left}
use pullsmith.Reading.{ReadFileArgs, SearchCodeArgs, list_directory, read_file, search_code}
use pullsmith.Reading.Tree.{TreeArgs, repository_tree}
use pullsmith.Reading.Symbols.{find_symbol}

pub record Models : Type 0 where
  pub list_directory_args : Arguments → String ⊎ String
  pub read_file_args : Arguments → String ⊎ ReadFileArgs
  pub search_code_args : Arguments → String ⊎ SearchCodeArgs
  pub find_symbol_args : Arguments → String ⊎ String
  pub tree_args : Arguments → String ⊎ TreeArgs

module _ (resolve : List String → List String) (workspace : List String)
    (children : List String → Disk → List String) (tree : List String → Disk → List (List String))
    (compile : (pattern : String) → (is_regex case_sensitive : Bool) → String ⊎ (String → Bool))
    (shown : String → String) (escape : String → String) (schema_of : String → Arguments)
    (models : Models) where
  -- A handler is only called with arguments that its class accepts.
  unfoldable pub reading_tool :
      {A : Type 0}
      → (name description : String) → (timeout_seconds : ℕ) → (parse : Arguments → String ⊎ A)
      → (ToolContext → A → Disk → Left)
      → Tool Disk
  reading_tool name description timeout_seconds parse handler = record {
    name = name;
    description = description;
    parameters = schema_of name;
    validate = λ arguments. elim (parse arguments) [ inl why ↦ inr why | inr args ↦ inl arguments ];
    handler = λ context arguments disk. elim (parse arguments) [
      | inl why ↦ (crashed why, context.changes, disk)
      | inr args ↦ handler context args disk
    ];
    timeout_seconds = timeout_seconds;
    mutating = false;
  }

  unfoldable pub list_directory_tool : Tool Disk
  unfolding reading_tool list_directory
  list_directory_tool =
      reading_tool "list_directory"
        "List files and folders in a repository directory. Dependency and build directories are omitted."
        30 models.list_directory_args (list_directory resolve workspace children tree compile shown)

  unfoldable pub read_file_tool : Tool Disk
  unfolding reading_tool read_file
  read_file_tool =
      reading_tool "read_file"
        "Read a file from the repository, optionally a line range. Output is line-numbered. Use this to verify retrieved code before editing it."
        30 models.read_file_args (read_file resolve workspace children tree compile shown)

  unfoldable pub search_code_tool : Tool Disk
  unfolding reading_tool search_code
  search_code_tool =
      reading_tool "search_code"
        "Search repository files for text or a regular expression. Returns file:line matches. Good for error messages and exact strings."
        45 models.search_code_args (search_code resolve workspace children tree compile shown)

  unfoldable pub find_symbol_tool : Tool Disk
  unfolding reading_tool find_symbol
  find_symbol_tool =
      reading_tool "find_symbol"
        "Find where a function, class or constant is defined, ignoring call sites. Use this when a stack trace names a symbol."
        45 models.find_symbol_args
        (find_symbol resolve workspace children tree compile shown escape)

  unfoldable pub repository_tree_tool : Tool Disk
  unfolding reading_tool repository_tree
  repository_tree_tool =
      reading_tool "repository_tree"
        "Show a depth-limited directory tree, for orienting in a new repository." 30
        models.tree_args (repository_tree resolve workspace children tree compile shown)

  abbrev registering : {A : Type 0} → List (Tool A) → List (Tool A) → Option (List (Tool A))
  registering [] tools = some tools
  registering (tool ∷ more) tools = elim (register tool tools) [
    | none ↦ none
    | some longer ↦ registering more longer
  ]

  unfoldable pub register_filesystem_tools : List (Tool Disk) → Option (List (Tool Disk))
  unfolding register list_directory_tool read_file_tool search_code_tool find_symbol_tool
      repository_tree_tool
  register_filesystem_tools tools =
      registering
        (list_directory_tool ∷ read_file_tool ∷ search_code_tool ∷ find_symbol_tool
          ∷ repository_tree_tool ∷ [])
        tools
