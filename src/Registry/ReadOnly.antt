-- ===== src/Registry/ReadOnly.antt =====
-- The tools of agent/runtime.py in the phases without write access.
use pullsmith.Common.{
  ◌≡◌, refl, subst, ℕ, ◌⊎◌, inl, inr, String, false, Option, some, List, [], ◌∷◌, All, All-mem, map,
  checked,
}
use pullsmith.Llm.{Arguments, Message, ToolSchema}
use pullsmith.Schemas.{IssueAnalysis, ImplementationPlan}
use pullsmith.Retrieval.{RetrievedChunk}
use pullsmith.Testing.{TestOutcome}
use pullsmith.Loop.{LoopLimits}
use pullsmith.Loop.Bounds.{IsUntouching}
use pullsmith.Phases.{Provider, Desk}
use pullsmith.Planner.{build_plan}
use pullsmith.Repair.{verify}
use pullsmith.Planner.ReadOnly.{Kept, build_plan-Kept, verify-Kept}
use pullsmith.Diff.{FileChange}
use pullsmith.Disk.{Disk}
use pullsmith.Tools.{ToolContext, Tool, Handled, register, get}
use pullsmith.Safety.{assert_readable, resolve_in_workspace}
use pullsmith.Editing.{Left}
use pullsmith.Editing.Registered.{
  register_editing_tools, replace_in_file_tool, write_file_tool, delete_file_tool, editing_tool,
}
use pullsmith.Reading.{
  ReadFileArgs, SearchCodeArgs, at_path, list_directory, read_file, search_code,
}
use pullsmith.Reading.Tree.{TreeArgs, repository_tree}
use pullsmith.Reading.Symbols.{find_symbol}
use pullsmith.Reading.Registered.{
  reading_tool, register_filesystem_tools, list_directory_tool, read_file_tool, search_code_tool,
  find_symbol_tool, repository_tree_tool,
}
use pullsmith.Registry.{beside, Machine, build_registry}

-- The recorded changes and the disk are as they were.
abbrev Unwritten : List FileChange → Disk → Left → Type 0
Unwritten changes disk left = (left.1 ≡ changes) × (left.2 ≡ disk)

abbrev IsQuiet : Tool Disk → Type 0
IsQuiet tool =
    tool.mutating ≡ false
    → (context : ToolContext) (arguments : Arguments) (disk : Disk)
    → Unwritten context.changes disk (tool.handler context arguments disk)

module _ (m : Machine) where
  at_path-Unwritten :
      (path : String) (changes : List FileChange) (disk : Disk) (rest : List String → Handled)
      → Unwritten changes disk
          (at_path m.resolve m.workspace m.children m.tree m.compile m.shown path changes disk rest)
  unfolding at_path
  at_path-Unwritten path changes disk rest =
      elim (checked (resolve_in_workspace m.resolve m.workspace path)) [
        | inl (why, e) ↦ rw (at_path, e) (refl, refl)
        | inr (target, e) ↦ rw (at_path, e) (refl, refl)
      ]

  reading_tool-IsQuiet :
      {A : Type 0} (name description : String) (timeout_seconds : ℕ)
      (parse : Arguments → String ⊎ A) (handler : ToolContext → A → Disk → Left)
      → ((context : ToolContext) (args : A) (disk : Disk)
          → Unwritten context.changes disk (handler context args disk))
      → IsQuiet (
          reading_tool m.resolve m.workspace m.children m.tree m.compile m.shown m.escape
            m.schema_of m.models name description timeout_seconds parse handler)
  unfolding reading_tool
  reading_tool-IsQuiet name description timeout_seconds parse handler h same context arguments
        disk =
      elim (checked (parse arguments)) [
        | inl (why, e) ↦ rw e (refl, refl)
        | inr (args, e) ↦ rw e (h context args disk)
      ]

  list_directory-Unwritten :
      (context : ToolContext) (path : String) (disk : Disk)
      → Unwritten context.changes disk (
          list_directory m.resolve m.workspace m.children m.tree m.compile m.shown context path
            disk)
  unfolding list_directory
  list_directory-Unwritten context path disk = at_path-Unwritten path context.changes disk _

  read_file-Unwritten :
      (context : ToolContext) (args : ReadFileArgs) (disk : Disk)
      → Unwritten context.changes disk
          (read_file m.resolve m.workspace m.children m.tree m.compile m.shown context args disk)
  unfolding read_file
  read_file-Unwritten context args disk = elim (checked (assert_readable args.path)) [
    | inl (why, e) ↦ rw (read_file, e) (refl, refl)
    | inr (done, e) ↦ rw (read_file, e) (at_path-Unwritten args.path context.changes disk _)
  ]

  search_code-Unwritten :
      (context : ToolContext) (args : SearchCodeArgs) (disk : Disk)
      → Unwritten context.changes disk
          (search_code m.resolve m.workspace m.children m.tree m.compile m.shown context args disk)
  unfolding search_code
  search_code-Unwritten context args disk = at_path-Unwritten args.path context.changes disk _

  find_symbol-Unwritten :
      (context : ToolContext) (symbol : String) (disk : Disk)
      → Unwritten context.changes disk (
          find_symbol m.resolve m.workspace m.children m.tree m.compile m.shown m.escape context
            symbol disk)
  unfolding find_symbol
  find_symbol-Unwritten context symbol disk = (refl, refl)

  repository_tree-Unwritten :
      (context : ToolContext) (args : TreeArgs) (disk : Disk)
      → Unwritten context.changes disk (
          repository_tree m.resolve m.workspace m.children m.tree m.compile m.shown context args
            disk)
  unfolding repository_tree
  repository_tree-Unwritten context args disk = at_path-Unwritten args.path context.changes disk _

  abbrev all_tools : List (Tool Disk)
  all_tools =
      list_directory_tool m.resolve m.workspace m.children m.tree m.compile m.shown m.escape
        m.schema_of m.models
      ∷ read_file_tool m.resolve m.workspace m.children m.tree m.compile m.shown m.escape
          m.schema_of m.models
      ∷ search_code_tool m.resolve m.workspace m.children m.tree m.compile m.shown m.escape
          m.schema_of m.models
      ∷ find_symbol_tool m.resolve m.workspace m.children m.tree m.compile m.shown m.escape
          m.schema_of m.models
      ∷ repository_tree_tool m.resolve m.workspace m.children m.tree m.compile m.shown m.escape
          m.schema_of m.models
      ∷ replace_in_file_tool m.resolve m.workspace m.os_error m.schema_of m.errors
      ∷ write_file_tool m.resolve m.workspace m.os_error m.schema_of m.errors
      ∷ delete_file_tool m.resolve m.workspace m.os_error m.schema_of m.errors
      ∷ []

  built_of : build_registry m ≡ some all_tools
  unfolding build_registry register_filesystem_tools register_editing_tools register get
      list_directory_tool read_file_tool search_code_tool find_symbol_tool repository_tree_tool
      reading_tool replace_in_file_tool write_file_tool delete_file_tool editing_tool
  built_of = refl

  all_tools-IsQuiet : All IsQuiet all_tools
  unfolding list_directory_tool read_file_tool search_code_tool find_symbol_tool
      repository_tree_tool replace_in_file_tool write_file_tool delete_file_tool reading_tool
      editing_tool
  all_tools-IsQuiet = (
    reading_tool-IsQuiet "" "" 0 m.models.list_directory_args
        (list_directory m.resolve m.workspace m.children m.tree m.compile m.shown)
        list_directory-Unwritten,
    (
      reading_tool-IsQuiet "" "" 0 m.models.read_file_args
          (read_file m.resolve m.workspace m.children m.tree m.compile m.shown) read_file-Unwritten,
      (
        reading_tool-IsQuiet "" "" 0 m.models.search_code_args
            (search_code m.resolve m.workspace m.children m.tree m.compile m.shown)
            search_code-Unwritten,
        (
          reading_tool-IsQuiet "" "" 0 m.models.find_symbol_args
              (find_symbol m.resolve m.workspace m.children m.tree m.compile m.shown m.escape)
              find_symbol-Unwritten,
          (
            reading_tool-IsQuiet "" "" 0 m.models.tree_args
                (repository_tree m.resolve m.workspace m.children m.tree m.compile m.shown)
                repository_tree-Unwritten,
            (λ is. absurd (cc is), (λ is. absurd (cc is), (λ is. absurd (cc is), tt))),
          ),
        ),
      ),
    ),
  )

  registry-IsQuiet : (tools : List (Tool Disk)) → build_registry m ≡ some tools → All IsQuiet tools
  registry-IsQuiet tools e =
      let same : all_tools ≡ tools = cc (built_of, e) in subst (All IsQuiet) same all_tools-IsQuiet

-- The same of a tool that stands beside something else.
abbrev IsQuietBeside : {S : Type 0} → Tool (Disk × S) → Type 0
IsQuietBeside {S} tool =
    tool.mutating ≡ false
    → (context : ToolContext) (arguments : Arguments) (w : Disk × S)
    → ((tool.handler context arguments w).1 ≡ context.changes)
      × ((tool.handler context arguments w).2.0 ≡ w.0)

beside-IsQuiet :
    (S : Type 0) (tools : List (Tool Disk))
    → All IsQuiet tools
    → All (IsQuietBeside {S = S}) (map beside tools)
beside-IsQuiet S [] h = tt
beside-IsQuiet S (tool ∷ tools) h =
    (λ same context arguments w. h.0 same context arguments w.0, beside-IsQuiet S tools h.1)

-- Whatever the model asks for, planning and the self-check write nothing. Take the registry that
-- `build_registry` builds, and a provider whose answers leave the disk alone. Then after `build_plan`
-- and after `verify` the disk and the recorded changes are what they were, whether these return or
-- raise.
pub phases-Kept :
    {S : Type 0} (m : Machine) (tools : List (Tool Disk)) (provider : Provider (Disk × S))
    (analysis : IssueAnalysis) (retrieved : List RetrievedChunk) (repository_summary : String)
    (plan : ImplementationPlan) (diff_text : String) (outcomes : List TestOutcome)
    (limits : Option LoopLimits) (desk : Desk (Disk × S))
    → build_registry m ≡ some tools
    → ((messages : List Message) (schemas : Option (List ToolSchema)) (w : Disk × S)
        → (provider.generate messages schemas w).1.0 ≡ w.0)
    → Kept
        (λ w. w.0)
        desk
        (build_plan provider (map beside tools) analysis retrieved repository_summary limits desk).1
      × Kept
          (λ w. w.0)
          desk
          (verify provider (map beside tools) plan diff_text outcomes limits desk).1
phases-Kept {S} m tools provider analysis retrieved repository_summary plan diff_text outcomes
      limits desk built answers =
    let untouching : IsUntouching provider.generate (map beside tools) (λ w. w.0) = record {
      answers = answers;
      tools_keep = λ tool found.
          All-mem IsQuietBeside (map beside tools)
            (beside-IsQuiet S tools (registry-IsQuiet m tools built)) found;
    } in
    (
      build_plan-Kept (λ w. w.0) provider (map beside tools) untouching analysis retrieved
          repository_summary limits desk,
      verify-Kept (λ w. w.0) provider (map beside tools) untouching plan diff_text outcomes limits
          desk,
    )
