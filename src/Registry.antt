-- ===== src/Registry.antt =====
-- agent/runtime.py, `build_registry`: every tool of the agent. The tools act on the disk; what else a
-- provider or a runner acts on stands beside it in the World.
pub mod ReadOnly
use pullsmith.Common.{ℕ, ◌⊎◌, String, Bool, Option, none, some, List, [], map}
use pullsmith.Llm.{Arguments}
use pullsmith.Disk.{Disk}
use pullsmith.Tools.{ToolContext, Tool}
use pullsmith.Editing.Registered.{register_editing_tools}
use pullsmith.Reading.Registered.{Models, register_filesystem_tools}

abbrev pub beside : {S : Type 0} → Tool Disk → Tool (Disk × S)
beside tool = record {
  name = tool.name;
  description = tool.description;
  parameters = tool.parameters;
  validate = tool.validate;
  handler = λ context arguments w.
      let left = tool.handler context arguments w.0 in (left.0, left.1, (left.2, w.1));
  timeout_seconds = tool.timeout_seconds;
  mutating = tool.mutating;
}

-- What the standard library, pydantic and the disk do.
pub record Machine : Type 0 where
  pub resolve : List String → List String
  pub workspace : List String
  pub children : List String → Disk → List String
  pub tree : List String → Disk → List (List String)
  pub compile : (pattern : String) → (is_regex case_sensitive : Bool) → String ⊎ (String → Bool)
  pub shown : String → String
  pub escape : String → String
  pub os_error : List String → String
  pub schema_of : String → Arguments
  pub models : Models
  pub errors : String → Arguments → String

-- The ValueError of a name that is taken is none.
unfoldable pub build_registry : Machine → Option (List (Tool Disk))
unfolding register_filesystem_tools register_editing_tools
build_registry m =
    elim (register_filesystem_tools m.resolve m.workspace m.children m.tree m.compile m.shown
      m.escape m.schema_of m.models []) [
        | none ↦ none
        | some tools ↦
            register_editing_tools m.resolve m.workspace m.os_error m.schema_of m.errors tools
      ]
