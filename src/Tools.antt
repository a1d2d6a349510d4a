-- ===== src/Tools.antt =====
-- agent/tools/base.py: the registry of tools and the one way to run one of them. Everything
-- outside of the process, the workspace's files included, is a `World` that a handler is given
-- and hands on. `duration_ms`, which is measured, is left out.
pub mod Execute
use pullsmith.Common.{
  ℕ, ◌+◌, ◌⊎◌, inl, inr, ◌++◌, String, Bool, true, false, Option, none, some, List, [], ◌∷◌, map,
  not, ◌&&◌, ◌||◌, leb, if◌then◌else◌, str_eq, text_lt, find_row, where_rows, join, show, ◌<>◌,
}
use pullsmith.Db.{Json}
use pullsmith.Diff.{FileChange}
use pullsmith.Llm.{Arguments, ToolSchema}

pub record ToolContext : Type 0 where
  pub run_id : String
  pub snapshot_id : Option String
  pub tool_calls_used : ℕ
  pub max_tool_calls : ℕ
  pub changes : List FileChange

pub record ToolResult : Type 0 where
  pub ok : Bool
  pub output : String
  pub details : Arguments
  pub error_code : Option String

unfoldable pub success : String → Arguments → ToolResult
success output details = record { ok = true; output = output; details = details; error_code = none }

unfoldable pub failure : String → String → ToolResult
failure code message = record { ok = false; output = message; details = []; error_code = some code }

-- How a handler ends: it returns, runs out of time, or raises a `SafetyError` or another exception.
pub data Handled : Type 0 where
  returned : ToolResult → Handled
  timed_out : Handled
  safety_refused : String → Handled
  crashed : String → Handled

-- Of the context, a handler may write `changes`.
pub record Tool (World : Type 0) : Type 0 where
  pub name : String
  pub description : String
  pub parameters : Arguments
  pub validate : Arguments → Arguments ⊎ String
  pub handler : ToolContext → Arguments → World → Handled × List FileChange × World
  pub timeout_seconds : ℕ
  pub mutating : Bool

-- What the run is left with after a call.
pub record Executed (World : Type 0) : Type 0 where
  pub result : ToolResult
  pub context : ToolContext
  pub world : World

module _ {World : Type 0} where
  unfoldable json_schema : Tool World → ToolSchema
  json_schema tool = record {
    name = tool.name;
    description = tool.description;
    parameters = where_rows (λ p. not (str_eq p.0 "title")) tool.parameters;
  }

  -- A registry's tools in the order of their registration.
  unfoldable pub get : String → List (Tool World) → Option (Tool World)
  get name tools = find_row (λ t. str_eq t.name name) tools

  -- The ValueError of a second tool of the name is `none`.
  unfoldable pub register : Tool World → List (Tool World) → Option (List (Tool World))
  unfolding get
  register tool tools = elim (get tool.name tools) [
    | none ↦ some (tools ++ tool ∷ [])
    | some earlier ↦ none
  ]

  unfoldable insert_tool : Tool World → List (Tool World) → List (Tool World)
  unfolding text_lt
  insert_tool tool [] = tool ∷ []
  insert_tool tool (t ∷ ts) =
      let rest = insert_tool tool ts in if text_lt t.name tool.name then t ∷ rest else tool ∷ t ∷ ts

  -- sorted(…, key=lambda item: item.name)
  unfoldable by_name : List (Tool World) → List (Tool World)
  unfolding insert_tool
  by_name [] = []
  by_name (t ∷ ts) = insert_tool t (by_name ts)

  unfoldable pub names : List (Tool World) → List String
  unfolding by_name
  names tools = map (λ t. t.name) (by_name tools)

  unfoldable pub schemas : (include_mutating : Bool) → List (Tool World) → List ToolSchema
  unfolding by_name json_schema
  schemas include_mutating tools =
      map json_schema (where_rows (λ t. include_mutating || not t.mutating) (by_name tools))

  unfoldable pub result_of : Tool World → Handled → ToolResult
  unfolding failure
  result_of tool (returned result) = result
  result_of tool timed_out =
      failure "TOOL_TIMEOUT"
        (tool.name <> " exceeded " <> show tool.timeout_seconds <> "s and was stopped")
  result_of tool (safety_refused why) = failure "SAFETY_REFUSED" why
  result_of tool (crashed why) = failure "TOOL_ERROR" why

  unfoldable pub run_handler : Tool World → ToolContext → Arguments → World → Executed World
  unfolding result_of
  run_handler tool context arguments world =
      let counted : ToolContext = record context {
        tool_calls_used = context.tool_calls_used + 1;
      } in
      let ended = tool.handler counted arguments world in
      record {
        result = result_of tool ended.0;
        context = record counted { changes = ended.1 };
        world = ended.2;
      }

  abbrev refused : ToolContext → World → String → String → Executed World
  refused context world code message = record {
    result = failure code message;
    context = context;
    world = world;
  }

  unfoldable pub execute :
      List (Tool World)
      → ToolContext
      → String
      → Arguments
      → (allow_mutating : Bool) → World
      → Executed World
  unfolding get names run_handler failure join
  execute tools context name raw_arguments allow_mutating world =
      if leb context.max_tool_calls context.tool_calls_used
      then refused context world "TOOL_BUDGET_EXCEEDED"
          ("Tool call budget of " <> show context.max_tool_calls <> " exhausted")
      else (elim (get name tools) [
        | none ↦
            refused context world "UNKNOWN_TOOL"
              ("No such tool: " <> name <> ". Available: " <> join ", " (names tools))
        | some tool ↦
            if tool.mutating && not allow_mutating
            then refused context world "TOOL_NOT_PERMITTED"
                (name <> " modifies the repository and is not permitted in this phase")
            else (elim (tool.validate raw_arguments) [
              | inr errors ↦
                  refused context world "INVALID_ARGUMENTS"
                    ("Arguments rejected for " <> name <> ": " <> errors)
              | inl arguments ↦ run_handler tool context arguments world
            ])
      ])
