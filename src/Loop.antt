-- ===== src/Loop.antt =====
-- agent/loop.py: the tool-calling loop. A run of it is a sequence of turns, one per step; the
-- reports to the observer are kept in the order in which they are made.
mod Keeps
pub mod Bounds
pub mod Conclude
use pullsmith.Common.{
  ℕ, zero, suc, ◌+◌, String, Bool, true, false, Option, none, some, List, [], ◌∷◌, ◌++◌, map, ltb,
  not, if◌then◌else◌, str_eq, or_else, or_text, where_rows, join, show, ◌<>◌,
}
use pullsmith.Llm.{
  Role, Message, Arguments, ToolCall, Usage, no_usage, total_tokens, add_usage, LlmResponse,
  wants_tools, Reply, answered, llm_error, LlmError, Generate,
}
use pullsmith.Tools.{ToolContext, ToolResult, Tool, Executed, schemas, execute}

pub record LoopLimits : Type 0 where
  pub max_steps : ℕ
  pub max_tokens : ℕ

abbrev pub default_limits : LoopLimits
default_limits = record { max_steps = 12; max_tokens = 200000 }

pub record LoopOutcome : Type 0 where
  pub transcript : List Message
  pub usage : Usage
  pub steps_used : ℕ
  pub tool_calls : List (String × ToolResult)
  pub stopped_because : String

unfoldable observations : LoopOutcome → String
unfolding join
observations outcome =
    join "\n\n"
      (map (λ c. "[" <> c.0 <> "]\n" <> c.1.output) (where_rows (λ c. c.1.ok) outcome.tool_calls))

pub data Report : Type 0 where
  warned : String → Report
  called : String → Arguments → Bool → Option String → Report

-- The loop's variables, and what it shares with its caller.
pub record State (World : Type 0) : Type 0 where
  pub outcome : LoopOutcome
  pub context : ToolContext
  pub world : World
  pub reports : List Report

-- A turn ends the loop, by `return` or by an `LLMError`, or another one follows.
pub data Turn (World : Type 0) : Type 0 where
  returned : State World → Turn World
  raised : LlmError → State World → Turn World
  again : State World → Turn World

abbrev pub over_budget : ToolResult → Bool
over_budget result = str_eq (or_else result.error_code "") "TOOL_BUDGET_EXCEEDED"

abbrev pub tool_message : ToolCall → ToolResult → Message
tool_message call result = record {
  role = Role.tool;
  content = result.output;
  tool_call_id = some call.id;
  tool_name = some call.name;
}

module _ {World : Type 0} where
  abbrev pub stopped : String → State World → State World
  stopped why st = record st { outcome = record st.outcome { stopped_because = why } }

  abbrev pub reported : Report → State World → State World
  reported r st = record st { reports = st.reports ++ r ∷ [] }

  abbrev pub said : Message → State World → State World
  said m st = record st {
    outcome = record st.outcome { transcript = st.outcome.transcript ++ m ∷ [] };
  }

  -- One call of the response: what it did, recorded, reported and said to the model.
  unfoldable pub take_call : ToolCall → Executed World → State World → State World
  take_call call done st = record {
    outcome = record st.outcome {
      tool_calls = st.outcome.tool_calls ++ (call.name, done.result) ∷ [];
      transcript = st.outcome.transcript ++ tool_message call done.result ∷ [];
    };
    context = done.context;
    world = done.world;
    reports =
        st.reports ++ called call.name call.arguments done.result.ok done.result.error_code ∷ [];
  }

  unfoldable pub take_calls :
      List (Tool World) → (allow_mutating : Bool) → List ToolCall → State World → Turn World
  unfolding take_call
  take_calls tools allow_mutating [] st = again st
  take_calls tools allow_mutating (call ∷ calls) st =
      let done = execute tools st.context call.name call.arguments allow_mutating st.world in
      let next = take_call call done st in
      let rest = take_calls tools allow_mutating calls next in
      if over_budget done.result then returned (stopped "tool_budget_exceeded" next) else rest

  unfoldable pub take_response :
      List (Tool World)
      → LoopLimits
      → (allow_mutating : Bool) → LlmResponse
      → State World
      → Turn World
  unfolding take_calls total_tokens add_usage wants_tools
  take_response tools limits allow_mutating response st =
      let usage = add_usage st.outcome.usage response.usage in
      let charged : State World = record st { outcome = record st.outcome { usage = usage } } in
      if ltb limits.max_tokens (total_tokens usage)
      then returned (
          reported (warned "Token budget reached while exploring")
            (stopped "token_budget_exceeded" charged))
      else if not (wants_tools response)
      then returned (
          stopped "model_finished" (
            said
              (record {
                role = Role.assistant;
                content = response.text;
                tool_call_id = none;
                tool_name = none;
              })
              charged))
      else take_calls tools allow_mutating response.tool_calls (
          said
            (record {
              role = Role.assistant;
              content = or_text (some response.text) "(requesting tools)";
              tool_call_id = none;
              tool_name = none;
            })
            charged)

  unfoldable pub take_reply :
      List (Tool World) → LoopLimits → (allow_mutating : Bool) → Reply → State World → Turn World
  unfolding take_response
  take_reply tools limits allow_mutating (llm_error why) st = raised why st
  take_reply tools limits allow_mutating (answered response) st =
      take_response tools limits allow_mutating response st

  unfoldable pub take_turn :
      Generate World
      → List (Tool World)
      → LoopLimits
      → (allow_mutating : Bool) → (step : ℕ) → State World
      → Turn World
  unfolding take_reply
  take_turn generate tools limits allow_mutating step st =
      let begun : State World = record st { outcome = record st.outcome { steps_used = step } } in
      let answer = generate st.outcome.transcript (some (schemas allow_mutating tools)) st.world in
      let after : State World = record begun { world = answer.1 } in
      take_reply tools limits allow_mutating answer.0 after

  -- What the loop returns, or the error that it raises.
  abbrev pub go_on :
      (State World → Option LlmError × State World) → Turn World → Option LlmError × State World
  go_on more (returned st) = (none, st)
  go_on more (raised why st) = (some why, st)
  go_on more (again st) = more st

  -- `remaining` steps are left from `step` on.
  unfoldable pub loop_from :
      Generate World
      → List (Tool World)
      → LoopLimits
      → (allow_mutating : Bool) → (remaining step : ℕ) → State World
      → Option LlmError × State World
  unfolding take_turn
  loop_from generate tools limits allow_mutating zero step st = (
    none,
    reported (warned ("Stopped exploring after " <> show limits.max_steps <> " steps"))
        (stopped "max_steps_reached" st),
  )
  loop_from generate tools limits allow_mutating (suc remaining) step st =
      go_on (λ next. loop_from generate tools limits allow_mutating remaining (suc step) next)
        (take_turn generate tools limits allow_mutating step st)

  abbrev pub begin : List Message → ToolContext → World → State World
  begin messages context world = record {
    outcome = record {
      transcript = messages;
      usage = no_usage;
      steps_used = 0;
      tool_calls = [];
      stopped_because = "model_finished";
    };
    context = context;
    world = world;
    reports = [];
  }

  unfoldable pub run_tool_loop :
      Generate World
      → List (Tool World)
      → ToolContext
      → List Message
      → Option LoopLimits
      → (allow_mutating : Bool) → World
      → Option LlmError × State World
  unfolding loop_from
  run_tool_loop generate tools context messages limits allow_mutating world =
      let limits = or_else limits default_limits in
      loop_from generate tools limits allow_mutating limits.max_steps 1
        (begin messages context world)
