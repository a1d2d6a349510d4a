-- ===== src/Tests/Agent.antt =====
-- The theorems on the tool loop, applied to a model that asks for one file and then ends.
use mathlib.Core.List.{Memᴰ}
use pullsmith.Common.{
  ◌≡◌, inl, ℕ, zero, suc, ◌+◌, ◌≤◌, ◌++◌, false, none, List, [], ◌∷◌, arith, or_else,
}
use pullsmith.Llm.{Role, Message, Arguments, LlmResponse, answered, Generate}
use pullsmith.Tools.{ToolContext, returned, success, Tool}
use pullsmith.Loop.{default_limits, run_tool_loop}
use pullsmith.Loop.Bounds.{run_tool_loop-bounds}

-- The world counts what has been asked of it.
abbrev pub reading : Tool ℕ
reading = record {
  name = "read_file";
  description = "Reads a file";
  parameters = [];
  validate = λ arguments. inl arguments;
  handler = λ context arguments w. (returned (success "text" []), context.changes, w + 1);
  timeout_seconds = 30;
  mutating = false;
}

abbrev asking : LlmResponse
asking = record {
  text = "";
  tool_calls = record { id = "c1"; name = "read_file"; arguments = [] } ∷ [];
  usage = record { input_tokens = 10; output_tokens = 5; calls = 1 };
  finish_reason = "stop";
}

abbrev ending : LlmResponse
ending = record asking { text = "done"; tool_calls = [] }

abbrev answer : ℕ → LlmResponse
answer zero = asking
answer (suc n) = ending

abbrev pub model : Generate ℕ
model messages schemas w = (answered (answer w), w)

abbrev pub context : ToolContext
context = record {
  run_id = "r";
  snapshot_id = none;
  tool_calls_used = 0;
  max_tool_calls = 60;
  changes = [];
}

abbrev prompt : List Message
prompt = record { role = Role.user; content = "fix it"; tool_call_id = none; tool_name = none } ∷ []

run_tool_loop-bounds_example :
    let left = (run_tool_loop model (reading ∷ []) context prompt none false 0).1 in
    (left.outcome.steps_used ≤ (or_else none default_limits).max_steps)
    × (left.context.tool_calls_used ≤ context.max_tool_calls)
    × ((more : List Message) × (left.outcome.transcript ≡ prompt ++ more))
run_tool_loop-bounds_example =
    run_tool_loop-bounds model (reading ∷ []) context prompt none false 0 (omega arith)

pub honest :
    (tool : Tool ℕ)
    → Memᴰ tool (reading ∷ [])
    → tool.mutating ≡ false
    → (c : ToolContext) (arguments : Arguments) (w : ℕ) → (tool.handler c arguments w).1 ≡ c.changes
honest tool (Memᴰ.head e) m c arguments w = rw e
honest tool (Memᴰ.tail n) m c arguments w = elim n [ ]
