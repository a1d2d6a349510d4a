-- ===== src/Loop/Conclude.antt =====
-- agent/loop.py, `conclude_with_schema`: what the loop gathered becomes a validated object.
use pullsmith.Common.{String, ◌⊎◌, none, [], ◌∷◌, ◌++◌, ◌<>◌}
use pullsmith.Llm.{Role, add_usage, Generate}
use pullsmith.Llm.Structured.{Outcome, got, failed, generate_structured}
use pullsmith.Loop.{LoopOutcome}

-- `json.dumps(schema.model_json_schema(), indent=2)` is the argument `schema_text`.
unfoldable schema_instruction : (schema_text : String) → String
schema_instruction schema_text =
    "Reply with a single JSON object and nothing else. No prose, no code fences.\nIt must satisfy this JSON Schema:\n"
    <> schema_text

abbrev charged_for : {A : Type 0} → LoopOutcome → Outcome A → LoopOutcome
charged_for outcome (got value usage) = record outcome { usage = add_usage outcome.usage usage }
charged_for outcome (failed why) = outcome

unfoldable pub conclude_with_schema :
    {World A : Type 0}
    → Generate World
    → (validate : String → A ⊎ String) → (schema_name schema_text : String) → LoopOutcome
    → (instruction : String) → World
    → Outcome A × LoopOutcome × World
unfolding generate_structured add_usage schema_instruction
conclude_with_schema generate validate schema_name schema_text outcome instruction world =
    let messages =
      outcome.transcript
      ++ record {
        role = Role.user;
        content = instruction <> "\n\n" <> schema_instruction schema_text;
        tool_call_id = none;
        tool_name = none;
      }
        ∷ [] in
    let answer = generate_structured generate validate schema_name 2 messages world in
    (answer.0, charged_for outcome answer.0, answer.1)
