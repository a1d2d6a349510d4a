-- ===== src/Llm/Structured.antt =====
-- llm/base.py, `generate_structured`, and agent/loop.py, `conclude_with_schema`. The validation of
-- a text against a schema is Pydantic's: an argument, which returns the value or the error's text.
pub mod Accepted
pub mod Untouched
use pullsmith.Common.{
  ℕ, zero, suc, ◌+◌, ◌⊎◌, inl, inr, String, Bool, true, false, Option, none, some, List, [], ◌∷◌,
  ◌++◌, map, not, ◌&&◌, leb, ltb, if◌then◌else◌, is_nil, is_blank, take_text, join, show, ◌<>◌,
}
use pullsmith.Llm.{
  Role, Message, ToolCall, Usage, no_usage, add_usage, LlmResponse, Reply, answered, llm_error,
  LlmError, structured_output_error, Generate,
}
use pullsmith.Llm.ExtractJson.{extract_json}

-- A validated object with what it cost, or an `LLMError`.
pub data Outcome (A : Type 0) : Type 0 where
  got : A → Usage → Outcome A
  failed : LlmError → Outcome A

-- What an attempt leads to.
pub data Attempt (A : Type 0) : Type 0 where
  ended : Outcome A → Attempt A
  repair : List Message → String → Attempt A

abbrev said : Role → String → Message
said role content = record { role = role; content = content; tool_call_id = none; tool_name = none }

-- ", ".join(call.name for call in response.tool_calls)
unfoldable pub requested : LlmResponse → String
unfolding join
requested response = join ", " (map (λ c. c.name) response.tool_calls)

unfoldable no_text : (schema_name : String) → (attempt : ℕ) → LlmResponse → String
unfolding requested
no_text schema_name attempt response =
    "Model returned no text for "
    <> schema_name
    <> " after "
    <> show attempt
    <> " attempt(s) (finish_reason="
    <> response.finish_reason
    <> ", "
    <> show response.usage.output_tokens
    <> " output tokens charged"
    <> (if is_nil response.tool_calls then "" else ", requested tools: " <> requested response)
    <> "). If finish_reason is MAX_TOKENS the output budget was consumed before any answer was produced; raise LLM_MAX_OUTPUT_TOKENS."

unfoldable pub gave_up : (schema_name : String) → (max_repair_attempts : ℕ) → String → String
gave_up schema_name max_repair_attempts last_error =
    "Could not obtain valid "
    <> schema_name
    <> " after "
    <> show (max_repair_attempts + 1)
    <> " attempts: "
    <> last_error

module _ {World A : Type 0} (generate : Generate World) (validate : String → A ⊎ String)
    (schema_name : String) (max_repair_attempts : ℕ) where
  -- What comes of a text that was validated.
  unfoldable pub on_validated :
      (attempt : ℕ) → List Message → Usage → (text : String) → A ⊎ String → Attempt A
  unfolding gave_up take_text
  on_validated attempt conversation total text (inl value) = ended (got value total)
  on_validated attempt conversation total text (inr errors) =
      let last_error = take_text 600 errors in
      if ltb max_repair_attempts attempt
      then ended
          (failed (structured_output_error (gave_up schema_name max_repair_attempts last_error)))
      else repair
          (conversation
            ++ said Role.assistant (take_text 2000 text)
              ∷ said Role.user (
                  "That response was not valid for the required schema. Errors:\n" <> last_error
                  <> "\n\nReply with corrected JSON only, no prose and no code fences.")
              ∷ [])
          last_error

  unfoldable pub on_response : (attempt : ℕ) → List Message → Usage → LlmResponse → Attempt A
  unfolding on_validated no_text requested extract_json is_blank
  on_response attempt conversation total response =
      if is_blank response.text
      then if not (is_nil response.tool_calls) && leb attempt max_repair_attempts
        then repair
            (conversation
              ++ said Role.assistant ("(requested " <> requested response <> ")")
                ∷ said Role.user
                    "No tools are available in this step, and no further investigation is possible. Answer using only what you have already gathered. Reply with a single JSON object and nothing else."
                ∷ [])
            ("model requested tools (" <> requested response <> ") instead of returning JSON")
        else ended (failed (structured_output_error (no_text schema_name attempt response)))
      else on_validated attempt conversation total response.text
          (validate (extract_json response.text))

  abbrev pub on_reply : (attempt : ℕ) → List Message → Usage → Reply → Attempt A
  on_reply attempt conversation total (llm_error why) = ended (failed why)
  on_reply attempt conversation total (answered response) =
      on_response attempt conversation (add_usage total response.usage) response

  abbrev pub total_after : Usage → Reply → Usage
  total_after total (llm_error why) = total
  total_after total (answered response) = add_usage total response.usage

  abbrev pub repaired :
      (List Message → String → World → Outcome A × World) → Attempt A → World → Outcome A × World
  repaired more (ended outcome) world = (outcome, world)
  repaired more (repair conversation last_error) world = more conversation last_error world

  -- `remaining` attempts are left, from the number `attempt` on.
  unfoldable pub attempts_from :
      (remaining attempt : ℕ)
      → List Message
      → Usage
      → (last_error : String) → World
      → Outcome A × World
  unfolding on_response add_usage gave_up
  attempts_from zero attempt conversation total last_error world =
      (failed (structured_output_error (gave_up schema_name max_repair_attempts last_error)), world)
  attempts_from (suc remaining) attempt conversation total last_error world =
      let reply = generate conversation none world in
      repaired
        (λ next why w. attempts_from remaining (suc attempt) next (total_after total reply.0) why w)
        (on_reply attempt conversation total reply.0) reply.1

  unfoldable pub generate_structured : List Message → World → Outcome A × World
  unfolding attempts_from
  generate_structured messages world =
      attempts_from (max_repair_attempts + 1) 1 messages no_usage "" world
