-- ===== src/Llm.antt =====
-- llm/base.py: what the program says to a model and what comes back. A provider is not modelled:
-- its answers depend on a `World`, as everything outside of the process does.
pub mod ExtractJson
pub mod Structured
use pullsmith.Common.{ℕ, ◌+◌, String, Bool, Option, List, not, is_nil}
use pullsmith.Db.{Json}

pub data Role : Type 0 where
  system user assistant tool : Role

pub record Message : Type 0 where
  pub role : Role
  pub content : String
  pub tool_call_id : Option String
  pub tool_name : Option String

-- `dict[str, Any]`
abbrev pub Arguments : Type 0
Arguments = List (String × Json)

pub record ToolCall : Type 0 where
  pub id : String
  pub name : String
  pub arguments : Arguments

pub record Usage : Type 0 where
  pub input_tokens : ℕ
  pub output_tokens : ℕ
  pub calls : ℕ

abbrev pub no_usage : Usage
no_usage = record { input_tokens = 0; output_tokens = 0; calls = 0 }

unfoldable pub total_tokens : Usage → ℕ
total_tokens u = u.input_tokens + u.output_tokens

unfoldable pub add_usage : Usage → Usage → Usage
add_usage u other = record {
  input_tokens = u.input_tokens + other.input_tokens;
  output_tokens = u.output_tokens + other.output_tokens;
  calls = u.calls + other.calls;
}

pub record LlmResponse : Type 0 where
  pub text : String
  pub tool_calls : List ToolCall
  pub usage : Usage
  pub finish_reason : String

unfoldable pub wants_tools : LlmResponse → Bool
wants_tools response = not (is_nil response.tool_calls)

-- The function declaration that a model is told of.
pub record ToolSchema : Type 0 where
  pub name : String
  pub description : String
  pub parameters : Arguments

-- The exceptions of a provider and of `generate_structured`, with their texts.
pub data LlmError : Type 0 where
  llm_failure structured_output_error quota_exceeded : String → LlmError

-- An answer, or an `LLMError`.
pub data Reply : Type 0 where
  answered : LlmResponse → Reply
  llm_error : LlmError → Reply

-- `LLMProvider.generate`, with its `tools`; the temperature and the output limit are the provider's.
abbrev pub Generate : Type 0 → Type 0
Generate World = List Message → Option (List ToolSchema) → World → Reply × World
