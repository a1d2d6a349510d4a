-- ===== src/Tests/Structured.antt =====
-- The theorem on structured output, applied to a model that corrects itself once.
use pullsmith.Common.{
  ◌≡◌, ◌⊎◌, refl, inl, inr, ℕ, zero, suc, ◌+◌, ◌≤◌, String, none, List, [], ◌∷◌, str_eq,
  if◌then◌else◌,
}
use pullsmith.Llm.{Role, Message, Usage, LlmResponse, answered, Generate}
use pullsmith.Llm.Structured.{got, generate_structured}
use pullsmith.Llm.Structured.Accepted.{IsAnswered, generate_structured-Accepted}

abbrev saying : String → LlmResponse
saying text = record {
  text = text;
  tool_calls = [];
  usage = record { input_tokens = 10; output_tokens = 5; calls = 1 };
  finish_reason = "stop";
}

abbrev answer : ℕ → LlmResponse
answer zero = saying "I think"
answer (suc n) = saying "{}"

-- The world counts the requests.
abbrev corrected : Generate ℕ
corrected messages tools w = (answered (answer w), w + 1)

abbrev accept_object : String → ℕ ⊎ String
accept_object text = if str_eq text "{}" then inl 1 else inr "not an object"

abbrev question : List Message
question =
    record { role = Role.user; content = "plan it"; tool_call_id = none; tool_name = none } ∷ []

generate_structured-Accepted_example :
    let r = generate_structured corrected accept_object "Plan" 2 question 0 in
    ((a : ℕ) (usage : Usage)
      → r.0 ≡ got a usage
      → IsAnswered corrected accept_object question a r.1)
    × (r.1 ≤ 0 + (2 + 1))
generate_structured-Accepted_example =
    generate_structured-Accepted corrected accept_object "Plan" 2 question 0 (λ w. w)
      (λ m s w. refl)

two_requests : (generate_structured corrected accept_object "Plan" 2 question 0).1 ≡ 2
unfolding generate_structured
two_requests = refl
