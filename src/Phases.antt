-- ===== src/Phases.antt =====
-- What the phases of the agent (agent/planner.py, agent/repair.py) work with: a phase acts on a
-- desk, the tool context, the `World` and the reports that its observer has been given, in their
-- order, and returns or raises.
use pullsmith.Common.{
  ◌≡◌, ◌⊎◌, inl, inr, String, Bool, Option, none, some, List, [], ◌∷◌, ◌++◌, map, ◌<>◌,
}
use pullsmith.States.{FailureCategory}
use pullsmith.Db.{Json, null, bool, text, object, fields_of}
use pullsmith.Schemas.{IssueAnalysis, ImplementationPlan, FailureAnalysis, VerificationResult}
use pullsmith.Llm.{
  Role, Message, Usage, LlmError, llm_failure, structured_output_error, quota_exceeded, Generate,
}
use pullsmith.Llm.Structured
use pullsmith.Llm.Structured.{Outcome, generate_structured}
use pullsmith.Tools.{ToolContext, Tool}
use pullsmith.Loop
use pullsmith.Loop.{LoopLimits, LoopOutcome, run_tool_loop}
use pullsmith.Loop.Conclude.{conclude_with_schema}

-- The exceptions that the code tells apart: `RunAborted`, `QuotaExceededError`,
-- `ApprovalRequiredError` and any other, as `Type: text`.
pub data Raised : Type 0 where
  aborted : FailureCategory → String → Raised
  quota : String → Raised
  unapproved : String → Raised
  crashed : String → Raised

abbrev of_llm : LlmError → Raised
of_llm (llm_failure why) = crashed ("LLMError: " <> why)
of_llm (structured_output_error why) = crashed ("StructuredOutputError: " <> why)
of_llm (quota_exceeded why) = quota why

abbrev of_outcome : {A : Type 0} → Outcome A → Raised ⊎ (A × Usage)
of_outcome (Structured.got value usage) = inr (value, usage)
of_outcome (Structured.failed why) = inl (of_llm why)

-- What a schema of agent/schemas.py is to Pydantic.
pub record Schema (A : Type 0) : Type 0 where
  pub name : String
  pub schema_text : String
  pub validate : String → A ⊎ String

-- The provider, with the schemas that the agent asks it for.
pub record Provider (World : Type 0) : Type 0 where
  pub generate : Generate World
  pub issue_analysis : Schema IssueAnalysis
  pub implementation_plan : Schema ImplementationPlan
  pub failure_analysis : Schema FailureAnalysis
  pub verification_result : Schema VerificationResult

-- An event's kind and payload, as `observer(kind, payload)` gets them.
abbrev pub Observed : Type 0
Observed = String × List (String × Json)

pub record Desk (World : Type 0) : Type 0 where
  pub context : ToolContext
  pub world : World
  pub reports : List Observed

-- What acts on a state and returns or raises; what it did before it raised stays.
abbrev pub Fallible : Type 0 → Type 0 → Type 0
Fallible S A = S → (Raised ⊎ A) × S

abbrev pub Phase : Type 0 → Type 0 → Type 0
Phase World A = Fallible (Desk World) A

abbrev optional_code : Option String → Json
optional_code none = null
optional_code (some code) = text code

-- The reports of the tool loop; the measured duration is left out.
unfoldable observed : Loop.Report → Observed
unfolding fields_of
observed (Loop.warned message) = ("warning", ("message", text message) ∷ [])
observed (Loop.called tool arguments ok error_code) = (
  "tool_call",
  ("tool", text tool)
      ∷ ("arguments", object (fields_of arguments))
      ∷ ("ok", bool ok)
      ∷ ("error_code", optional_code error_code)
      ∷ [],
)

abbrev pub said : Role → String → Message
said role content = record { role = role; content = content; tool_call_id = none; tool_name = none }

abbrev raised_or : {A : Type 0} → Option LlmError → A → Raised ⊎ A
raised_or none a = inr a
raised_or (some why) a = inl (of_llm why)

abbrev with_charged :
    {A : Type 0} → LoopOutcome → Raised ⊎ (A × Usage) → Raised ⊎ (A × LoopOutcome × Usage)
with_charged outcome (inl why) = inl why
with_charged outcome (inr (value, usage)) = inr (value, outcome, usage)

module _ {S : Type 0} where
  abbrev pub return : {A : Type 0} → A → Fallible S A
  return a = λ s. (inr a, s)

  abbrev pub raise : {A : Type 0} → Raised → Fallible S A
  raise why = λ s. (inl why, s)

  abbrev pub then_do : {A B : Type 0} → (Raised ⊎ A) × S → (A → Fallible S B) → (Raised ⊎ B) × S
  then_do (inl why, s) f = (inl why, s)
  then_do (inr a, s) f = f a s

  infixl 5 ◌>>=◌ ◌>>◌
  abbrev pub ◌>>=◌ : {A B : Type 0} → Fallible S A → (A → Fallible S B) → Fallible S B
  m >>= f = λ s. then_do (m s) f

  abbrev pub ◌>>◌ : {A B : Type 0} → Fallible S A → Fallible S B → Fallible S B
  m >> n = m >>= λ _. n

module _ {World : Type 0} where
  abbrev pub reported : String → List (String × Json) → Desk World → Desk World
  reported kind payload desk = record desk { reports = desk.reports ++ (kind, payload) ∷ [] }

  abbrev pub report : String → List (String × Json) → Phase World (Unit {0})
  report kind payload = λ desk. (inr tt, reported kind payload desk)

  abbrev pub on_context : {A : Type 0} → (ToolContext → A) → Phase World A
  on_context f = λ desk. (inr (f desk.context), desk)

  -- A call of a collaborator.
  abbrev pub call : {A : Type 0} → (World → (Raised ⊎ A) × World) → Phase World A
  call f = λ desk. let r = f desk.world in (r.0, record desk { world = r.1 })

  abbrev pub text_crashed : {A : Type 0} → (String ⊎ A) × World → (Raised ⊎ A) × World
  text_crashed (inl why, world) = (inl (crashed why), world)
  text_crashed (inr a, world) = (inr a, world)

  -- `run_tool_loop` with the observer of the run.
  unfoldable pub tool_loop :
      Provider World
      → List (Tool World)
      → List Message
      → Option LoopLimits
      → (allow_mutating : Bool) → Phase World LoopOutcome
  unfolding run_tool_loop observed
  tool_loop provider tools messages limits allow_mutating desk =
      let ended =
        run_tool_loop provider.generate tools desk.context messages limits allow_mutating
          desk.world in
      (
        raised_or ended.0 ended.1.outcome,
        record {
          context = ended.1.context;
          world = ended.1.world;
          reports = desk.reports ++ map observed ended.1.reports;
        },
      )

  unfoldable pub structured :
      {A : Type 0}
      → Provider World
      → Schema A
      → List Message
      → World
      → (Raised ⊎ (A × Usage)) × World
  unfolding generate_structured
  structured provider schema messages world =
      let answer =
        generate_structured provider.generate schema.validate schema.name 2 messages world in
      (of_outcome answer.0, answer.1)

  unfoldable pub conclude :
      {A : Type 0}
      → Provider World
      → Schema A
      → LoopOutcome
      → (instruction : String) → World
      → (Raised ⊎ (A × LoopOutcome × Usage)) × World
  unfolding conclude_with_schema
  conclude provider schema outcome instruction world =
      let answer =
        conclude_with_schema provider.generate schema.validate schema.name schema.schema_text
          outcome instruction world in
      (with_charged answer.1 (of_outcome answer.0), answer.2)

module _ {S A : Type 0} where
  -- What is returned, when nothing is raised, has a property.
  abbrev pub Returns {κ} : (A → Type κ) → (Raised ⊎ A) × S → Type κ
  Returns P (inl why, s) = Unit
  Returns P (inr a, s) = P a

  always-Returns {κ} : (P : A → Type κ) (r : (Raised ⊎ A) × S) → ((a : A) → P a) → Returns P r
  always-Returns P (inl why, s) h = tt
  always-Returns P (inr a, s) h = h a

  pub Returns-eq {κ} :
      (P : A → Type κ) {r : (Raised ⊎ A) × S} {a : A} {left : S}
      → Returns P r
      → r ≡ (inr a, left)
      → P a
  Returns-eq P h e = rw e at h

pub then_do-Returns {κ ι} :
    {S A B : Type 0} (P : A → Type κ) (Q : B → Type ι) (r : (Raised ⊎ A) × S) (f : A → Fallible S B)
    → Returns P r
    → ((a : A) (mid : S) → P a → Returns Q (f a mid))
    → Returns Q (then_do r f)
then_do-Returns P Q (inl why, mid) f h next = tt
then_do-Returns P Q (inr a, mid) f h next = next a mid h

-- When nothing is asked of the first step.
pub then_do-always {κ} :
    {S A B : Type 0} (Q : B → Type κ) (r : (Raised ⊎ A) × S) (f : A → Fallible S B)
    → ((a : A) (mid : S) → Returns Q (f a mid))
    → Returns Q (then_do r f)
then_do-always Q (inl why, mid) f next = tt
then_do-always Q (inr a, mid) f next = next a mid
