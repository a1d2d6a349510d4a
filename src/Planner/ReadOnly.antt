-- ===== src/Planner/ReadOnly.antt =====
-- The phases without write access: the plan (agent/planner.py) and the self-check
-- (agent/repair.py).
use pullsmith.Common.{refl, ◌∙◌, ◌≡◌, ◌⊎◌, inl, inr, String, false, Option, some, List, or_else}
use mathlib.Core.List.{Memᴰ}
use pullsmith.Schemas.{IssueAnalysis, ImplementationPlan}
use pullsmith.Llm.{Arguments, Message, Usage}
use pullsmith.Tools.{ToolContext, Tool}
use pullsmith.Loop.{LoopLimits, LoopOutcome, default_limits}
use pullsmith.Loop.Bounds.{IsUntouching, run_tool_loop-untouched}
use pullsmith.Loop.Conclude.{conclude_with_schema}
use pullsmith.Llm.Structured.Untouched.{generate_structured-view}
use pullsmith.Retrieval.{RetrievedChunk}
use pullsmith.Testing.{TestOutcome}
use pullsmith.Phases.{
  Raised, Schema, Provider, Desk, Phase, then_do, tool_loop, call, return, conclude, ◌>>=◌,
}
use pullsmith.Planner.{build_plan, plan_messages}
use pullsmith.Repair.{verify, last_summary}
use pullsmith.Repair.Prompts.{verify_messages}

module _ {World V : Type 0} (view : World → V) where
  abbrev pub Kept : Desk World → Desk World → Type 0
  Kept before after =
      (after.context.changes ≡ before.context.changes) × (view after.world ≡ view before.world)

  then_do-Kept :
      {A B : Type 0} (start : Desk World) (r : (Raised ⊎ A) × Desk World) (f : A → Phase World B)
      → Kept start r.1
      → ((a : A) (mid : Desk World) → Kept mid (f a mid).1)
      → Kept start (then_do r f).1
  then_do-Kept start (inl why, mid) f h more = h
  then_do-Kept start (inr a, mid) f h more = let h' = more a mid in (h'.0 ∙ h.0, h'.1 ∙ h.1)

  module _ (provider : Provider World) (tools : List (Tool World))
      (honest : IsUntouching provider.generate tools view) where
    conclude-view :
        {A : Type 0} (schema : Schema A) (outcome : LoopOutcome) (instruction : String) (w : World)
        → view (conclude provider schema outcome instruction w).1 ≡ view w
    unfolding conclude conclude_with_schema
    conclude-view schema outcome instruction w =
        generate_structured-view view provider.generate honest.answers schema.validate schema.name 2
          _ w

    concluded-Kept :
        {A B : Type 0} (schema : Schema A) (instruction : String) (g : A × LoopOutcome × Usage → B)
        (outcome : LoopOutcome) (desk : Desk World)
        → Kept desk
            ((call (conclude provider schema outcome instruction) >>= λ x. return (g x)) desk).1
    concluded-Kept schema instruction g outcome desk =
        then_do-Kept desk (call (conclude provider schema outcome instruction) desk)
          (λ x. return (g x)) (refl, conclude-view schema outcome instruction desk.world)
          (λ a mid. (refl, refl))

    tool_loop-Kept :
        (messages : List Message) (limits : Option LoopLimits) (desk : Desk World)
        → Kept desk (tool_loop provider tools messages limits false desk).1
    unfolding tool_loop
    tool_loop-Kept messages limits desk =
        run_tool_loop-untouched view provider.generate tools desk.context messages limits desk.world
          honest

    pub build_plan-Kept :
        (analysis : IssueAnalysis) (retrieved : List RetrievedChunk) (repository_summary : String)
        (limits : Option LoopLimits) (desk : Desk World)
        → Kept desk (build_plan provider tools analysis retrieved repository_summary limits desk).1
    unfolding build_plan
    build_plan-Kept analysis retrieved repository_summary limits desk =
        then_do-Kept desk
          (tool_loop provider tools (plan_messages analysis retrieved repository_summary) limits
            false desk)
          _ (tool_loop-Kept (plan_messages analysis retrieved repository_summary) limits desk)
          (λ outcome mid.
            concluded-Kept provider.implementation_plan _ (λ c. (c.0, c.1)) outcome mid)

    pub verify-Kept :
        (plan : ImplementationPlan) (diff_text : String) (outcomes : List TestOutcome)
        (limits : Option LoopLimits) (desk : Desk World)
        → Kept desk (verify provider tools plan diff_text outcomes limits desk).1
    unfolding verify
    verify-Kept plan diff_text outcomes limits desk =
        let five_steps : LoopLimits = record default_limits { max_steps = 5 } in
        let messages = verify_messages plan diff_text (last_summary outcomes) in
        let ours = some (or_else limits five_steps) in
        then_do-Kept desk (tool_loop provider tools messages ours false desk) _
          (tool_loop-Kept messages ours desk)
          (λ outcome mid.
            concluded-Kept provider.verification_result _ (λ c. (c.0, c.2)) outcome mid)

module _ {World : Type 0} (provider : Provider World) (tools : List (Tool World))
    (desk : Desk World)
    (honest : (tool : Tool World)
      → Memᴰ tool tools
      → tool.mutating ≡ false
      → (c : ToolContext) (arguments : Arguments) (w : World)
      → (tool.handler c arguments w).1 ≡ c.changes) where
  -- Planning and the self-check write nothing: if the tools that are not marked as mutating leave
  -- the recorded changes alone, then after `build_plan` and after `verify` the recorded changes are
  -- what they were, whether these return or raise.
  read_only_phases :
      (analysis : IssueAnalysis) (retrieved : List RetrievedChunk) (repository_summary : String)
      (plan : ImplementationPlan) (diff_text : String) (outcomes : List TestOutcome)
      (limits : Option LoopLimits)
      → ((build_plan provider tools analysis retrieved repository_summary limits
            desk).1.context.changes
          ≡ desk.context.changes)
        × ((verify provider tools plan diff_text outcomes limits desk).1.context.changes
            ≡ desk.context.changes)
  read_only_phases analysis retrieved repository_summary plan diff_text outcomes limits =
      let untouched : IsUntouching provider.generate tools (λ w. tt) = record {
        answers = λ messages schemas w. refl;
        tools_keep = λ tool found same c arguments w. (honest tool found same c arguments w, refl);
      } in
      (
        (build_plan-Kept (λ w. tt) provider tools untouched analysis retrieved repository_summary
            limits desk).0,
        (verify-Kept (λ w. tt) provider tools untouched plan diff_text outcomes limits desk).0,
      )
