-- ===== src/Tools/Execute.antt =====
-- What one call of a tool may do to the run (agent/tools/base.py, `execute`).
use pullsmith.Common.{
  ◌≡◌, refl, ◌⊎◌, inl, inr, ◌<◌, String, Bool, false, List, not, ◌&&◌, leb, str_eq, arith,
  Bool-cases, Option-cases, find_row, find_row-mem,
}
use mathlib.Core.List.{Memᴰ}
use pullsmith.Llm.{Arguments}
use pullsmith.Tools.{ToolContext, failure, Tool, Executed, get, run_handler, execute}

validated :
    (o : Arguments ⊎ String) → ((a : Arguments) × (o ≡ inl a)) ⊎ ((s : String) × (o ≡ inr s))
validated (inl a) = inl (a, refl)
validated (inr s) = inr (s, refl)

module _ {World : Type 0} where
  -- A call that was turned down, with the code of the refusal.
  pub record IsRefusal (context : ToolContext) (world : World) (e : Executed World) : Type 0 where
    pub same_context : e.context ≡ context
    pub same_world : e.world ≡ world
    pub not_ok : e.result.ok ≡ false

  -- A call that ran the handler of a registered tool.
  pub record IsRun (tools : List (Tool World)) (context : ToolContext) (allow_mutating : Bool)
      (world : World) (e : Executed World) : Type 0 where
    pub tool : Tool World
    pub arguments : Arguments
    pub registered : Memᴰ tool tools
    pub permitted : (tool.mutating && not allow_mutating) ≡ false
    pub in_budget : context.tool_calls_used < context.max_tool_calls
    pub ran : e ≡ run_handler tool context arguments world

  -- A call is refused, which leaves the context and the world as they were and is no success, or
  -- it runs the handler of a registered tool that the phase permits, within the budget.
  pub execute_cases :
      (tools : List (Tool World)) (context : ToolContext) (name : String)
      (raw_arguments : Arguments) (allow_mutating : Bool) (world : World)
      → IsRefusal context world (execute tools context name raw_arguments allow_mutating world)
        ⊎ IsRun tools context allow_mutating world
            (execute tools context name raw_arguments allow_mutating world)
  unfolding execute get failure
  execute_cases tools context name raw_arguments allow_mutating world =
      elim (Bool-cases (leb context.max_tool_calls context.tool_calls_used)) [
        | inl spent ↦
            rw spent (inl (record { same_context = refl; same_world = refl; not_ok = refl }))
        | inr within ↦ rw within (elim (Option-cases (find_row (λ t. str_eq t.name name) tools)) [
          | inl unknown ↦
              rw unknown (inl (record { same_context = refl; same_world = refl; not_ok = refl }))
          | inr (tool, found) ↦ rw found (elim (Bool-cases (tool.mutating && not allow_mutating)) [
            | inl forbidden ↦
                rw forbidden
                  (inl (record { same_context = refl; same_world = refl; not_ok = refl }))
            | inr permitted ↦ rw permitted (elim (validated (tool.validate raw_arguments)) [
              | inr (errors, wrong) ↦
                  rw wrong (inl (record { same_context = refl; same_world = refl; not_ok = refl }))
              | inl (arguments, right) ↦ rw right (
                  inr (record {
                    tool = tool;
                    arguments = arguments;
                    registered = find_row-mem _ tools found;
                    permitted = permitted;
                    in_budget = ground arith;
                    ran = refl;
                  }))
            ])
          ])
        ])
      ]
