-- ===== src/Loop/Bounds.antt =====
-- The limits of the tool loop (agent/loop.py) and what a read-only phase leaves alone.
use pullsmith.Common.{
  ◌≡◌, refl, sym, ◌∙◌, ap, inl, inr, ℕ, String, ◌≤◌, Bool, true, false, Option, List, [], ◌∷◌, ◌++◌,
  ◌&&◌, arith, or_else,
}
use mathlib.Core.List.{Memᴰ, append_assoc, append-nil}
use pullsmith.Llm.{Arguments, Message, ToolSchema, Generate}
use pullsmith.Tools.{ToolContext, Tool, run_handler, execute}
use pullsmith.Tools.Execute.{execute_cases}
use pullsmith.Loop.{LoopLimits, default_limits, tool_message, take_call, run_tool_loop}
use pullsmith.Loop.Keeps.{Moves, run_tool_loop-keeps}

unmarked : {b : Bool} → (b && true) ≡ false → b ≡ false
unmarked {b} h = ground arith

module _ {World : Type 0} (generate : Generate World) (tools : List (Tool World))
    (allow_mutating : Bool) (max_steps : ℕ) where
  -- A property of the context alone.
  of_context :
      (P : ToolContext → Type 0)
      → ((context : ToolContext) (name : String) (arguments : Arguments) (world : World)
          → P context
          → P (execute tools context name arguments allow_mutating world).context)
      → Moves generate tools allow_mutating max_steps (λ st. P st.context)
  unfolding take_call
  of_context P keeps = record {
    call = λ c st h. keeps st.context c.name c.arguments st.world h;
    stop = λ why st h. h;
    report = λ r st h. h;
    say = λ m st h. h;
    charge = λ usage st h. h;
    start_step = λ step messages schemas st within h. h;
  }

  few_steps :
      Moves generate tools allow_mutating max_steps (λ st. st.outcome.steps_used ≤ max_steps)
  unfolding take_call
  few_steps = record {
    call = λ c st h. h;
    stop = λ why st h. h;
    report = λ r st h. h;
    say = λ m st h. h;
    charge = λ usage st h. h;
    start_step = λ step messages schemas st within h. within;
  }

  longer :
      (messages : List Message)
      → Moves generate tools allow_mutating max_steps
          (λ st. (more : List Message) × (st.outcome.transcript ≡ messages ++ more))
  unfolding take_call
  longer messages = record {
    call = λ c st (more, e).
        let m =
          tool_message c
            (execute tools st.context c.name c.arguments allow_mutating st.world).result in
        (more ++ m ∷ [], ap (λ t. t ++ m ∷ []) e ∙ append_assoc messages more (m ∷ []));
    stop = λ why st h. h;
    report = λ r st h. h;
    say = λ m st (more, e).
        (more ++ m ∷ [], ap (λ t. t ++ m ∷ []) e ∙ append_assoc messages more (m ∷ []));
    charge = λ usage st h. h;
    start_step = λ step messages schemas st within h. h;
  }

-- Whatever the model asks for, the loop ends after at most the given number of steps, the calls of
-- tools stay within the run's budget if they did so before, and the transcript only grows.
pub run_tool_loop-bounds :
    {World : Type 0} (generate : Generate World) (tools : List (Tool World)) (context : ToolContext)
    (messages : List Message) (limits : Option LoopLimits) (allow_mutating : Bool) (world : World)
    → context.tool_calls_used ≤ context.max_tool_calls
    → (let left = (run_tool_loop generate tools context messages limits allow_mutating world).1 in
        (left.outcome.steps_used ≤ (or_else limits default_limits).max_steps)
        × (left.context.tool_calls_used ≤ context.max_tool_calls)
        × ((more : List Message) × (left.outcome.transcript ≡ messages ++ more)))
unfolding run_handler
run_tool_loop-bounds generate tools context messages limits allow_mutating world h =
    let keep = run_tool_loop-keeps generate tools context messages limits allow_mutating world in
    let in_budget =
      keep
        (λ st.
          (st.context.tool_calls_used ≤ context.max_tool_calls)
          × (st.context.max_tool_calls ≡ context.max_tool_calls))
        (of_context generate tools allow_mutating _ _ λ c name arguments w (used, same).
          elim (execute_cases tools c name arguments allow_mutating w) [
            | inl refusal ↦ rw refusal.same_context (used, same)
            | inr run ↦ rw run.ran (omega (arith, run.in_budget, same), same)
          ])
        (h, refl) in
    (
      keep _ (few_steps generate tools allow_mutating _) (omega arith),
      in_budget.0,
      keep _ (longer generate tools allow_mutating _ messages) ([], sym (append-nil messages)),
    )

-- A model call and the tools that a phase without write access may run leave something alone: what
-- `view` shows of the world, and for the tools the recorded changes.
pub record IsUntouching {World V : Type 0} (generate : Generate World) (tools : List (Tool World))
    (view : World → V) : Type 0 where
  pub answers :
      (messages : List Message) (schemas : Option (List ToolSchema)) (w : World)
      → view (generate messages schemas w).1 ≡ view w
  pub tools_keep :
      (tool : Tool World)
      → Memᴰ tool tools
      → tool.mutating ≡ false
      → (c : ToolContext) (arguments : Arguments) (w : World)
      → ((tool.handler c arguments w).1 ≡ c.changes)
        × (view (tool.handler c arguments w).2 ≡ view w)

pub run_tool_loop-untouched :
    {World V : Type 0} (view : World → V) (generate : Generate World) (tools : List (Tool World))
    (context : ToolContext) (messages : List Message) (limits : Option LoopLimits) (world : World)
    → IsUntouching generate tools view
    → (let left = (run_tool_loop generate tools context messages limits false world).1 in
        (left.context.changes ≡ context.changes) × (view left.world ≡ view world))
unfolding run_handler take_call
run_tool_loop-untouched view generate tools context messages limits world honest =
    run_tool_loop-keeps generate tools context messages limits false world
      (λ st. (st.context.changes ≡ context.changes) × (view st.world ≡ view world))
      (record {
        call = λ c st h. elim (execute_cases tools st.context c.name c.arguments false st.world) [
          | inl refusal ↦ rw (refusal.same_context, refusal.same_world) h
          | inr run ↦
              let kept =
                honest.tools_keep run.tool run.registered (unmarked run.permitted) _ run.arguments
                  st.world in
              rw run.ran (kept.0 ∙ h.0, kept.1 ∙ h.1)
        ];
        stop = λ why st h. h;
        report = λ r st h. h;
        say = λ m st h. h;
        charge = λ usage st h. h;
        start_step = λ step ms schemas st within h. (h.0, honest.answers ms schemas st.world ∙ h.1);
      })
      (refl, refl)

-- A phase without write access writes nothing: if the tools that are not marked as mutating leave
-- the recorded changes alone, so does the whole loop.
run_tool_loop-read_only :
    {World : Type 0} (generate : Generate World) (tools : List (Tool World)) (context : ToolContext)
    (messages : List Message) (limits : Option LoopLimits) (world : World)
    → ((tool : Tool World)
        → Memᴰ tool tools
        → tool.mutating ≡ false
        → (c : ToolContext) (arguments : Arguments) (w : World)
        → (tool.handler c arguments w).1 ≡ c.changes)
    → (run_tool_loop generate tools context messages limits false world).1.context.changes
      ≡ context.changes
run_tool_loop-read_only generate tools context messages limits world honest =
    (run_tool_loop-untouched (λ w. tt) generate tools context messages limits world
      (record {
        answers = λ ms schemas w. refl;
        tools_keep = λ tool found same c arguments w. (honest tool found same c arguments w, refl);
      })).0
