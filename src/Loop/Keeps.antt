-- ===== src/Loop/Keeps.antt =====
-- What every step of the tool loop (agent/loop.py) keeps, the loop keeps.
use pullsmith.Common.{
  inl, inr, ℕ, zero, suc, ◌+◌, ◌≤◌, String, Bool, Option, List, [], ◌∷◌, not, ltb, arith,
  Bool-cases, or_else,
}
use pullsmith.Llm.{
  Message, ToolSchema, ToolCall, Usage, LlmResponse, total_tokens, add_usage, wants_tools, Reply,
  answered, llm_error, LlmError, Generate,
}
use pullsmith.Tools.{ToolContext, Tool, execute}
use pullsmith.Loop.{
  LoopLimits, default_limits, Report, State, Turn, returned, raised, again, stopped, reported, said,
  over_budget, take_call, take_calls, take_response, take_reply, take_turn, go_on, loop_from, begin,
  run_tool_loop,
}

abbrev OfTurn : {World : Type 0} → (State World → Type 0) → Turn World → Type 0
OfTurn P (returned st) = P st
OfTurn P (raised why st) = P st
OfTurn P (again st) = P st

go_on-keeps :
    {World : Type 0} (P : State World → Type 0) (more : State World → Option LlmError × State World)
    (t : Turn World)
    → OfTurn P t
    → ((st : State World) → P st → P (more st).1)
    → P (go_on more t).1
go_on-keeps P more (returned st) h rest = h
go_on-keeps P more (raised why st) h rest = h
go_on-keeps P more (again st) h rest = rest st h

-- The single moves of the loop.
pub record Moves {World : Type 0} (generate : Generate World) (tools : List (Tool World))
    (allow_mutating : Bool) (max_steps : ℕ) (P : State World → Type 0) : Type 0 where
  pub call :
      (c : ToolCall) (st : State World)
      → P st
      → P (take_call c (execute tools st.context c.name c.arguments allow_mutating st.world) st)
  pub stop : (why : String) (st : State World) → P st → P (stopped why st)
  pub report : (r : Report) (st : State World) → P st → P (reported r st)
  pub say : (m : Message) (st : State World) → P st → P (said m st)
  pub charge :
      (usage : Usage) (st : State World)
      → P st
      → P (record st { outcome = record st.outcome { usage = usage } })
  pub start_step :
      (step : ℕ) (messages : List Message) (schemas : Option (List ToolSchema)) (st : State World)
      → step ≤ max_steps
      → P st
      → P (record st {
        outcome = record st.outcome { steps_used = step };
        world = (generate messages schemas st.world).1;
      })

module _ {World : Type 0} (generate : Generate World) (tools : List (Tool World))
    (allow_mutating : Bool) (limits : LoopLimits) (P : State World → Type 0)
    (moves : Moves generate tools allow_mutating limits.max_steps P) where
  calls-keep :
      (calls : List ToolCall) (st : State World)
      → P st
      → OfTurn P (take_calls tools allow_mutating calls st)
  unfolding take_calls
  calls-keep [] st h = h
  calls-keep (call ∷ calls) st h =
      let done = execute tools st.context call.name call.arguments allow_mutating st.world in
      let h' = moves.call call st h in
      elim (Bool-cases (over_budget done.result)) [
        | inl spent ↦ rw spent (moves.stop _ _ h')
        | inr within ↦ rw within (calls-keep calls (take_call call done st) h')
      ]

  response-keeps :
      (response : LlmResponse) (st : State World)
      → P st
      → OfTurn P (take_response tools limits allow_mutating response st)
  unfolding take_response
  response-keeps response st h =
      let usage = add_usage st.outcome.usage response.usage in
      let h' = moves.charge usage st h in
      elim (Bool-cases (ltb limits.max_tokens (total_tokens usage))) [
        | inl spent ↦ rw spent (moves.report _ _ (moves.stop _ _ h'))
        | inr within ↦ rw within (elim (Bool-cases (not (wants_tools response))) [
          | inl finished ↦ rw finished (moves.stop _ _ (moves.say _ _ h'))
          | inr asks ↦ rw asks (calls-keep response.tool_calls _ (moves.say _ _ h'))
        ])
      ]

  reply-keeps :
      (reply : Reply) (st : State World)
      → P st
      → OfTurn P (take_reply tools limits allow_mutating reply st)
  unfolding take_reply
  reply-keeps (llm_error why) st h = h
  reply-keeps (answered response) st h = response-keeps response st h

  loop-keeps :
      (remaining step : ℕ) (st : State World)
      → remaining + step ≤ limits.max_steps + 1
      → P st
      → P (loop_from generate tools limits allow_mutating remaining step st).1
  unfolding loop_from take_turn
  loop-keeps zero step st within h = moves.report _ _ (moves.stop _ _ h)
  loop-keeps (suc remaining) step st within h =
      go_on-keeps P _ (take_turn generate tools limits allow_mutating step st)
        (reply-keeps _ _ (moves.start_step step _ _ st (omega (arith, within)) h))
        (λ next h'. loop-keeps remaining (suc step) next (omega (arith, within)) h')

pub run_tool_loop-keeps :
    {World : Type 0} (generate : Generate World) (tools : List (Tool World)) (context : ToolContext)
    (messages : List Message) (limits : Option LoopLimits) (allow_mutating : Bool) (world : World)
    (P : State World → Type 0)
    → Moves generate tools allow_mutating (or_else limits default_limits).max_steps P
    → P (begin messages context world)
    → P (run_tool_loop generate tools context messages limits allow_mutating world).1
unfolding run_tool_loop
run_tool_loop-keeps generate tools context messages limits allow_mutating world P moves h =
    loop-keeps generate tools allow_mutating (or_else limits default_limits) P moves _ 1 _
      (omega arith) h
