-- ===== src/Llm/Structured/Untouched.antt =====
-- llm/base.py, `generate_structured`: what no answer of the model changes, its attempts do not.
use pullsmith.Common.{◌≡◌, refl, ◌∙◌, ◌⊎◌, ℕ, zero, suc, String, Option, none, List}
use pullsmith.Llm.{Message, ToolSchema, Usage, Generate}
use pullsmith.Llm.Structured.{
  Outcome, Attempt, ended, repair, on_reply, total_after, repaired, attempts_from,
  generate_structured,
}

module _ {World V A : Type 0} (view : World → V) (generate : Generate World)
    (answers : (messages : List Message) (schemas : Option (List ToolSchema)) (w : World)
      → view (generate messages schemas w).1 ≡ view w)
    (validate : String → A ⊎ String) (schema_name : String) (max_repair_attempts : ℕ) where
  repaired-view :
      (more : List Message → String → World → Outcome A × World) (attempt : Attempt A) (w : World)
      → ((next : List Message) (why : String) (w' : World) → view (more next why w').1 ≡ view w')
      → view (repaired generate validate schema_name max_repair_attempts more attempt w).1 ≡ view w
  repaired-view more (ended outcome) w h = refl
  repaired-view more (repair next why) w h = h next why w

  attempts_from-view :
      (remaining attempt : ℕ) (conversation : List Message) (total : Usage) (why : String)
      (w : World)
      → view
          (attempts_from generate validate schema_name max_repair_attempts remaining attempt
            conversation total why w).1
        ≡ view w
  unfolding attempts_from
  attempts_from-view zero attempt conversation total why w = refl
  attempts_from-view (suc remaining) attempt conversation total why w =
      let reply = generate conversation none w in
      repaired-view _
        (on_reply generate validate schema_name max_repair_attempts attempt conversation total
          reply.0)
        reply.1
        (λ next reason w'.
          attempts_from-view remaining (suc attempt) next
            (total_after generate validate schema_name max_repair_attempts total reply.0) reason w')
      ∙ answers conversation none w

  pub generate_structured-view :
      (messages : List Message) (w : World)
      → view (generate_structured generate validate schema_name max_repair_attempts messages w).1
        ≡ view w
  unfolding generate_structured
  generate_structured-view messages w = attempts_from-view _ 1 messages _ "" w
