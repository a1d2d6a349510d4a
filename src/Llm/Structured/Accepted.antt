-- ===== src/Llm/Structured/Accepted.antt =====
-- What `generate_structured` (llm/base.py) returns, and how often it asks.
use mathlib.Core.List.{append_assoc, append-nil}
use pullsmith.Common.{
  ◌≡◌, refl, sym, subst, [], ◌++◌, none, ◌⊎◌, inl, inr, ℕ, zero, suc, ◌+◌, ◌≤◌, String, false,
  Option, List, not, ◌&&◌, arith, leb, ltb, Bool-cases, is_nil, is_blank,
}
use pullsmith.Llm.{
  Message, Usage, no_usage, add_usage, LlmResponse, Reply, answered, llm_error, ToolSchema,
  Generate,
}
use pullsmith.Llm.ExtractJson.{extract_json}
use pullsmith.Llm.Structured.{
  Outcome, got, failed, Attempt, ended, repair, on_validated, on_response, on_reply, total_after,
  repaired, attempts_from, generate_structured,
}

module _ {World A : Type 0} (generate : Generate World) (validate : String → A ⊎ String) where
  -- The value is what validates the text of an answer of the model, which is not blank, and the
  -- world is the one that this answer left.
  pub record IsAnswered (messages : List Message) (a : A) (left : World) : Type 0 where
    pub more : List Message
    pub before : World
    pub response : LlmResponse
    pub asked : generate (messages ++ more) none before ≡ (answered response, left)
    pub valid : validate (extract_json response.text) ≡ inl a
    pub has_text : is_blank response.text ≡ false

  abbrev Accepted : List Message → Outcome A × World → Type 0
  Accepted messages (got a usage, left) = IsAnswered messages a left
  Accepted messages (failed why, left) = Unit

  -- Of an attempt: the conversation goes on.
  abbrev OfAttempt : List Message → World → Attempt A → Type 0
  OfAttempt messages left (ended outcome) = Accepted messages (outcome, left)
  OfAttempt messages left (repair conversation last_error) =
      (more : List Message) × (conversation ≡ messages ++ more)

validated : {A : Type 0} (o : A ⊎ String) → ((a : A) × (o ≡ inl a)) ⊎ ((s : String) × (o ≡ inr s))
validated (inl a) = inl (a, refl)
validated (inr s) = inr (s, refl)

module _ {World A : Type 0} (generate : Generate World) (validate : String → A ⊎ String)
    (schema_name : String) (max_repair_attempts : ℕ) where
  module _ (messages more : List Message) (before left : World) where
    response-Accepted :
        (attempt : ℕ) (total : Usage) (response : LlmResponse)
        → generate (messages ++ more) none before ≡ (answered response, left)
        → OfAttempt generate validate messages left (
            on_response generate validate schema_name max_repair_attempts attempt
              (messages ++ more)
              total
              response)
    unfolding on_response on_validated
    response-Accepted attempt total response asked = elim (Bool-cases (is_blank response.text)) [
      | inl blank ↦
          rw blank
            (elim (Bool-cases
              (not (is_nil response.tool_calls) && leb attempt max_repair_attempts)) [
                | inl again ↦ rw again (_, append_assoc messages more _)
                | inr over ↦ rw over tt
              ])
      | inr words ↦ rw words (elim (validated (validate (extract_json response.text))) [
        | inl (a, right) ↦ rw right (record {
          more = more;
          before = before;
          response = response;
          asked = asked;
          valid = right;
          has_text = words;
        })
        | inr (errors, wrong) ↦ rw wrong (elim (Bool-cases (ltb max_repair_attempts attempt)) [
          | inl over ↦ rw over tt
          | inr again ↦ rw again (_, append_assoc messages more _)
        ])
      ])
    ]

    reply-Accepted :
        (attempt : ℕ) (total : Usage) (reply : Reply)
        → generate (messages ++ more) none before ≡ (reply, left)
        → OfAttempt generate validate messages left (
            on_reply generate validate schema_name max_repair_attempts attempt
              (messages ++ more)
              total
              reply)
    reply-Accepted attempt total (llm_error why) asked = tt
    reply-Accepted attempt total (answered response) asked =
        response-Accepted attempt (add_usage total response.usage) response asked

  repaired-Accepted :
      (messages : List Message) (next : List Message → String → World → Outcome A × World)
      (x : Attempt A) (world : World)
      → OfAttempt generate validate messages world x
      → ((more : List Message) (l : String) (w : World)
          → Accepted generate validate messages (next (messages ++ more) l w))
      → Accepted generate validate messages
          (repaired generate validate schema_name max_repair_attempts next x world)
  repaired-Accepted messages next (ended outcome) world h rest = h
  repaired-Accepted messages next (repair c l) world (more, e) rest =
      subst (λ c. Accepted generate validate messages (next c l world)) (sym e) (rest more l world)

  attempts-Accepted :
      (remaining attempt : ℕ) (messages more : List Message) (total : Usage) (last_error : String)
      (world : World)
      → Accepted generate validate messages (
          attempts_from generate validate schema_name max_repair_attempts remaining attempt
            (messages ++ more)
            total
            last_error
            world)
  unfolding attempts_from
  attempts-Accepted zero attempt messages more total last_error world = tt
  attempts-Accepted (suc remaining) attempt messages more total last_error world =
      let reply = generate (messages ++ more) none world in
      repaired-Accepted messages _ _ _
        (reply-Accepted messages more world reply.1 attempt total reply.0 refl)
        (λ further l w. attempts-Accepted remaining (suc attempt) messages further _ l w)

  -- The number of requests, which a world counts that each request raises by one.
  module _ (count : World → ℕ)
      (counts : (m : List Message) (s : Option (List ToolSchema)) (w : World)
        → count (generate m s w).1 ≡ count w + 1) where
    repaired-count :
        (bound : ℕ) (more : List Message → String → World → Outcome A × World) (x : Attempt A)
        (world : World)
        → count world ≤ bound
        → ((c : List Message) (l : String) → count (more c l world).1 ≤ bound)
        → count (repaired generate validate schema_name max_repair_attempts more x world).1 ≤ bound
    repaired-count bound more (ended outcome) world h rest = h
    repaired-count bound more (repair c l) world h rest = rest c l

    attempts-count :
        (bound remaining attempt : ℕ) (conversation : List Message) (total : Usage)
        (last_error : String) (world : World)
        → count world + remaining ≤ bound
        → count
            (attempts_from generate validate schema_name max_repair_attempts remaining attempt
              conversation total last_error world).1
          ≤ bound
    unfolding attempts_from
    attempts-count bound zero attempt conversation total last_error world h = omega (arith, h)
    attempts-count bound (suc remaining) attempt conversation total last_error world h =
        let one = counts conversation none world in
        let reply = generate conversation none world in
        let total' = total_after generate validate schema_name max_repair_attempts total reply.0 in
        repaired-count bound
          (λ c l w.
            attempts_from generate validate schema_name max_repair_attempts remaining (suc attempt)
              c total' l w)
          (on_reply generate validate schema_name max_repair_attempts attempt conversation total
            reply.0)
          reply.1 (omega (arith, one, h))
          (λ c l.
            attempts-count bound remaining (suc attempt) c total' l reply.1 (omega (arith, one, h)))

-- An object that is returned is what the schema accepts of the text of an answer that the model
-- gave to the conversation, the last request of all; this text is not blank, and the conversation
-- begins with the caller's messages. And the model is asked at most once more than
-- `max_repair_attempts`, whatever it answers, where the world counts its requests.
pub generate_structured-Accepted :
    {World A : Type 0} (generate : Generate World) (validate : String → A ⊎ String)
    (schema_name : String) (max_repair_attempts : ℕ) (messages : List Message) (world : World)
    (count : World → ℕ)
    → ((m : List Message) (s : Option (List ToolSchema)) (w : World)
        → count (generate m s w).1 ≡ count w + 1)
    → (let r =
          generate_structured generate validate schema_name max_repair_attempts messages world in
        ((a : A) (usage : Usage) → r.0 ≡ got a usage → IsAnswered generate validate messages a r.1)
        × (count r.1 ≤ count world + (max_repair_attempts + 1)))
unfolding generate_structured
generate_structured-Accepted generate validate schema_name max_repair_attempts messages world count
      counts =
    let r = generate_structured generate validate schema_name max_repair_attempts messages world in
    let accepted : Accepted generate validate messages r =
      subst
        (λ c. Accepted generate validate messages (
          attempts_from generate validate schema_name max_repair_attempts (max_repair_attempts + 1)
            1 c no_usage "" world))
        (append-nil messages)
        (attempts-Accepted generate validate schema_name max_repair_attempts _ 1 messages []
          no_usage "" world) in
    (
      λ a usage e. subst (λ o. Accepted generate validate messages (o, r.1)) e accepted,
      attempts-count generate validate schema_name max_repair_attempts count counts _ _ 1 messages
          no_usage "" world (omega arith),
    )
