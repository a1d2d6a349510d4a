-- ===== src/Repair/Verified.antt =====
-- agent/repair.py: what a repair that reports success stands for, and how many attempts it makes.
use pullsmith.Common.{
  ◌≡◌, refl, ◌⊎◌, inl, inr, ℕ, zero, suc, ◌+◌, ◌≤◌, String, true, false, Option, none, some, List,
  [], ◌∷◌, ◌++◌, not, arith, Bool-cases, ◌==◌, is_nil, length, length-append, leb,
}
use pullsmith.Schemas.{FailureAnalysis, ImplementationPlan}
use pullsmith.Llm.{Message, Usage, add_usage}
use pullsmith.Tools.{Tool}
use pullsmith.Loop.{LoopLimits}
use pullsmith.RepoMap.{RepositoryMap}
use pullsmith.Retrieval.{RetrievedChunk}
use pullsmith.Sandbox.{SandboxRunner}
use pullsmith.Testing.{TestOutcome, all_passed}
use pullsmith.Testing.Run.{run_tests}
use pullsmith.Testing.Honest.{IsSuiteRun, run_tests-suite}
use pullsmith.Phases.{
  Provider, reported, then_do-always, return, Desk, Phase, Returns, Returns-eq, then_do-Returns,
  text_crashed,
}
use pullsmith.Repair.Prompts.{revise_messages, implement_messages}
use pullsmith.Repair.{
  analysed, Attempt, apply_changes, has_passed, RepairResult, Retriever, Round, stopped, revised,
  analyse_failure,
}
use pullsmith.Repair.Rounds.{
  more_context, revise, after_diagnosis, learn, judge, test, after_tests, after_changes, take_round,
  go_on, rounds_from, implement_and_repair,
}

module _ {World : Type 0} (provider : Provider World) (tools : List (Tool World))
    (sandbox : SandboxRunner World) (mapping : RepositoryMap) (plan : ImplementationPlan)
    (retriever : Option (Retriever World)) (max_iterations : ℕ) (limits : Option LoopLimits) where
  -- The tests of an attempt passed, and the whole suite was among them.
  abbrev Proven : Attempt → Type 0
  Proven attempt = (has_passed attempt ≡ true) × IsSuiteRun sandbox mapping attempt.test_outcomes

  abbrev RoundProven : Round → Type 0
  RoundProven (stopped attempt succeeded why usage) = succeeded ≡ true → Proven attempt
  RoundProven (revised attempt usage conversation) = Unit

  revise-Proven :
      (attempt : Attempt) (usage : Usage) (analysis : FailureAnalysis) (desk : Desk World)
      → Returns RoundProven (
          revise provider tools sandbox mapping plan retriever max_iterations limits attempt usage
            analysis desk)
  unfolding revise
  revise-Proven attempt usage analysis desk =
      then_do-always RoundProven
        (more_context provider tools sandbox mapping plan retriever max_iterations limits analysis
          attempt.test_outcomes retriever desk)
        (λ extra. return (
          revised attempt usage
            (revise_messages plan attempt.iteration attempt.test_outcomes analysis extra)))
        (λ extra mid. tt)

  diagnosis-Proven :
      (attempt : Attempt) (usage : Usage) (diagnosed : FailureAnalysis × Usage) (desk : Desk World)
      → Returns RoundProven (
          after_diagnosis provider tools sandbox mapping plan retriever max_iterations limits
            attempt usage diagnosed desk)
  unfolding after_diagnosis
  diagnosis-Proven attempt usage (analysis, more) desk =
      elim (Bool-cases (not analysis.is_recoverable)) [
        | inl hopeless ↦ rw hopeless (λ claim. absurd cc)
        | inr hopeful ↦ rw hopeful (
            revise-Proven (record attempt { failure_analysis = some analysis })
              (add_usage usage more) analysis (reported "info" (analysed analysis) desk))
      ]

  learn-Proven :
      (attempt : Attempt) (usage : Usage) (desk : Desk World)
      → Returns RoundProven (
          learn provider tools sandbox mapping plan retriever max_iterations limits attempt usage
            desk)
  unfolding learn
  learn-Proven attempt usage desk =
      then_do-always RoundProven (analyse_failure provider tools plan attempt.test_outcomes desk)
        (after_diagnosis provider tools sandbox mapping plan retriever max_iterations limits attempt
          usage)
        (diagnosis-Proven attempt usage)

  judge-Proven :
      (attempt : Attempt) (usage : Usage) (desk : Desk World)
      → (has_passed attempt ≡ true → IsSuiteRun sandbox mapping attempt.test_outcomes)
      → Returns RoundProven (
          judge provider tools sandbox mapping plan retriever max_iterations limits attempt usage
            desk)
  unfolding judge
  judge-Proven attempt usage desk suite = elim (Bool-cases (has_passed attempt)) [
    | inl passed ↦ rw passed (λ _. (passed, suite passed))
    | inr red ↦ rw red (elim (Bool-cases (is_nil attempt.test_outcomes)) [
      | inl untested ↦ rw untested (λ claim. absurd cc)
      | inr tested ↦ rw tested (elim (Bool-cases (attempt.iteration == max_iterations)) [
        | inl last ↦ rw last (λ claim. absurd cc)
        | inr early ↦ rw early (learn-Proven attempt usage desk)
      ])
    ])
  ]

  tests-Proven :
      (r : (String ⊎ List TestOutcome) × World) (w : World)
      → run_tests sandbox mapping plan.tests_to_add_or_update w ≡ r
      → (desk : Desk World)
      → Returns
          (λ outcomes. all_passed outcomes ≡ true → IsSuiteRun sandbox mapping outcomes)
          ((text_crashed r).0, record desk { world = (text_crashed r).1 })
  tests-Proven (inl why, left) w ran desk = tt
  tests-Proven (inr outcomes, left) w ran desk =
      run_tests-suite sandbox mapping plan.tests_to_add_or_update w ran

  abbrev SuiteIfGreen : List TestOutcome → Type 0
  SuiteIfGreen outcomes = all_passed outcomes ≡ true → IsSuiteRun sandbox mapping outcomes

  test-Proven :
      (desk : Desk World)
      → Returns SuiteIfGreen
          (test provider tools sandbox mapping plan retriever max_iterations limits desk)
  unfolding test
  test-Proven desk =
      tests-Proven (run_tests sandbox mapping plan.tests_to_add_or_update desk.world) desk.world
        refl desk

  after_tests-Proven :
      (iteration calls : ℕ) (usage : Usage) (outcomes : List TestOutcome) (desk : Desk World)
      → SuiteIfGreen outcomes
      → Returns RoundProven (
          after_tests provider tools sandbox mapping plan retriever max_iterations limits iteration
            calls usage outcomes desk)
  unfolding after_tests has_passed
  after_tests-Proven iteration calls usage outcomes desk suite =
      judge-Proven
        (record {
          iteration = iteration;
          test_outcomes = outcomes;
          failure_analysis = none;
          tool_calls = calls;
        })
        usage _ suite

  changes-Proven :
      (iteration : ℕ) (applied : ℕ × Usage) (desk : Desk World)
      → Returns RoundProven (
          after_changes provider tools sandbox mapping plan retriever max_iterations limits
            iteration applied desk)
  unfolding after_changes
  changes-Proven iteration (calls, usage) desk =
      elim (Bool-cases (leb desk.context.max_tool_calls desk.context.tool_calls_used)) [
        | inl spent ↦ rw spent (λ claim. absurd cc)
        | inr within ↦ rw within (
            then_do-Returns SuiteIfGreen RoundProven
              (test provider tools sandbox mapping plan retriever max_iterations limits desk)
              (after_tests provider tools sandbox mapping plan retriever max_iterations limits
                iteration calls usage)
              (test-Proven desk) (after_tests-Proven iteration calls usage))
      ]

  round-Proven :
      (iteration : ℕ) (conversation : List Message) (desk : Desk World)
      → Returns RoundProven (
          take_round provider tools sandbox mapping plan retriever max_iterations limits iteration
            conversation desk)
  unfolding take_round
  round-Proven iteration conversation desk =
      then_do-always RoundProven (apply_changes provider tools conversation limits _)
        (after_changes provider tools sandbox mapping plan retriever max_iterations limits
          iteration)
        (changes-Proven iteration)

  -- A finished repair: its attempts within a bound, and its success proven by the last of them.
  abbrev ResultProven : (bound : ℕ) → RepairResult → Type 0
  ResultProven bound result =
      (length result.attempts ≤ bound)
      × (result.succeeded ≡ true
          → (earlier : List Attempt) × (last : Attempt) × (result.attempts ≡ earlier ++ last ∷ [])
            × (has_passed last ≡ true)
            × IsSuiteRun sandbox mapping last.test_outcomes)

  -- A round, when what the rounds that follow prove is given.
  go_on-Proven :
      (bound : ℕ) (more : RepairResult → List Message → Phase World RepairResult)
      (result : RepairResult) (round : Round) (desk : Desk World)
      → result.succeeded ≡ false
      → length result.attempts + 1 ≤ bound
      → ((next : RepairResult) (conversation : List Message) (mid : Desk World)
          → next.succeeded ≡ false
          → length next.attempts ≡ length result.attempts + 1
          → Returns (ResultProven bound) (more next conversation mid))
      → RoundProven round
      → Returns (ResultProven bound) (
          go_on provider tools sandbox mapping plan retriever max_iterations limits more result
            round desk)
  go_on-Proven bound more result (stopped attempt succeeded why usage) desk open_yet fits rest
        proven =
      (
        omega (arith, length-append result.attempts (attempt ∷ []), fits),
        λ claim. (result.attempts, attempt, refl, (proven claim).0, (proven claim).1),
      )
  go_on-Proven bound more result (revised attempt usage conversation) desk open_yet fits rest
        proven =
      rest _ conversation desk open_yet (length-append result.attempts (attempt ∷ []))

  rounds-Proven :
      (bound remaining iteration : ℕ) (result : RepairResult) (conversation : List Message)
      (desk : Desk World)
      → result.succeeded ≡ false
      → length result.attempts + remaining ≤ bound
      → Returns (ResultProven bound) (
          rounds_from provider tools sandbox mapping plan retriever max_iterations limits remaining
            iteration result conversation desk)
  unfolding rounds_from
  rounds-Proven bound zero iteration result conversation desk open_yet fits =
      (omega (arith, fits), λ claim. absurd cc)
  rounds-Proven bound (suc remaining) iteration result conversation desk open_yet fits =
      then_do-Returns RoundProven (ResultProven bound)
        (take_round provider tools sandbox mapping plan retriever max_iterations limits iteration
          conversation desk)
        (go_on provider tools sandbox mapping plan retriever max_iterations limits
          (λ next said.
            rounds_from provider tools sandbox mapping plan retriever max_iterations limits
              remaining (suc iteration) next said)
          result)
        (round-Proven iteration conversation desk)
        λ round mid proven.
          go_on-Proven bound _ result round mid open_yet (omega (arith, fits))
            (λ next said after open_next longer.
              rounds-Proven bound remaining (suc iteration) next said after open_next
                (omega (arith, fits, longer)))
            proven

-- A repair that returns made at most `max_iterations` attempts, and one that reports success ended
-- with an attempt whose tests all passed, the last of them a run of the whole suite of the
-- repository that exited with 0 in time, whatever the model, its tools and the sandbox do.
pub implement_and_repair-suite :
    {World : Type 0} (provider : Provider World) (tools : List (Tool World))
    (sandbox : SandboxRunner World) (mapping : RepositoryMap) (plan : ImplementationPlan)
    (retriever : Option (Retriever World)) (max_iterations : ℕ) (limits : Option LoopLimits)
    (retrieved : List RetrievedChunk) (desk : Desk World) {result : RepairResult}
    {left : Desk World}
    → implement_and_repair provider tools sandbox mapping plan retriever max_iterations limits
        retrieved desk
      ≡ (inr result, left)
    → (length result.attempts ≤ max_iterations)
      × (result.succeeded ≡ true
          → (earlier : List Attempt) × (last : Attempt) × (result.attempts ≡ earlier ++ last ∷ [])
            × (has_passed last ≡ true)
            × IsSuiteRun sandbox mapping last.test_outcomes)
unfolding implement_and_repair
implement_and_repair-suite provider tools sandbox mapping plan retriever max_iterations limits
      retrieved desk ran =
    Returns-eq
      (ResultProven provider tools sandbox mapping plan retriever max_iterations limits
        max_iterations)
      (rounds-Proven provider tools sandbox mapping plan retriever max_iterations limits
        max_iterations max_iterations 1 _ (implement_messages plan retrieved) desk refl
        (omega arith))
      ran
