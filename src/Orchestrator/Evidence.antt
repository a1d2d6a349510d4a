-- ===== src/Orchestrator/Evidence.antt =====
-- What the gate of agent/orchestrator.py, `_await_approval`, is opened on: the outcomes in memory, or
-- those of `_outcomes`.
use pullsmith.Common.{
  ◌≡◌, refl, sym, ap, ◌∙◌, ◌⊎◌, inl, inr, ℕ, String, true, false, Option, none, some, List, [], ◌∷◌,
  ◌++◌, Bool-cases, is_nil,
}
use pullsmith.States.{waiting_for_approval}
use pullsmith.Db.{AgentRun, Db}
use pullsmith.Db.Session.{Result, ok}
use pullsmith.Db.Session
use pullsmith.Events.{transition}
use pullsmith.RepoMap.{RepositoryMap}
use pullsmith.Testing.{TestOutcome, all_passed}
use pullsmith.Testing.Run.{run_tests}
use pullsmith.Repair.{Attempt, RepairResult}
use pullsmith.Phases.{Raised, return, then_do}
use pullsmith.Orchestrator.{Runtime, Ride, as_crash, served}
use pullsmith.Orchestrator.Work.{
  last_outcomes, repaired_outcomes, planned_tests, rerun_tests, test_evidence, outcomes_to_approve,
  park_if_passed, await_approval_step,
}
use pullsmith.Orchestrator.Moves.{state_in, transition-state}

-- The repair has made attempts, and the outcomes are those of the last one.
abbrev pub IsRepaired : Option RepairResult → List TestOutcome → Type 0
IsRepaired found outcomes =
    (result : RepairResult) × (earlier : List Attempt) × (last : Attempt) × (found ≡ some result)
    × (result.attempts ≡ earlier ++ last ∷ [])
    × (outcomes ≡ last.test_outcomes)

-- There is no attempt.
abbrev pub IsUnrepaired : Option RepairResult → Type 0
IsUnrepaired found =
    (found ≡ none) ⊎ ((result : RepairResult) × (found ≡ some result) × (result.attempts ≡ []))

last_outcomes-cases :
    (attempts : List Attempt)
    → ((attempts ≡ []) × (last_outcomes attempts ≡ none))
      ⊎ ((earlier : List Attempt) × (last : Attempt) × (attempts ≡ earlier ++ last ∷ [])
          × (last_outcomes attempts ≡ some last.test_outcomes))
unfolding last_outcomes
last_outcomes-cases [] = inl (refl, refl)
last_outcomes-cases (a ∷ []) = inr ([], a, refl, refl)
last_outcomes-cases (a ∷ b ∷ more) = elim (last_outcomes-cases (b ∷ more)) [
  | inl (empty, _) ↦ absurd cc
  | inr (earlier, last, e, f) ↦ inr (a ∷ earlier, last, ap (λ xs. a ∷ xs) e, f)
]

repaired_outcomes-cases :
    (found : Option RepairResult)
    → (IsUnrepaired found × (repaired_outcomes found ≡ none))
      ⊎ ((outcomes : List TestOutcome) × IsRepaired found outcomes
          × (repaired_outcomes found ≡ some outcomes))
repaired_outcomes-cases none = inl (inl refl, refl)
repaired_outcomes-cases (some result) = elim (last_outcomes-cases result.attempts) [
  | inl (empty, e) ↦ inl (inr (result, refl, empty), e)
  | inr (earlier, last, e, f) ↦ inr (last.test_outcomes, (result, earlier, last, refl, e, refl), f)
]

returned_same :
    {World A : Type 0} (p o : A) (ride left : Ride World)
    → ◌≡◌ {A = (Raised ⊎ A) × Ride World} (inr p, ride) (inr o, left)
    → p ≡ o
returned_same p o ride left e = cc

module _ (sha256 : String → String) {World : Type 0} (runtime : Runtime World) (run_id : ℕ) where
  -- The tests of the map that was made of the repository are run now, the plan's first.
  abbrev pub IsRerun : Ride World → List TestOutcome → Type 0
  IsRerun ride outcomes =
      (mapping : RepositoryMap) × (ride.scratch.mapping ≡ some mapping)
      × ((run_tests runtime.sandbox mapping (planned_tests ride.scratch.plan) ride.world).0
          ≡ inr outcomes)

  -- The outcomes in memory where there are some; else those of the repair's last attempt where there
  -- is one; else those of a run of the tests.
  abbrev pub IsEvidence : Ride World → List TestOutcome → Type 0
  IsEvidence ride outcomes =
      ((is_nil ride.scratch.test_outcomes ≡ false) × (outcomes ≡ ride.scratch.test_outcomes))
      ⊎ ((is_nil ride.scratch.test_outcomes ≡ true)
          × IsRepaired ride.scratch.repair_result outcomes)
      ⊎ ((is_nil ride.scratch.test_outcomes ≡ true)
          × IsUnrepaired ride.scratch.repair_result
          × IsRerun ride outcomes)

  tests_run :
      (ride left : Ride World) (mapping : RepositoryMap) (outcomes : List TestOutcome)
      (r : (String ⊎ List TestOutcome) × World)
      → run_tests runtime.sandbox mapping (planned_tests ride.scratch.plan) ride.world ≡ r
      → ◌≡◌ {A = (Raised ⊎ List TestOutcome) × Ride World}
          (as_crash r.0, record ride { world = r.1 })
          (inr outcomes, left)
      → r.0 ≡ inr outcomes
  tests_run ride left mapping outcomes (inl why, w) ran e = absurd cc
  tests_run ride left mapping outcomes (inr found, w) ran e = cc

  retested :
      (ride left : Ride World) (known : Option RepositoryMap) (outcomes : List TestOutcome)
      → ride.scratch.mapping ≡ known
      → rerun_tests sha256 runtime run_id known (planned_tests ride.scratch.plan) ride
        ≡ (inr outcomes, left)
      → all_passed outcomes ≡ true
      → IsRerun ride outcomes
  unfolding all_passed
  retested ride left none outcomes same e green = let empty : [] ≡ outcomes = cc in absurd cc
  retested ride left (some mapping) outcomes same e green =
      (mapping, same, tests_run ride left mapping outcomes _ refl e)

  test_evidence-IsEvidence :
      (ride left : Ride World) (outcomes : List TestOutcome)
      → is_nil ride.scratch.test_outcomes ≡ true
      → test_evidence sha256 runtime run_id ride ≡ (inr outcomes, left)
      → all_passed outcomes ≡ true
      → IsEvidence ride outcomes
  unfolding test_evidence
  test_evidence-IsEvidence ride left outcomes empty e green =
      elim (repaired_outcomes-cases ride.scratch.repair_result) [
        | inl (none_made, f) ↦
            inr (inr (empty, none_made, retested ride left _ outcomes refl (rw f at e) green))
        | inr (found, (result, earlier, last, known, is, same), f) ↦
            let q : found ≡ outcomes = returned_same found outcomes ride left (rw f at e) in
            inr (inl (empty, (result, earlier, last, known, is, sym q ∙ same)))
      ]

  evidence :
      (ride left : Ride World) (outcomes : List TestOutcome)
      → outcomes_to_approve sha256 runtime run_id ride ≡ (inr outcomes, left)
      → all_passed outcomes ≡ true
      → IsEvidence ride outcomes
  unfolding outcomes_to_approve
  evidence ride left outcomes e green = elim (Bool-cases (is_nil ride.scratch.test_outcomes)) [
    | inl empty ↦ test_evidence-IsEvidence ride left outcomes empty (rw empty at e) green
    | inr known ↦
        inl
          (known, sym (returned_same ride.scratch.test_outcomes outcomes ride left (rw known at e)))
  ]

  -- What is known of a run that is parked.
  abbrev pub IsParked : List TestOutcome → Ride World → Type 0
  IsParked outcomes left =
      (all_passed outcomes ≡ true) × (state_in run_id left.db ≡ some waiting_for_approval)

  moved :
      (r : Result AgentRun × Db) (ride left : Ride World)
      → ((run : AgentRun) (db : Db)
          → r ≡ (ok run, db)
          → state_in run_id db ≡ some waiting_for_approval)
      → then_do (served r.0, record ride { db = r.1 }) (λ _. return tt) ≡ (inr tt, left)
      → state_in run_id left.db ≡ some waiting_for_approval
  moved (ok run, db) ride left enters e =
      ap (λ r. state_in run_id r.1.db) (sym e) ∙ enters run db refl
  moved (Session.raise why, db) ride left enters e = absurd cc

  parked :
      (outcomes : List TestOutcome) (ride left : Ride World)
      → park_if_passed sha256 runtime run_id outcomes ride ≡ (inr tt, left)
      → IsParked outcomes left
  unfolding park_if_passed
  parked outcomes ride left e = elim (Bool-cases (all_passed outcomes)) [
    | inl green ↦ (
      green,
      moved
          (transition run_id waiting_for_approval (some "Waiting for human approval") none none none
            ride.db)
          ride left
          (λ run db h. transition-state run_id waiting_for_approval _ none none none ride.db h)
          (rw green at e),
    )
    | inr red ↦ absurd (let r = rw red at e in cc)
  ]

  approve_after :
      (ride : Ride World) (r : (Raised ⊎ List TestOutcome) × Ride World) (left : Ride World)
      → outcomes_to_approve sha256 runtime run_id ride ≡ r
      → then_do r (park_if_passed sha256 runtime run_id) ≡ (inr tt, left)
      → (outcomes : List TestOutcome) × IsEvidence ride outcomes × IsParked outcomes left
  approve_after ride (inl why, mid) left asked e = absurd cc
  approve_after ride (inr outcomes, mid) left asked e =
      let is = parked outcomes mid left e in (outcomes, evidence ride mid outcomes asked is.0, is)

  pub await_approval_step-IsEvidence :
      (ride left : Ride World)
      → await_approval_step sha256 runtime run_id ride ≡ (inr tt, left)
      → (outcomes : List TestOutcome) × IsEvidence ride outcomes × IsParked outcomes left
  unfolding await_approval_step
  await_approval_step-IsEvidence ride left e =
      approve_after ride (outcomes_to_approve sha256 runtime run_id ride) left refl e
