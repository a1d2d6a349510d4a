-- ===== src/Orchestrator/Finishes.antt =====
-- agent/orchestrator.py, `advance` as a whole: the resumption, the loop, the failure and the clean-up.
use pullsmith.Common.{
  ◌≡◌, refl, ◌∙◌, ap, ◌⊎◌, inl, inr, ℕ, String, true, Option, none, some, List, Bool-cases,
}
use pullsmith.States.{RunState, failed, waiting_for_approval}
use pullsmith.Db.{AgentRun}
use pullsmith.Events.{find_run}
use pullsmith.Testing.{TestOutcome, all_passed}
use pullsmith.Phases.{Raised, return, then_do}
use pullsmith.Orchestrator.{Runtime, Ride, Step}
use pullsmith.Orchestrator.Work.{await_approval_step}
use pullsmith.Orchestrator.Advance.{
  is_settled, find_workspace, open_workspace, recover_edits, resume, rehydrate, drive, or_fail,
  with_fresh_scratch, advance,
}
use pullsmith.Orchestrator.Via.{Via}
use pullsmith.Orchestrator.Quiet.{Quiet, calm, check_out-Calm}
use pullsmith.Orchestrator.Moves.{state_of, state_in, state_in-Star}
use pullsmith.Orchestrator.Evidence.{IsEvidence, await_approval_step-IsEvidence}
use pullsmith.Orchestrator.Settles.{drive-settles, rounds_enough}

module _ (sha256 : String → String) {World : Type 0} (runtime : Runtime World) (run_id : ℕ) where
  abbrev Calm : {A : Type 0} → Step World A → Type 0
  Calm m = Via (Quiet sha256 run_id) m

  find_workspace-Calm : (state : RunState) → Calm (find_workspace sha256 runtime run_id state)
  unfolding find_workspace
  find_workspace-Calm state = search (calm, check_out-Calm) depth 30

  open_workspace-Calm : (at : Option (List String)) → Calm (open_workspace sha256 runtime run_id at)
  open_workspace-Calm none = search calm
  open_workspace-Calm (some checkout) = search calm depth 20

  recover_edits-Calm :
      (state : RunState) (at : Option (List String))
      → Calm (recover_edits sha256 runtime run_id state at)
  recover_edits-Calm state none = search calm
  recover_edits-Calm state (some checkout) = search calm depth 20

  resume-Calm : (run : AgentRun) → Calm (resume sha256 runtime run_id run)
  unfolding resume
  resume-Calm run =
      search (calm, find_workspace-Calm, open_workspace-Calm, recover_edits-Calm) depth 40

  pub rehydrate-Calm : Calm (rehydrate sha256 runtime run_id)
  unfolding rehydrate
  rehydrate-Calm = search (calm, resume-Calm) depth 20

  abbrev IsSettled : Option RunState → Type 0
  IsSettled o = (state : RunState) × (o ≡ some state) × (is_settled state ≡ true)

  finally-returned :
      (c : (Raised ⊎ Unit {0}) × Ride World) (ended : Raised ⊎ Option RunState)
      {o : Option RunState} {left : Ride World}
      → then_do c (λ _ after. (ended, after)) ≡ (inr o, left)
      → ended ≡ inr o
  finally-returned (inl why, ride) ended e = cc
  finally-returned (inr done, ride) ended e = cc

  failed-IsSettled :
      (c : (Raised ⊎ Unit {0}) × Ride World) {o : Option RunState}
      → (then_do c (λ _. return (some failed))).0 ≡ inr o
      → IsSettled o
  unfolding is_settled
  failed-IsSettled (inl why, ride) e = absurd cc
  failed-IsSettled (inr done, ride) e = (failed, cc, refl)

  or_fail-IsSettled :
      (r : (Raised ⊎ Option RunState) × Ride World) {o : Option RunState}
      → ((p : Option RunState) → r.0 ≡ inr p → IsSettled p)
      → (or_fail sha256 runtime run_id r).0 ≡ inr o
      → IsSettled o
  or_fail-IsSettled (inr p, ride) settled e = settled _ e
  or_fail-IsSettled (inl why, ride) settled e = failed-IsSettled _ e

  -- The resumption and the loop, from a state of the run.
  driven-IsSettled :
      (r : (Raised ⊎ Unit {0}) × Ride World) (state : RunState) (o : Option RunState)
      → state_in run_id r.1.db ≡ some state
      → (then_do r (λ _. drive sha256 runtime run_id 11)).0 ≡ inr o
      → IsSettled o
  driven-IsSettled (inl why, ride) state o known e = absurd cc
  driven-IsSettled (inr done, ride) state o known e =
      let (at, is, settled, same) =
        drive-settles sha256 runtime run_id 11 ride (drive sha256 runtime run_id 11 ride).1 state o
          known (rounds_enough state) (ap (λ x. (x, (drive sha256 runtime run_id 11 ride).1)) e) in
      (at, is, settled)

returned_same :
    {World A : Type 0} (p o : A) (ride left : Ride World)
    → ◌≡◌ {A = (Raised ⊎ A) × Ride World} (inr p, ride) (inr o, left)
    → o ≡ p
returned_same p o ride left e = cc

-- A worker that advances a run does not do so for ever: eleven rounds are enough from every state, so
-- that a call which returns has a state, and this state ends the run or waits for a human. It
-- holds whatever the model, the sandbox, the index and the disk do; the run has to exist.
pub advance-IsSettled :
    (sha256 : String → String) {World : Type 0} (runtime : Runtime World) (run_id : ℕ)
    (ride left : Ride World) (run : AgentRun) (o : Option RunState)
    → find_run run_id ride.db.runs ≡ some run
    → advance sha256 runtime run_id 11 ride ≡ (inr o, left)
    → (state : RunState) × (o ≡ some state) × (is_settled state ≡ true)
unfolding advance
advance-IsSettled sha256 runtime run_id ride left run o found e =
    elim (Bool-cases (is_settled run.state)) [
      | inl settled ↦ (run.state, returned_same _ o ride left (rw (found, settled) at e), settled)
      | inr more ↦
          let start = with_fresh_scratch sha256 runtime run_id ride in
          let resumed = rehydrate sha256 runtime run_id start in
          or_fail-IsSettled sha256 runtime run_id
            (then_do resumed (λ _. drive sha256 runtime run_id 11))
            (λ p h.
              driven-IsSettled sha256 runtime run_id resumed run.state p
                (state_in-Star sha256 run_id ((rehydrate-Calm sha256 runtime run_id).writes start)
                  ∙ ap state_of found)
                h)
            (finally-returned sha256 runtime run_id _ _ (rw (found, more) at e))
    ]

-- A run is offered for approval only on evidence. Where the handler that parks it before a human
-- returns, the run waits for approval, and tests were run and all passed: those whose outcomes are
-- in memory; where there are none, those of the last attempt of the repair; and where there is no
-- attempt, those that `run_tests` has run at that moment with the map of the repository.
pub await_approval_step-passed :
    (sha256 : String → String) {World : Type 0} (runtime : Runtime World) (run_id : ℕ)
    (ride left : Ride World)
    → await_approval_step sha256 runtime run_id ride ≡ (inr tt, left)
    → (outcomes : List TestOutcome) × IsEvidence sha256 runtime run_id ride outcomes
      × (all_passed outcomes ≡ true)
      × (state_in run_id left.db ≡ some waiting_for_approval)
await_approval_step-passed sha256 runtime run_id ride left e =
    let (outcomes, evidence, (green, waits)) =
      await_approval_step-IsEvidence sha256 runtime run_id ride left e in
    (outcomes, evidence, green, waits)
