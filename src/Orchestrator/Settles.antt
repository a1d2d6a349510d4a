-- ===== src/Orchestrator/Settles.antt =====
-- agent/orchestrator.py, `advance`: the loop ends, and where.
use pullsmith.Common.{
  ◌≡◌, refl, sym, ◌∙◌, ap, ◌⊎◌, inl, inr, ℕ, zero, suc, ◌<◌, String, true, false, Option, none,
  some, arith, Bool-cases, Option-cases,
}
use pullsmith.States.{
  RunState, created, cloning_repository, analyzing_issue, exploring_repository, indexing_repository,
  retrieving_context, planning, waiting_for_plan_review, implementing, testing, analyzing_failure,
  revising, verifying, waiting_for_approval, pr_created, completed, failed, cancelled,
}
use pullsmith.Db.{AgentRun}
use pullsmith.Events.{find_run}
use pullsmith.Phases.{Raised, return, then_do}
use pullsmith.Orchestrator.{Runtime, Ride}
use pullsmith.Orchestrator.Advance.{
  is_settled, check_budget, step_for, work_once, round_for, round, unless_settled, drive,
}
use pullsmith.Orchestrator.Quiet.{calm}
use pullsmith.Orchestrator.Moves.{state_of, state_in}
use pullsmith.Orchestrator.Leads.{
  distance, Nearer, Leads, first-Leads, last-Leads, clone-Leads, analyse-Leads, explore-Leads,
  index-Leads, retrieve-Leads, plan-Leads, after_plan-Leads, implement-Leads, assess-Leads,
  await-Leads,
}

module _ (sha256 : String → String) {World : Type 0} (runtime : Runtime World) (run_id : ℕ) where
  step_for-Leads :
      (state : RunState)
      → Leads sha256 run_id (distance state) (step_for sha256 runtime run_id state)
  unfolding step_for distance
  step_for-Leads created = clone-Leads sha256 run_id runtime
  step_for-Leads cloning_repository = analyse-Leads sha256 run_id runtime
  step_for-Leads analyzing_issue = explore-Leads sha256 run_id runtime
  step_for-Leads exploring_repository = index-Leads sha256 run_id runtime
  step_for-Leads indexing_repository = retrieve-Leads sha256 run_id runtime
  step_for-Leads retrieving_context = plan-Leads sha256 run_id runtime
  step_for-Leads planning = after_plan-Leads sha256 run_id runtime
  step_for-Leads implementing = implement-Leads sha256 run_id runtime
  step_for-Leads testing = assess-Leads sha256 run_id runtime
  step_for-Leads verifying = await-Leads sha256 run_id runtime
  step_for-Leads _ = record { leads = λ ride left a e. absurd cc }

  work_once-Leads :
      (state : RunState)
      → Leads sha256 run_id (distance state) (work_once sha256 runtime run_id state)
  unfolding work_once
  work_once-Leads state =
      last-Leads sha256 run_id (check_budget sha256 runtime run_id)
        λ _. first-Leads sha256 run_id (step_for-Leads state) (λ _. search calm)

  -- What the loop returned: the state that the run is left in, which ends it or waits for a human.
  abbrev pub Settled : Option RunState → Ride World → Type 0
  Settled o left =
      (state : RunState) × (o ≡ some state)
      × (is_settled state ≡ true)
      × (state_in run_id left.db ≡ some state)

  module _ (ride : Ride World) (run : AgentRun)
      (found : find_run run_id ride.db.runs ≡ some run) where
    round-settled :
        is_settled run.state ≡ true
        → round sha256 runtime run_id ride ≡ (inr (some run.state), ride)
    unfolding round round_for
    round-settled settled = rw (found, settled) refl

    round-works :
        is_settled run.state ≡ false
        → round sha256 runtime run_id ride
          ≡ then_do (work_once sha256 runtime run_id run.state ride) (λ _. return none)
    unfolding round round_for
    round-works more = rw (found, more) refl

  at_once :
      (state : RunState) (o : Option RunState) (ride left : Ride World)
      → is_settled state ≡ true
      → state_in run_id ride.db ≡ some state
      → ◌≡◌ {A = (Raised ⊎ Option RunState) × Ride World} (inr (some state), ride) (inr o, left)
      → Settled o left
  at_once state o ride left settled known e =
      (state, cc, settled, ap (λ r. state_in run_id r.1.db) (sym e) ∙ known)

  -- A round, when what follows it settles.
  rest-settles :
      (bound fuel : ℕ) (r : (Raised ⊎ Unit {0}) × Ride World) (o : Option RunState)
      (left : Ride World)
      → (r.0 ≡ inr tt → Nearer run_id bound r.1.db)
      → ((mid : Ride World) (state : RunState)
          → state_in run_id mid.db ≡ some state
          → distance state < bound
          → drive sha256 runtime run_id fuel mid ≡ (inr o, left)
          → Settled o left)
      → then_do
          (then_do r (λ _. return none))
          (unless_settled sha256 runtime run_id (drive sha256 runtime run_id fuel))
        ≡ (inr o, left)
      → Settled o left
  rest-settles bound fuel (inl why, mid) o left near more e = absurd cc
  rest-settles bound fuel (inr tt, mid) o left near more e =
      let (state, known, closer) = near refl in more mid state known closer e

  -- The loop of `advance` ends: with more rounds than the distance of the run's state, a run that is
  -- driven without an exception is left at its end or at a gate where a human decides, and this
  -- state is what the loop returns; the rounds are never used up.
  pub drive-settles :
      (fuel : ℕ) (ride left : Ride World) (state : RunState) (o : Option RunState)
      → state_in run_id ride.db ≡ some state
      → distance state < fuel
      → drive sha256 runtime run_id fuel ride ≡ (inr o, left)
      → Settled o left
  unfolding drive
  drive-settles zero ride left state o known enough e = absurd (omega (arith, enough))
  drive-settles (suc fuel) ride left state o known enough e =
      elim (Option-cases (find_run run_id ride.db.runs)) [
        | inl gone ↦ absurd (let s = rw gone at known in cc)
        | inr (run, found) ↦ elim (Bool-cases (is_settled run.state)) [
          | inl settled ↦
              at_once run.state o ride left settled (ap state_of found)
                (rw (round-settled ride run found settled) at e)
          | inr more ↦
              let known_state : state ≡ run.state = (let s = rw found at known in cc) in
              rest-settles (distance run.state) fuel
                (work_once sha256 runtime run_id run.state ride) o left
                (λ h.
                  (work_once-Leads run.state).leads ride _ tt
                    (ap (λ x. (x, (work_once sha256 runtime run_id run.state ride).1)) h))
                (λ mid next at_next closer rest.
                  drive-settles fuel mid left next o at_next
                    (omega (arith, closer, ap distance known_state, enough)) rest)
                (rw (round-works ride run found more) at e)
        ]
      ]

-- Eleven rounds are enough for every state.
pub rounds_enough : (state : RunState) → distance state < 11
unfolding distance
rounds_enough created = omega arith
rounds_enough cloning_repository = omega arith
rounds_enough analyzing_issue = omega arith
rounds_enough exploring_repository = omega arith
rounds_enough indexing_repository = omega arith
rounds_enough retrieving_context = omega arith
rounds_enough planning = omega arith
rounds_enough waiting_for_plan_review = omega arith
rounds_enough implementing = omega arith
rounds_enough testing = omega arith
rounds_enough analyzing_failure = omega arith
rounds_enough revising = omega arith
rounds_enough verifying = omega arith
rounds_enough waiting_for_approval = omega arith
rounds_enough pr_created = omega arith
rounds_enough completed = omega arith
rounds_enough failed = omega arith
rounds_enough cancelled = omega arith
