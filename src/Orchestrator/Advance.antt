-- ===== src/Orchestrator/Advance.antt =====
-- agent/orchestrator.py: the resumption of a run, the driver, and what follows an exception. The
-- loop of `advance` runs on fuel.
use pullsmith.Common.{
  ℕ, zero, suc, ◌-◌, ◌⊎◌, inl, inr, String, Bool, false, Option, none, some, List, [], ◌∷◌, map,
  ◌&&◌, ◌||◌, ltb, if◌then◌else◌, length, show, take_text, ◌<>◌,
}
use pullsmith.States.{
  RunState, created, cloning_repository, analyzing_issue, exploring_repository, indexing_repository,
  retrieving_context, planning, implementing, testing, analyzing_failure, revising, verifying,
  waiting_for_approval, failed, FailureCategory, tool_failure, quota_exhausted, timeout, state_name,
  state_eq, category_name, contains, is_terminal, awaits_human,
}
use pullsmith.Db.{AgentRun, AgentPlan, info}
use pullsmith.Events.{transition}
use pullsmith.Diff.{FileChange}
use pullsmith.Sandbox.{spec_for}
use pullsmith.Review.{latest_plan}
use pullsmith.Phases.{Raised, aborted, quota, unapproved, crashed, return, raise, ◌>>=◌, ◌>>◌}
use pullsmith.Orchestrator.{
  Runtime, RunScratch, fresh_scratch, Ride, Step, service, commit, on_scratch, write_scratch,
  on_world, write_world, outside_text, raise_if, the_run, note_event,
}
use pullsmith.Orchestrator.Prepare.{
  check_out, clone_step, analyse_step, explore_step, retrieve_step,
}
use pullsmith.Orchestrator.Snapshots.{index_step}
use pullsmith.Orchestrator.Work.{
  plan_step, after_plan_step, implement_step, assess_step, await_approval_step,
}

-- `_STATES_WITH_EDITS`
abbrev states_with_edits : List RunState
states_with_edits = testing ∷ analyzing_failure ∷ revising ∷ verifying ∷ waiting_for_approval ∷ []

unfoldable pub is_settled : RunState → Bool
unfolding is_terminal awaits_human
is_settled state = is_terminal state || awaits_human state

-- `FileChange(path=…, action=…, original_content=…)`, with the defaults of the other fields.
abbrev recovered : String × String × Option String → FileChange
recovered (path, action, original) = record {
  path = path;
  action = action;
  lines_added = 0;
  lines_removed = 0;
  is_sensitive = false;
  original_content = original;
}

module _ {World : Type 0} (sha256 : String → String) (runtime : Runtime World) (run_id : ℕ) where
  -- The checkout that is there, or a fresh one if nothing was written yet.
  unfoldable pub find_workspace : RunState → Step World (Unit {0})
  unfolding check_out contains
  find_workspace state = do
    let destination = runtime.workspace_for run_id
    there ← on_world (runtime.is_dir destination)
    let reopen : Step World (Unit {0}) = (do
      write_scratch (λ s. record s { checkout = some destination })
      sha ← outside_text (runtime.current_commit destination)
      write_scratch (λ s. record s { commit_sha = some sha }))
    let lost : Step World (Unit {0}) = raise (
        aborted tool_failure
          "The workspace holding this run's edits is gone, so the change cannot be reviewed or published. The run must be started again.")
    if there
        then reopen
        else if contains states_with_edits state
        then lost
        else check_out runtime run_id

  abbrev pub open_workspace : Option (List String) → Step World (Unit {0})
  open_workspace none = return tt
  open_workspace (some checkout) = do
    mapping ← outside_text (runtime.build_map checkout)
    write_scratch (λ s. record s { mapping = some mapping })
    outside_text (runtime.sandbox.prepare (spec_for checkout))

  abbrev take_plan : Option AgentPlan → RunScratch → RunScratch
  take_plan none s = s
  take_plan (some row) s = record s { plan = some row.payload }

  abbrev pub recover_edits : RunState → Option (List String) → Step World (Unit {0})
  recover_edits state none = return tt
  recover_edits state (some checkout) = do
    found ← outside_text (runtime.uncommitted_changes checkout)
    write_scratch (λ s. record s { changes = map recovered found })
    note_event run_id info
        ("Resumed at "
          <> state_name state
          <> " with "
          <> show (length found)
          <> " recovered change(s)")
        "warning" none

  -- For a run that is not fresh.
  unfoldable pub resume : AgentRun → Step World (Unit {0})
  unfolding find_workspace latest_plan contains show
  resume run = do
    write_scratch (λ s. record s { snapshot_id = run.snapshot_id })
    find_workspace run.state
    at ← on_scratch (λ s. s.checkout)
    open_workspace at
    stored ← service (latest_plan run_id)
    write_scratch (take_plan stored)
    if contains states_with_edits run.state then recover_edits run.state at else return tt

  unfoldable pub rehydrate : Step World (Unit {0})
  unfolding resume state_eq
  rehydrate = do run ← the_run run_id; if state_eq run.state created then return tt else resume run

  unfoldable pub check_budget : Step World (Unit {0})
  unfolding show
  check_budget = do
    now ← on_world runtime.clock
    started_at ← on_scratch (λ s. s.started_at)
    raise_if (ltb runtime.max_run_seconds (now - started_at))
        (aborted timeout ("Run exceeded " <> show runtime.max_run_seconds <> "s"))

  -- `_steps`, and the error for a state without a handler.
  unfoldable pub step_for : RunState → Step World (Unit {0})
  unfolding state_name
  step_for created = clone_step runtime run_id
  step_for cloning_repository = analyse_step runtime run_id
  step_for analyzing_issue = explore_step runtime run_id
  step_for exploring_repository = index_step runtime run_id
  step_for indexing_repository = retrieve_step runtime run_id
  step_for retrieving_context = plan_step sha256 runtime run_id
  step_for planning = after_plan_step sha256 runtime run_id
  step_for implementing = implement_step sha256 runtime run_id
  step_for testing = assess_step sha256 runtime run_id
  step_for verifying = await_approval_step sha256 runtime run_id
  step_for state = raise (aborted tool_failure ("No handler for state " <> state_name state))

  unfoldable pub work_once : RunState → Step World (Unit {0})
  unfolding check_budget step_for
  work_once state = do check_budget; step_for state; commit

  -- One round of the loop; the state that it ends the loop with, if it does.
  unfoldable pub round_for : RunState → Step World (Option RunState)
  unfolding work_once is_settled
  round_for state =
      let more : Step World (Option RunState) = work_once state >> return none in
      if is_settled state then return (some state) else more

  unfoldable pub round : Step World (Option RunState)
  unfolding round_for
  round = the_run run_id >>= λ run. round_for run.state

  abbrev pub unless_settled :
      Step World (Option RunState) → Option RunState → Step World (Option RunState)
  unless_settled more (some state) = return (some state)
  unless_settled more none = more

  -- `while True`; none is the end of the fuel.
  unfoldable pub drive : (fuel : ℕ) → Step World (Option RunState)
  unfolding round
  drive zero = return none
  drive (suc fuel) = round >>= unless_settled (drive fuel)

  -- `_fail`
  unfoldable pub fail_run : FailureCategory → (detail : String) → Step World (Unit {0})
  unfolding transition is_terminal
  fail_run category detail = do
    run ← the_run run_id
    let failing : Step World (Unit {0}) = (do
      service (
          transition run_id failed (some ("Run failed: " <> category_name category)) (some category)
            (some detail) none)
      commit)
    if is_terminal run.state then return tt else failing

  abbrev category_of : Raised → FailureCategory
  category_of (aborted category detail) = category
  category_of (quota why) = quota_exhausted
  category_of (unapproved why) = tool_failure
  category_of (crashed why) = tool_failure

  abbrev detail_of : Raised → String
  detail_of (aborted category detail) = detail
  detail_of (quota why) = take_text 2000 why
  detail_of (unapproved why) = take_text 2000 ("ApprovalRequiredError: " <> why)
  detail_of (crashed why) = take_text 2000 why

  -- The three `except` clauses.
  abbrev pub or_fail :
      (Raised ⊎ Option RunState) × Ride World → (Raised ⊎ Option RunState) × Ride World
  or_fail (inr state, ride) = (inr state, ride)
  or_fail (inl why, ride) =
      (fail_run (category_of why) (detail_of why) >> return (some failed)) ride

  abbrev pub remove_checkout : Option (List String) → Step World (Unit {0})
  remove_checkout none = return tt
  remove_checkout (some checkout) = do
    there ← on_world (runtime.is_dir checkout)
    run ← the_run run_id
    let remove : Step World (Unit {0}) = write_world (runtime.remove_tree checkout)
    if there && is_terminal run.state then remove else return tt

  -- `_cleanup`
  unfoldable pub cleanup : Step World (Unit {0})
  unfolding is_terminal
  cleanup = do
    outside_text runtime.sandbox.cleanup
    at ← on_scratch (λ s. s.checkout)
    remove_checkout at

  -- `finally`: what the body ended with, unless the clean-up raises.
  abbrev pub finally :
      (Raised ⊎ Option RunState) × Ride World → (Raised ⊎ Option RunState) × Ride World
  finally (ended, ride) = (cleanup >>= λ _. λ left. (ended, left)) ride

  abbrev pub with_fresh_scratch : Ride World → Ride World
  with_fresh_scratch ride = record ride { scratch = fresh_scratch (runtime.clock ride.world) }

  -- A run at a gate or at its end is left alone.
  unfoldable pub advance : (fuel : ℕ) → Step World (Option RunState)
  unfolding rehydrate drive fail_run cleanup is_settled
  advance fuel = do
    run ← the_run run_id
    let work : Step World (Option RunState) =
        λ ride. finally (or_fail ((rehydrate >> drive fuel) (with_fresh_scratch ride)))
    if is_settled run.state then return (some run.state) else work
