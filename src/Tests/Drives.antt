-- ===== src/Tests/Drives.antt =====
-- The theorems on the orchestrator, applied to a run that is resumed when its change is verified.
use pullsmith.Common.{◌≡◌, refl, inl, inr, ℕ, String, true, none, some, List, [], ◌∷◌}
use pullsmith.States.{RunState, verifying, waiting_for_approval, can_transition}
use pullsmith.Events.{append_event, transition}
use pullsmith.Review.{newest_plan}
use pullsmith.Db.{AgentRun}
use pullsmith.Testing.{TestOutcome, all_passed}
use pullsmith.Testing.Parse.{parse_test_output}
use pullsmith.Orchestrator.{Runtime, Ride, fresh_scratch, clone_crashed}
use pullsmith.Orchestrator.Work.{await_approval_step}
use pullsmith.Orchestrator.Advance.{is_settled, advance}
use pullsmith.Orchestrator.Finishes.{advance-IsSettled, await_approval_step-passed}
use pullsmith.Orchestrator.Evidence.{IsEvidence}
use pullsmith.Orchestrator.Moves.{state_in}
use pullsmith.Tests.{waiting, waiting_db}
use pullsmith.Tests.Agent.{reading}
use pullsmith.Tests.Suites.{always, mapping, green_result}
use pullsmith.Tests.Repairs.{provider}

-- The world counts the test runs; the workspace is there and holds no edits.
abbrev pub runtime : Runtime ℕ
runtime = record {
  provider = provider;
  registry = reading ∷ [];
  sandbox = always green_result;
  retriever = λ snapshot queries symbols w. (inr [], w);
  max_run_seconds = 1800;
  max_tool_calls = 60;
  workspace_for = λ run_id. "work" ∷ [];
  clock = λ w. w;
  is_dir = λ path w. true;
  remove_tree = λ path w. w;
  read_text = λ path w name. none;
  unified = λ fromfile tofile before after. after;
  clone = λ url destination branch w. (clone_crashed "OSError: no network", w);
  current_commit = λ path w. (inr "abc", w);
  build_map = λ path w. (inr mapping, w);
  uncommitted_changes = λ path w. (inr [], w);
  index_snapshot = λ snapshot path previous w. (inl "OSError: no network", snapshot, w);
}

abbrev sha : String → String
sha text = text

abbrev resumed : AgentRun
resumed = record waiting { state = verifying }

abbrev ride : Ride ℕ
ride = record {
  db = record waiting_db { runs = resumed ∷ [] };
  committed = record waiting_db { runs = resumed ∷ [] };
  scratch = fresh_scratch 0;
  world = 0;
}

parks :
    advance sha runtime 1 11 ride
    ≡ (inr (some waiting_for_approval), (advance sha runtime 1 11 ride).1)
unfolding advance append_event newest_plan await_approval_step parse_test_output can_transition
parks = refl

advance-IsSettled_example :
    (state : RunState) × (some waiting_for_approval ≡ some state) × (is_settled state ≡ true)
advance-IsSettled_example =
    advance-IsSettled sha runtime 1 ride (advance sha runtime 1 11 ride).1 resumed
      (some waiting_for_approval) refl parks

-- The run has the map of its repository, and no test was run yet.
abbrev mapped : Ride ℕ
mapped = record ride { scratch = record (fresh_scratch 0) { mapping = some mapping } }

gate_opens :
    await_approval_step sha runtime 1 mapped
    ≡ (inr tt, (await_approval_step sha runtime 1 mapped).1)
unfolding await_approval_step parse_test_output transition can_transition
gate_opens = refl

await_approval_step-passed_example :
    (outcomes : List TestOutcome) × IsEvidence sha runtime 1 mapped outcomes
    × (all_passed outcomes ≡ true)
    × (state_in 1 (await_approval_step sha runtime 1 mapped).1.db ≡ some waiting_for_approval)
await_approval_step-passed_example =
    await_approval_step-passed sha runtime 1 mapped (await_approval_step sha runtime 1 mapped).1
      gate_opens
