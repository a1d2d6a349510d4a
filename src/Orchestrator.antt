-- ===== src/Orchestrator.antt =====
-- agent/orchestrator.py: what one execution of a run works with. A step acts on the database of the
-- open session, the scratch and the `World`, and returns or raises. Children:
-- Observer has what a phase reports, Snapshots, Prepare and Work the handlers of the states, Advance
-- the resumption and the driver, Publish the pull request; the others have the proofs.

pub mod Observer
pub mod Snapshots
pub mod Prepare
pub mod Work
pub mod Advance
pub mod Via
pub mod Quiet
pub mod Checks
pub mod Moves
pub mod Leads
pub mod Serves
pub mod Settles
pub mod Evidence
pub mod Finishes
pub mod Refines
pub mod Publish
pub mod Gated
use pullsmith.Common.{
  ℕ, ◌-◌, ◌⊎◌, inl, inr, String, Bool, true, false, Option, none, some, List, [], ◌∷◌, ◌++◌, map,
  ◌==◌, ltb, if◌then◌else◌, find_row, update_rows, show, ◌<>◌, take_text, or_else, or_text, str_eq,
  is_in,
}
use pullsmith.States.{
  RunState, FailureCategory, repository_understanding_failure, tool_failure, timeout, state_name,
  category_name,
}
use pullsmith.Schemas.{IssueAnalysis, ImplementationPlan}
use pullsmith.Db.{
  Db, AgentRun, Issue, Repository, RepositorySnapshot, EventKind, tool_call, test_run, retrieval,
  info, Json, text, num, bool, Payload,
}
use pullsmith.Db.Session.{
  change, Error, not_found, run_conflict, lookup_error, review_error, approval_required,
  no_result_found, illegal_transition, run_aborted, http, Result, ok, Action,
}
use pullsmith.Db.Session
use pullsmith.Events.{append_event, transition, find_run, save_run}
use pullsmith.Diff.{FileChange, ChangeSet}
use pullsmith.Tools.{Tool, ToolContext}
use pullsmith.RepoMap.{RepositoryMap}
use pullsmith.Retrieval.{RetrievedChunk}
use pullsmith.Sandbox.{SandboxRunner}
use pullsmith.Testing.{TestOutcome}
use pullsmith.Repair.{RepairResult, Retriever}
use pullsmith.Phases.{
  Raised, aborted, quota, unapproved, crashed, Provider, Observed, Desk, Fallible, Phase, return,
  raise, then_do, ◌>>=◌, ◌>>◌,
}

-- rag/workspace.py, `Checkout`
pub record Checkout : Type 0 where
  pub path : List String
  pub commit_sha : String
  pub branch : String

-- A clone, or a `GitError` or another exception with its text.
pub data Cloned : Type 0 where
  cloned : Checkout → Cloned
  git_error : String → Cloned
  clone_crashed : String → Cloned

-- rag/indexer.py, `IndexResult`, without the counts that no event shows.
pub record IndexResult : Type 0 where
  pub files_indexed : ℕ
  pub chunks_created : ℕ
  pub chunks_reused : ℕ
  pub embeddings_created : ℕ
  pub embeddings_reused : ℕ
  pub embedding_model : String

-- agent/runtime.py, `AgentRuntime`, with what rag/workspace.py, rag/repo_map.py, rag/indexer.py and
-- the disk do for a run. What is raised is kept as `Type: text`.
pub record Runtime (World : Type 0) : Type 0 where
  pub provider : Provider World
  pub registry : List (Tool World)
  pub sandbox : SandboxRunner World
  pub retriever : (snapshot_id : ℕ) → Retriever World
  pub max_run_seconds : ℕ
  pub max_tool_calls : ℕ
  pub workspace_for : (run_id : ℕ) → List String
  pub clock : World → ℕ
  pub is_dir : List String → World → Bool
  pub remove_tree : List String → World → World
  pub read_text : List String → World → (path : String) → Option String
  pub unified : (fromfile tofile : String) → (before after : List String) → List String
  pub clone :
      (url : String) → (destination : List String) → (branch : String) → World → Cloned × World
  pub current_commit : List String → World → (String ⊎ String) × World
  pub build_map : List String → World → (String ⊎ RepositoryMap) × World
  pub uncommitted_changes :
      List String → World → (String ⊎ List (String × String × Option String)) × World
  pub index_snapshot :
      RepositorySnapshot
      → List String
      → (previous_snapshot_id : Option ℕ) → World
      → (String ⊎ IndexResult) × RepositorySnapshot × World

pub record RunScratch : Type 0 where
  pub checkout : Option (List String)
  pub commit_sha : Option String
  pub snapshot_id : Option ℕ
  pub mapping : Option RepositoryMap
  pub analysis : Option IssueAnalysis
  pub retrieved : List RetrievedChunk
  pub retrieval_attempted : Bool
  pub plan : Option ImplementationPlan
  pub repair_result : Option RepairResult
  pub test_outcomes : List TestOutcome
  pub changes : List FileChange
  pub context : Option ToolContext
  pub started_at : ℕ

abbrev pub fresh_scratch : (started_at : ℕ) → RunScratch
fresh_scratch started_at = record {
  checkout = none;
  commit_sha = none;
  snapshot_id = none;
  mapping = none;
  analysis = none;
  retrieved = [];
  retrieval_attempted = false;
  plan = none;
  repair_result = none;
  test_outcomes = [];
  changes = [];
  context = none;
  started_at = started_at;
}

-- `committed` is what another session sees of the database.
pub record Ride (World : Type 0) : Type 0 where
  pub db : Db
  pub committed : Db
  pub scratch : RunScratch
  pub world : World

-- `f"{type(exc).__name__}: {exc}"` of what a service raises.
unfoldable pub raised_by : Error → Raised
unfolding state_name show
raised_by (not_found why) = crashed ("NotFoundError: " <> why)
raised_by (run_conflict why) = crashed ("RunConflictError: " <> why)
raised_by (lookup_error why) = crashed ("LookupError: " <> why)
raised_by (review_error why) = crashed ("ReviewError: " <> why)
raised_by (approval_required why) = unapproved why
raised_by no_result_found = crashed "NoResultFound: No row was found when one was required"
raised_by (illegal_transition current target) = crashed (
    "IllegalTransitionError: Illegal run state transition: "
    <> state_name current
    <> " -> "
    <> state_name target)
raised_by (run_aborted category detail) = aborted category detail
raised_by (http code why) = crashed ("HTTPException: " <> show code <> ": " <> why)

abbrev pub served : {A : Type 0} → Result A → Raised ⊎ A
served (ok a) = inr a
served (Session.raise e) = inl (raised_by e)

abbrev pub Step : Type 0 → Type 0 → Type 0
Step World A = Fallible (Ride World) A

abbrev pub as_crash : {A : Type 0} → (String ⊎ A) → Raised ⊎ A
as_crash (inl why) = inl (crashed why)
as_crash (inr a) = inr a

module _ {World : Type 0} where
  -- A call of a service in the open session.
  abbrev pub service : {A : Type 0} → Action A → Step World A
  service action = λ ride. let r = action ride.db in (served r.0, record ride { db = r.1 })

  abbrev pub commit : Step World (Unit {0})
  commit = λ ride. (inr tt, record ride { committed = ride.db })

  abbrev pub on_scratch : {A : Type 0} → (RunScratch → A) → Step World A
  on_scratch f = λ ride. (inr (f ride.scratch), ride)

  abbrev pub write_scratch : (RunScratch → RunScratch) → Step World (Unit {0})
  write_scratch f = λ ride. (inr tt, record ride { scratch = f ride.scratch })

  abbrev pub on_world : {A : Type 0} → (World → A) → Step World A
  on_world f = λ ride. (inr (f ride.world), ride)

  abbrev pub write_world : (World → World) → Step World (Unit {0})
  write_world f = λ ride. (inr tt, record ride { world = f ride.world })

  -- A call of a collaborator.
  abbrev pub outside : {A : Type 0} → (World → (Raised ⊎ A) × World) → Step World A
  outside f = λ ride. let r = f ride.world in (r.0, record ride { world = r.1 })

  abbrev pub outside_text : {A : Type 0} → (World → (String ⊎ A) × World) → Step World A
  outside_text f = outside (λ w. let r = f w in (as_crash r.0, r.1))

  abbrev pub needed : {A : Type 0} → Option A → Raised → Step World A
  needed none why = raise why
  needed (some a) why = return a

  -- What is known, or else a step finds it.
  abbrev pub known_or : {A : Type 0} → Option A → Step World A → Step World A
  known_or none find = find
  known_or (some a) find = return a

  abbrev pub raise_if : Bool → Raised → Step World (Unit {0})
  raise_if true why = raise why
  raise_if false why = return tt

  -- The row of the run, which the session hands out as one object.
  abbrev pub the_run : (run_id : ℕ) → Step World AgentRun
  the_run run_id = λ ride.
      needed (find_run run_id ride.db.runs)
        (crashed ("LookupError: Run not found: " <> show run_id)) ride

  -- An event or a move without a payload.
  abbrev pub note_event :
      (run_id : ℕ) → EventKind → (message level : String) → Payload → Step World (Unit {0})
  note_event run_id kind message level payload =
      service (append_event run_id kind message level none payload) >> return tt

  abbrev pub move_run : (run_id : ℕ) → RunState → (message : String) → Step World (Unit {0})
  move_run run_id target message =
      service (transition run_id target (some message) none none none) >> return tt

-- Fields of the run that a step assigns, and that the next flush writes.
abbrev pub write_run :
    {World : Type 0} → (run_id : ℕ) → (AgentRun → AgentRun) → Step World (Unit {0})
write_run run_id f =
    service (change λ db. record db { runs = update_rows (λ r. r.id == run_id) f db.runs })
