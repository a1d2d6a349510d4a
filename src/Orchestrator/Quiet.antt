-- ===== src/Orchestrator/Quiet.antt =====
-- What the handlers of agent/orchestrator.py write besides the moves of the run: events, the plan,
-- the diff, fields of the run that are no state, and snapshots of the index.
use pullsmith.Common.{
  refl, ℕ, ◌⊎◌, inl, inr, String, Option, none, some, List, [], ◌∷◌, update_rows, ◌==◌,
}
use pullsmith.Schemas.{IssueAnalysis, ImplementationPlan, VerificationResult}
use pullsmith.Diff.{ChangeSet}
use pullsmith.Risk.{RiskAssessment}
use pullsmith.Db.{Db, RepositorySnapshot, EventKind, Payload}
use pullsmith.Db.Session.{change}
use pullsmith.Events.{append_event}
use pullsmith.Review.{store_plan, store_diff, latest_plan}
use pullsmith.Phases.{Raised, Phase, Observed}
use pullsmith.Tools.{ToolContext}
use pullsmith.Orchestrator.{IndexResult, Runtime, Step, service, note_event, write_run}
use pullsmith.Orchestrator.Observer.{observe, observe_all, in_context, ended}
use pullsmith.Orchestrator.Prepare.{
  context_for, load_issue, load_repository, check_out, ensure_analysis, retriever_for, retrieve_for,
}
use pullsmith.Orchestrator.Snapshots.{
  find_snapshot, save_snapshot, index_found, on_indexed, index_now,
}
use pullsmith.Orchestrator.Via.{Star, here, next, Via, bind-Via, via}

module _ (sha256 : String → String) (run_id : ℕ) where
  pub data Quiet : Db → Db → Type 0 where
    event_noted :
        {db : Db} (kind : EventKind) (message level : String) (payload : Payload)
        → Quiet db (append_event run_id kind message level none payload db).1
    plan_noted : {db : Db} (plan : ImplementationPlan) → Quiet db (store_plan run_id plan db).1
    diff_noted :
        {db : Db} (changes : ChangeSet) (risk : RiskAssessment)
        (verification : Option VerificationResult)
        → Quiet db (store_diff sha256 run_id changes risk verification db).1
    snapshot_noted :
        {db : Db} (snapshot_id : ℕ)
        → Quiet db (record db {
          runs =
              update_rows
                (λ r. r.id == run_id)
                (λ r. record r { snapshot_id = some snapshot_id })
                db.runs;
        })
    work_noted :
        {db : Db} (iteration tool_call_count : ℕ)
        → Quiet db (record db {
          runs =
              update_rows
                (λ r. r.id == run_id)
                (λ r. record r { iteration = iteration; tool_call_count = tool_call_count })
                db.runs;
        })
    snapshot_found :
        {db : Db} (repository_id : ℕ) (commit_sha : String)
        → Quiet db (find_snapshot repository_id commit_sha db).1
    snapshot_saved :
        {db : Db} (snapshot : RepositorySnapshot)
        → Quiet db (record db { snapshots = save_snapshot snapshot db.snapshots })

  module _ {World : Type 0} where
    abbrev pub Calm : {A : Type 0} → Step World A → Type 0
    Calm m = Via Quiet m

    pub event-Calm :
        (kind : EventKind) (message level : String) (payload : Payload)
        → Calm (service (append_event run_id kind message level none payload))
    event-Calm kind message level payload = record {
      writes = λ ride. next here (event_noted kind message level payload);
      commits = λ ride. inl refl;
    }

    pub note_event-Calm :
        (kind : EventKind) (message level : String) (payload : Payload)
        → Calm (note_event run_id kind message level payload)
    note_event-Calm kind message level payload = search (via, event-Calm)

    pub find_snapshot-Calm :
        (repository_id : ℕ) (commit_sha : String)
        → Calm (service (find_snapshot repository_id commit_sha))
    find_snapshot-Calm repository_id commit_sha = record {
      writes = λ ride. next here (snapshot_found repository_id commit_sha);
      commits = λ ride. inl refl;
    }

    pub store_plan-Calm : (plan : ImplementationPlan) → Calm (service (store_plan run_id plan))
    store_plan-Calm plan = record {
      writes = λ ride. next here (plan_noted plan);
      commits = λ ride. inl refl;
    }

    pub store_diff-Calm :
        (changes : ChangeSet) (risk : RiskAssessment) (verification : Option VerificationResult)
        → Calm (service (store_diff sha256 run_id changes risk verification))
    store_diff-Calm changes risk verification = record {
      writes = λ ride. next here (diff_noted changes risk verification);
      commits = λ ride. inl refl;
    }

    pub snapshot_id-Calm :
        (snapshot_id : ℕ)
        → Calm (write_run run_id (λ r. record r { snapshot_id = some snapshot_id }))
    snapshot_id-Calm snapshot_id = record {
      writes = λ ride. next here (snapshot_noted snapshot_id);
      commits = λ ride. inl refl;
    }

    pub work-Calm :
        (iteration tool_call_count : ℕ)
        → Calm (
            write_run run_id
              (λ r. record r { iteration = iteration; tool_call_count = tool_call_count }))
    work-Calm iteration tool_call_count = record {
      writes = λ ride. next here (work_noted iteration tool_call_count);
      commits = λ ride. inl refl;
    }

    pub save_snapshot-Calm :
        (snapshot : RepositorySnapshot)
        → Calm
            (service (change λ db. record db { snapshots = save_snapshot snapshot db.snapshots }))
    save_snapshot-Calm snapshot = record {
      writes = λ ride. next here (snapshot_saved snapshot);
      commits = λ ride. inl refl;
    }

    pub latest_plan-Calm : Calm (service (latest_plan run_id))
    unfolding latest_plan
    latest_plan-Calm = search via

    pub ruleset calm = (
      via, event-Calm, note_event-Calm, find_snapshot-Calm, store_plan-Calm, store_diff-Calm,
      snapshot_id-Calm, work-Calm, save_snapshot-Calm, latest_plan-Calm,
    )

    observe-Calm : (o : Observed) → Calm (observe run_id o)
    unfolding observe
    observe-Calm (kind, payload) = search calm

    observe_all-Calm : (os : List Observed) → Calm (observe_all run_id os)
    unfolding observe_all
    observe_all-Calm [] = search calm
    observe_all-Calm (o ∷ os) = search (calm, observe-Calm o, observe_all-Calm os)

    ended-Calm : {A : Type 0} (r : Raised ⊎ A) → Calm (ended run_id r)
    ended-Calm (inl why) = search calm
    ended-Calm (inr a) = search calm

    pub in_context-Calm :
        {A : Type 0} (context : ToolContext) (phase : Phase World A)
        → Calm (in_context run_id context phase)
    unfolding in_context
    in_context-Calm context phase = record {
      writes = λ ride.
          let r = phase (record { context = context; world = ride.world; reports = [] }) in
          (bind-Via (observe_all-Calm r.1.reports) (λ _. ended-Calm r.0)).writes (record ride {
            world = r.1.world;
            scratch = record ride.scratch { context = some r.1.context };
          });
      commits = λ ride.
          let r = phase (record { context = context; world = ride.world; reports = [] }) in
          (bind-Via (observe_all-Calm r.1.reports) (λ _. ended-Calm r.0)).commits (record ride {
            world = r.1.world;
            scratch = record ride.scratch { context = some r.1.context };
          });
    }

    module _ (runtime : Runtime World) where
      load_repository-Calm : Calm (load_repository runtime run_id)
      unfolding load_repository
      load_repository-Calm = search calm

      pub load_issue-Calm : Calm (load_issue runtime run_id)
      unfolding load_issue
      load_issue-Calm = search calm

      pub check_out-Calm : Calm (check_out runtime run_id)
      unfolding check_out
      check_out-Calm = search (calm, load_repository-Calm) depth 30

      pub context_for-Calm : Calm (context_for runtime run_id)
      unfolding context_for
      context_for-Calm = search calm depth 30

      pub ensure_analysis-Calm : Calm (ensure_analysis runtime run_id)
      unfolding ensure_analysis
      ensure_analysis-Calm = search (calm, load_issue-Calm) depth 30

      index_found-Calm :
          (found : IndexResult × RepositorySnapshot) → Calm (index_found runtime run_id found)
      unfolding index_found
      index_found-Calm (result, snapshot) = search calm

      on_indexed-Calm :
          (snapshot : RepositorySnapshot) (answer : String ⊎ IndexResult)
          → Calm (on_indexed runtime run_id snapshot answer)
      on_indexed-Calm snapshot (inl why) = search calm
      on_indexed-Calm snapshot (inr result) = index_found-Calm (result, snapshot)

      pub index_now-Calm :
          (checkout : List String) (snapshot : RepositorySnapshot) (previous : Option ℕ)
          → Calm (index_now runtime run_id checkout snapshot previous)
      unfolding index_now
      index_now-Calm checkout snapshot previous = search (calm, on_indexed-Calm) depth 30

      pub retriever_for-Calm : Calm (retriever_for runtime run_id)
      unfolding retriever_for
      retriever_for-Calm = search calm

      pub retrieve_for-Calm :
          (analysis : IssueAnalysis) → Calm (retrieve_for runtime run_id analysis)
      unfolding retrieve_for
      retrieve_for-Calm analysis = search (calm, retriever_for-Calm) depth 30
