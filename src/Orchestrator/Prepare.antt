-- ===== src/Orchestrator/Prepare.antt =====
-- agent/orchestrator.py: the handlers of the states before the plan, from the clone to the
-- retrieval. Each first moves the run and then works.
use pullsmith.Common.{
  ℕ, inr, true, none, some, [], ◌∷◌, map, not, ◌==◌, if◌then◌else◌, find_row, is_nil, length, take,
  take_text, show, ◌<>◌, or_else, or_text, is_empty, sorted_set,
}
use pullsmith.States.{
  cloning_repository, analyzing_issue, exploring_repository, retrieving_context,
  repository_understanding_failure, retrieval_failure, planning_failure, tool_failure,
}
use pullsmith.Schemas.{IssueAnalysis}
use pullsmith.Db.{Issue, Repository, info, warning, retrieval, text, texts, num}
use pullsmith.Db.Session.{query}
use pullsmith.Llm.{total_tokens}
use pullsmith.Tools.{ToolContext}
use pullsmith.Sandbox.{spec_for}
use pullsmith.RepoMap.{to_dict}
use pullsmith.Planner.{analyse_issue}
use pullsmith.Repair.{Retriever}
use pullsmith.Phases.{aborted, crashed, return, raise, ◌>>=◌, ◌>>◌}
use pullsmith.Orchestrator.{
  Checkout, Cloned, cloned, git_error, clone_crashed, Runtime, Step, service, on_scratch,
  write_scratch, outside, outside_text, needed, known_or, raise_if, the_run, note_event, move_run,
}

module _ {World : Type 0} (runtime : Runtime World) (run_id : ℕ) where
  unfoldable pub context_for : Step World ToolContext
  unfolding show
  context_for = do
    checkout ← on_scratch (λ s. s.checkout)
    needed checkout (aborted tool_failure "Workspace is not prepared")
    scratch ← on_scratch (λ s. s)
    let built : ToolContext = record {
      run_id = show run_id;
      snapshot_id = elim scratch.snapshot_id [ none ↦ none | some id ↦ some (show id) ];
      tool_calls_used = 0;
      max_tool_calls = runtime.max_tool_calls;
      changes = scratch.changes;
    }
    let context : ToolContext = record (or_else scratch.context built) {
      snapshot_id = elim scratch.snapshot_id [ none ↦ none | some id ↦ some (show id) ];
    }
    write_scratch (λ s. record s { context = some context })
    return context

  unfoldable pub load_issue : Step World Issue
  load_issue = do
    run ← the_run run_id
    issue ← service (query λ db. find_row (λ i. i.id == run.issue_id) db.issues)
    needed issue (aborted repository_understanding_failure "Issue not found")

  unfoldable pub load_repository : Step World Repository
  load_repository = do
    run ← the_run run_id
    repository ← service (query λ db. find_row (λ r. r.id == run.repository_id) db.repositories)
    needed repository (aborted repository_understanding_failure "Repository not found")

  abbrev pub on_cloned : Cloned → Step World Checkout
  on_cloned (cloned checkout) = return checkout
  on_cloned (git_error why) =
      raise (aborted repository_understanding_failure ("Clone failed: " <> why))
  on_cloned (clone_crashed why) = raise (crashed why)

  unfoldable pub check_out : Step World (Unit {0})
  unfolding load_repository take_text
  check_out = do
    repository ← load_repository
    let url = or_text repository.clone_url ""
    raise_if (is_empty url) (aborted repository_understanding_failure "Repository has no clone URL")
    answer ← outside (λ w.
        let r = runtime.clone url (runtime.workspace_for run_id) repository.default_branch w in
        (inr r.0, r.1))
    checkout ← on_cloned answer
    write_scratch
        (λ s. record s { checkout = some checkout.path; commit_sha = some checkout.commit_sha })
    outside_text (runtime.sandbox.prepare (spec_for checkout.path))
    note_event run_id info
        ("Checked out " <> repository.full_name <> " at " <> take_text 8 checkout.commit_sha) "info"
        (some (("commit", text checkout.commit_sha) ∷ ("branch", text checkout.branch) ∷ []))

  unfoldable pub clone_step : Step World (Unit {0})
  unfolding check_out
  clone_step = do move_run run_id cloning_repository "Preparing repository workspace"; check_out

  -- `_ensure_analysis`
  unfoldable pub ensure_analysis : Step World IssueAnalysis
  unfolding load_issue analyse_issue
  ensure_analysis = do
    known ← on_scratch (λ s. s.analysis)
    let derive : Step World IssueAnalysis = (do
      issue ← load_issue
      answer ← outside (analyse_issue runtime.provider issue.title issue.body "")
      write_scratch (λ s. record s { analysis = some answer.0 })
      return answer.0)
    known_or known derive

  unfoldable pub analyse_step : Step World (Unit {0})
  unfolding load_issue analyse_issue total_tokens take_text
  analyse_step = do
    move_run run_id analyzing_issue "Reading the issue"
    issue ← load_issue
    answer ← outside (analyse_issue runtime.provider issue.title issue.body "")
    let analysis = answer.0
    raise_if (not analysis.is_actionable) (
        aborted planning_failure
          ("Issue is not actionable: " <> or_text analysis.clarification_needed "too vague"))
    write_scratch (λ s. record s { analysis = some analysis })
    note_event run_id info ("Issue understood: " <> take_text 200 analysis.problem_summary) "info" (
        some (
          ("search_queries", texts analysis.search_queries)
          ∷ ("referenced_symbols", texts analysis.referenced_symbols)
          ∷ ("tokens", num (total_tokens answer.1))
          ∷ []))

  unfoldable pub explore_step : Step World (Unit {0})
  unfolding show to_dict
  explore_step = do
    move_run run_id exploring_repository "Inspecting repository"
    found ← on_scratch (λ s. s.checkout)
    checkout ← needed found (aborted tool_failure "Workspace is missing")
    mapping ← outside_text (runtime.build_map checkout)
    write_scratch (λ s. record s { mapping = some mapping })
    let command = or_text mapping.test_command ""
    let warn : Step World (Unit {0}) =
        note_event run_id warning
          "No test command detected; this change cannot be verified objectively" "warning" none
    if is_empty command then warn else return tt
    note_event run_id info
        (or_text mapping.primary_language "unknown"
          <> " project, "
          <> show mapping.file_count
          <> " indexable files, tests: "
          <> or_text mapping.test_command "none found")
        "info" (some (to_dict mapping))

  -- `_retriever`
  unfoldable pub retriever_for : Step World (Retriever World)
  retriever_for = do
    found ← on_scratch (λ s. s.snapshot_id)
    snapshot_id ← needed found (aborted retrieval_failure "Repository is not indexed")
    return (runtime.retriever snapshot_id)

  -- The search with the queries and the symbols of the analysis.
  unfoldable pub retrieve_for : IssueAnalysis → Step World (Unit {0})
  unfolding retriever_for
  retrieve_for analysis = do
    retrieve ← retriever_for
    chunks ← outside (retrieve analysis.search_queries analysis.referenced_symbols)
    write_scratch (λ s. record s { retrieved = chunks; retrieval_attempted = true })

  unfoldable pub retrieve_step : Step World (Unit {0})
  unfolding ensure_analysis retrieve_for show sorted_set
  retrieve_step = do
    move_run run_id retrieving_context "Retrieving relevant code"
    analysis ← ensure_analysis
    retrieve_for analysis
    retrieved ← on_scratch (λ s. s.retrieved)
    let warn : Step World (Unit {0}) =
        note_event run_id warning "No relevant code was retrieved; the plan may be poorly informed"
          "warning" none
    if is_nil retrieved then warn else return tt
    note_event run_id retrieval
        ("Retrieved " <> show (length retrieved) <> " relevant code sections") "info"
        (some (
          ("files", texts (take 20 (sorted_set (map (λ c. c.relative_path) retrieved))))
          ∷ ("queries", texts analysis.search_queries)
          ∷ []))
