-- ===== src/Orchestrator/Checks.antt =====
-- agent/orchestrator.py: the evidence of the tests and the self-check write events and no more.
use pullsmith.Common.{ℕ, ◌⊎◌, inl, inr, String, Option, none, some, List}
use pullsmith.Db.{warning}
use pullsmith.Testing.{TestOutcome, all_passed}
use pullsmith.Schemas.{ImplementationPlan, VerificationResult}
use pullsmith.Diff
use pullsmith.Diff.{ChangeSet}
use pullsmith.Repair.{verify}
use pullsmith.RepoMap.{RepositoryMap}
use pullsmith.Phases.{Raised, return, ◌>>◌}
use pullsmith.Orchestrator.{Runtime, note_event}
use pullsmith.Orchestrator.Work.{rerun_tests, test_evidence, caught, self_check}
use pullsmith.Orchestrator.Via.{Via, bind-Via, if-Via, handled-Via, return-Via}
use pullsmith.Orchestrator.Quiet.{Quiet, calm, context_for-Calm, in_context-Calm}

module _ (sha256 : String → String) (run_id : ℕ) {World : Type 0} (runtime : Runtime World) where
  rerun_tests-Calm :
      (mapping : Option RepositoryMap) (test_paths : List String)
      → Via (Quiet sha256 run_id) (rerun_tests sha256 runtime run_id mapping test_paths)
  rerun_tests-Calm none test_paths = search calm
  rerun_tests-Calm (some mapping) test_paths = search calm

  pub test_evidence-Calm : Via (Quiet sha256 run_id) (test_evidence sha256 runtime run_id)
  unfolding test_evidence
  test_evidence-Calm = search (calm, rerun_tests-Calm) depth 30

  warned-Calm : Via (Quiet sha256 run_id) (
      note_event {World = World} run_id warning "Self-verification could not be completed" "warning"
        none
      >> return {A = Option VerificationResult} none)
  warned-Calm = search calm

  caught-Calm :
      {A : Type 0} (r : Raised ⊎ (VerificationResult × A))
      → Via (Quiet sha256 run_id) (λ ride. caught sha256 runtime run_id (r, ride))
  caught-Calm (inr checked) = return-Via (some checked.0)
  caught-Calm (inl why) = warned-Calm

  pub self_check-Calm :
      (plan : ImplementationPlan) (changes : ChangeSet) (outcomes : List TestOutcome)
      → Via (Quiet sha256 run_id) (self_check sha256 runtime run_id plan changes outcomes)
  unfolding self_check
  self_check-Calm plan changes outcomes =
      if-Via (all_passed outcomes)
        (handled-Via (caught sha256 runtime run_id)
          (bind-Via (context_for-Calm sha256 run_id runtime) (λ context.
            in_context-Calm sha256 run_id context (
              verify runtime.provider runtime.registry plan (Diff.unified_diff changes) outcomes
                none)))
          caught-Calm)
        (search calm)
