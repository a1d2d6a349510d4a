-- ===== src/Repair/Evident.antt =====
-- agent/repair.py on the map that rag/repo_map.py builds of the repository.
use pullsmith.Common.{
  ◌≡◌, ap, ℕ, inr, String, true, false, Option, none, some, List, [], ◌∷◌, ◌++◌, is_empty, or_text,
}
use pullsmith.Schemas.{ImplementationPlan}
use pullsmith.Retrieval.{RetrievedChunk}
use pullsmith.Sandbox.{SandboxRunner}
use pullsmith.Tools.{Tool}
use pullsmith.Loop.{LoopLimits}
use pullsmith.Testing.Honest.{IsSuiteRun}
use pullsmith.Phases.{Provider, Desk}
use pullsmith.RepoMap.Known.{Root}
use pullsmith.RepoMap.Build.{ScannedFile, build}
use pullsmith.RepoMap.Evidence.{Evidence}
use pullsmith.RepoMap.Shown.{test_command-Evidence}
use pullsmith.Repair.{Attempt, has_passed, RepairResult, Retriever}
use pullsmith.Repair.Rounds.{implement_and_repair}
use pullsmith.Repair.Verified.{implement_and_repair-suite}

or_text-some : (o : Option String) (c : String) → or_text o "" ≡ c → is_empty c ≡ false → o ≡ some c
or_text-some none c e there = let empty : true ≡ is_empty c = ap is_empty e in cc (empty, there)
or_text-some (some String.[]) c e there =
    let empty : true ≡ is_empty c = ap is_empty e in cc (empty, there)
or_text-some (some (String.◌∷◌ x s)) c e there = ap some e

-- Take the map that `build` makes of a repository. A repair that reports success on it ended with an
-- attempt whose tests all passed, the last of them a run that exited with 0 in time, and its command
-- is one that a manifest of the repository, or a file of tests beside it, shows to run its tests.
pub implement_and_repair-Evidence :
    {World : Type 0} (provider : Provider World) (tools : List (Tool World))
    (sandbox : SandboxRunner World) (root : Root) (files : List ScannedFile)
    (plan : ImplementationPlan) (retriever : Option (Retriever World)) (max_iterations : ℕ)
    (limits : Option LoopLimits) (retrieved : List RetrievedChunk) (desk : Desk World)
    {result : RepairResult} {left : Desk World}
    → implement_and_repair provider tools sandbox
        (build root files)
        plan
        retriever
        max_iterations
        limits
        retrieved
        desk
      ≡ (inr result, left)
    → result.succeeded ≡ true
    → (earlier : List Attempt) × (last : Attempt) × (result.attempts ≡ earlier ++ last ∷ [])
      × (has_passed last ≡ true)
      × ((run : IsSuiteRun sandbox (build root files) last.test_outcomes) × Evidence root
            run.command)
implement_and_repair-Evidence provider tools sandbox root files plan retriever max_iterations limits
      retrieved desk ran succeeded =
    let (few, suite) =
      implement_and_repair-suite provider tools sandbox (build root files) plan retriever
        max_iterations limits retrieved desk ran in
    let (earlier, last, ends, passed, run) = suite succeeded in
    let shown =
      (test_command-Evidence root files).0 run.command
        (or_text-some (build root files).test_command run.command run.detected run.non_empty) in
    (earlier, last, ends, passed, (run, shown))
