-- ===== src/Orchestrator/Snapshots.antt =====
-- agent/orchestrator.py, `_index`: the snapshot of a commit, and its index.
use pullsmith.Common.{
  ℕ, ◌+◌, ◌⊎◌, inl, inr, String, Option, none, some, List, [], ◌∷◌, ◌++◌, not, ◌&&◌, leb, ◌==◌,
  if◌then◌else◌, find_row, update_rows, where_rows, show, ◌<>◌, str_eq,
}
use pullsmith.States.{indexing_repository, retrieval_failure, tool_failure}
use pullsmith.Db.{Db, RepositorySnapshot, info, text, num}
use pullsmith.Db.Session.{ok, Action, change}
use pullsmith.Phases.{Raised, aborted, raise, ◌>>=◌, ◌>>◌}
use pullsmith.Orchestrator.{
  IndexResult, Runtime, Step, service, on_scratch, write_scratch, outside, needed, the_run,
  note_event, move_run, write_run,
}

-- ORDER BY created_at DESC LIMIT 1
unfoldable newer_snapshot : RepositorySnapshot → Option RepositorySnapshot → RepositorySnapshot
newer_snapshot s none = s
newer_snapshot s (some t) = if leb t.created_at s.created_at then s else t

unfoldable newest_snapshot : List RepositorySnapshot → Option RepositorySnapshot
unfolding newer_snapshot
newest_snapshot [] = none
newest_snapshot (s ∷ ss) = some (newer_snapshot s (newest_snapshot ss))

abbrev pub save_snapshot : RepositorySnapshot → List RepositorySnapshot → List RepositorySnapshot
save_snapshot s ss = update_rows (λ t. t.id == s.id) (λ _. s) ss

abbrev id_of : Option RepositorySnapshot → Option ℕ
id_of none = none
id_of (some s) = some s.id

-- The snapshot that is there, or a new one, with the one whose hashes it may reuse.
unfoldable pub take_snapshot :
    (repository_id : ℕ) (commit_sha : String)
    → Option RepositorySnapshot
    → Action (RepositorySnapshot × Option ℕ)
unfolding newest_snapshot
take_snapshot repository_id commit_sha (some snapshot) db = (ok (snapshot, none), db)
take_snapshot repository_id commit_sha none db =
    let fresh : RepositorySnapshot = record {
      id = db.unused_id;
      repository_id = repository_id;
      commit_sha = commit_sha;
      index_status = "indexing";
      chunk_count = 0;
      created_at = db.now;
    } in
    (
      ok (
        fresh,
        id_of (newest_snapshot (where_rows (λ s. s.repository_id == repository_id) db.snapshots)),
      ),
      record db { unused_id = db.unused_id + 1; snapshots = db.snapshots ++ fresh ∷ [] },
    )

abbrev pub known_snapshot :
    (repository_id : ℕ) → (commit_sha : String) → Db → Option RepositorySnapshot
known_snapshot repository_id commit_sha db =
    find_row (λ s. str_eq s.commit_sha commit_sha)
      (where_rows (λ s. s.repository_id == repository_id) db.snapshots)

unfoldable pub find_snapshot :
    (repository_id : ℕ) (commit_sha : String) → Action (RepositorySnapshot × Option ℕ)
unfolding take_snapshot
find_snapshot repository_id commit_sha db =
    take_snapshot repository_id commit_sha (known_snapshot repository_id commit_sha db) db

module _ {World : Type 0} (runtime : Runtime World) (run_id : ℕ) where
  unfoldable pub index_found : (IndexResult × RepositorySnapshot) → Step World (Unit {0})
  unfolding show
  index_found (result, snapshot) =
      note_event run_id info
        ("Indexed "
          <> show result.files_indexed
          <> " file(s) into "
          <> show result.chunks_created
          <> " new chunks; "
          <> show result.chunks_reused
          <> " carried forward from the previous commit")
        "info"
        (some (
          ("chunks_total", num (result.chunks_created + result.chunks_reused))
          ∷ ("chunks_created", num result.chunks_created)
          ∷ ("chunks_reused", num result.chunks_reused)
          ∷ ("embeddings_created", num result.embeddings_created)
          ∷ ("embeddings_reused", num result.embeddings_reused)
          ∷ ("model", text result.embedding_model)
          ∷ []))

  abbrev pub on_indexed : RepositorySnapshot → String ⊎ IndexResult → Step World (Unit {0})
  on_indexed snapshot (inl why) = raise (aborted retrieval_failure ("Indexing failed: " <> why))
  on_indexed snapshot (inr result) = index_found (result, snapshot)

  -- What the indexer wrote to the snapshot's row stays when it raises.
  unfoldable pub index_now :
      (checkout : List String) → RepositorySnapshot → Option ℕ → Step World (Unit {0})
  unfolding index_found
  index_now checkout snapshot previous_snapshot_id = do
    let indexed : World → (Raised ⊎ ((String ⊎ IndexResult) × RepositorySnapshot)) × World = λ w.
        let r = runtime.index_snapshot snapshot checkout previous_snapshot_id w in
        (inr (r.0, r.1), r.2)
    answer ← outside indexed
    service (change λ db. record db { snapshots = save_snapshot answer.1 db.snapshots })
    on_indexed answer.1 answer.0

  unfoldable pub index_step : Step World (Unit {0})
  unfolding index_now find_snapshot show
  index_step = do
    move_run run_id indexing_repository "Indexing source code"
    at ← on_scratch (λ s. s.checkout)
    checkout ← needed at (aborted tool_failure "Workspace is missing")
    sha ← on_scratch (λ s. s.commit_sha)
    commit_sha ← needed sha (aborted tool_failure "Workspace is missing")
    run ← the_run run_id
    found ← service (find_snapshot run.repository_id commit_sha)
    let snapshot = found.0
    write_scratch (λ s. record s { snapshot_id = some snapshot.id })
    write_run run_id (λ r. record r { snapshot_id = some snapshot.id })
    let reuse : Step World (Unit {0}) =
        note_event run_id info
          ("Reusing existing index (" <> show snapshot.chunk_count <> " chunks)") "info" none
    let index = index_now checkout snapshot found.1
    if str_eq snapshot.index_status "ready" && not (snapshot.chunk_count == 0) then reuse else index
