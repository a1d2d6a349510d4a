-- ===== src/Services/Rules.antt =====
-- A property of the database that every kind of service call keeps is kept by every sequence of
-- them.
use pullsmith.Common.{
  ℕ, ◌+◌, String, Bool, Option, some, List, [], ◌∷◌, ◌++◌, inl, inr, Bool-cases, Option-cases,
  is_blank, refl, none, update_rows, ◌==◌,
}
use pullsmith.States.{waiting_for_approval, state_eq}
use pullsmith.Db.{
  Db, AgentRun, RepositorySnapshot, AgentPlan, RunDiff, Approval, Decision, approved, rejected,
  revision_requested,
}
use pullsmith.Db.Session.{after-keeps}
use pullsmith.Events.{append_event, transition}
use pullsmith.Jobs.{enqueue, heartbeat, mark_succeeded, reclaim_expired}
use pullsmith.Review.{
  store_plan, store_diff, assert_awaiting, latest_diff, is_blocking, get_approval, decide, approve,
  reject, request_revision,
}
use pullsmith.Review.Effect.{latest_of}
use pullsmith.Review.Gate.{find_approval}
use pullsmith.Services.{
  Step, run_created, run_cancelled, event_appended, moved, job_enqueued, job_claimed, job_beat,
  job_succeeded, job_failed, jobs_reclaimed, plan_stored, diff_stored, approved_by, rejected_by,
  sent_back, pull_request_recorded, waited, with_snapshot, with_work, snapshot_found,
  snapshot_saved, snapshot_noted, work_noted, Steps, here, next,
}
use pullsmith.Services.Aside.{IsAside}
use pullsmith.Orchestrator.Snapshots.{find_snapshot, take_snapshot, known_snapshot}
use pullsmith.Services.Keeps.{
  Rules, enqueue-keeps, claim_next-keeps, mark_failed-keeps, cancel_run-keeps, create_run-keeps,
  record_pull_request-keeps,
}

snapshot-IsAside : (snapshot_id : ℕ) → IsAside (with_snapshot snapshot_id)
snapshot-IsAside snapshot_id = record {
  same_id = λ r. refl;
  same_issue = λ r. refl;
  same_state = λ r. refl;
  same_sequence = λ r. refl;
}

work-IsAside : (iteration tool_call_count : ℕ) → IsAside (with_work iteration tool_call_count)
work-IsAside iteration tool_call_count = record {
  same_id = λ r. refl;
  same_issue = λ r. refl;
  same_state = λ r. refl;
  same_sequence = λ r. refl;
}

pub record MoreRules (P : Db → Type 0) : Type 0 where
  pub rules : Rules P
  pub with_plans : (db : Db) (rows : List AgentPlan) → P db → P (record db { plans = rows })
  pub with_diffs : (db : Db) (rows : List RunDiff) → P db → P (record db { diffs = rows })
  pub with_approval :
      (db : Db) (row : Approval) → P db → P (record db { approvals = db.approvals ++ row ∷ [] })
  pub with_snapshots :
      (db : Db) (rows : List RepositorySnapshot) → P db → P (record db { snapshots = rows })
  pub with_aside :
      (db : Db) (run_id : ℕ) (f : AgentRun → AgentRun)
      → IsAside f
      → P db
      → P (record db { runs = update_rows (λ r. r.id == run_id) f db.runs })
  pub with_time : (db : Db) (now : ℕ) → P db → P (record db { now = now })

module _ (P : Db → Type 0) (more : MoreRules P) where
  decide-keeps :
      (run : AgentRun) (user_id : ℕ) (d : Decision) (comment : Option String) (db : Db)
      → P db
      → P (decide run user_id d comment db).1
  unfolding decide get_approval latest_diff
  decide-keeps run user_id d comment db h =
      elim (Option-cases (find_approval run.id db.approvals)) [
        | inr (a, found) ↦ rw found h
        | inl undecided ↦ rw undecided (elim (Option-cases (latest_of run.id db)) [
          | inl no_diff ↦ rw no_diff h
          | inr (diff, latest) ↦ rw latest (
              more.with_approval (record db { unused_id = db.unused_id + 1 }) _
                (more.rules.with_id db h))
        ])
      ]

  module _ (run : AgentRun) (user_id : ℕ) (db : Db) where
    abbrev waits : Bool
    waits = state_eq run.state waiting_for_approval

    approve-keeps : (comment : Option String) → P db → P (approve run user_id comment db).1
    unfolding approve assert_awaiting latest_diff enqueue
    approve-keeps comment h = elim (Bool-cases waits) [
      | inr not_now ↦ rw not_now h
      | inl now ↦ rw now (elim (Bool-cases (is_blocking (latest_of run.id db))) [
        | inl secret ↦ rw secret h
        | inr clean ↦ rw clean (
            after-keeps P (decide run user_id approved comment db) _
              (decide-keeps run user_id approved comment db h)
              (λ approval h.
                after-keeps P
                  (append_event run.id _ _ _ _ _ (decide run user_id approved comment db).1) _
                  (more.rules.appended _ _ _ _ _ _ h)
                  (λ _ h'. enqueue-keeps P more.rules _ _ _ _ _ _ h')))
      ])
    ]

    reject-keeps : (comment : Option String) → P db → P (reject run user_id comment db).1
    unfolding reject assert_awaiting
    reject-keeps comment h = elim (Bool-cases waits) [
      | inr not_now ↦ rw not_now h
      | inl now ↦ rw now (
          after-keeps P (decide run user_id rejected comment db) _
            (decide-keeps run user_id rejected comment db h)
            (λ approval h.
              after-keeps P (transition run.id _ _ _ _ _ (decide run user_id rejected comment db).1)
                _ (more.rules.moved _ _ _ _ _ _ _ h) (λ _ h'. h')))
    ]

    request_revision-keeps :
        (comment : String) → P db → P (request_revision run user_id comment db).1
    unfolding request_revision assert_awaiting enqueue
    request_revision-keeps comment h = elim (Bool-cases waits) [
      | inr not_now ↦ rw not_now h
      | inl now ↦ rw now (elim (Bool-cases (is_blank comment)) [
        | inl blank ↦ rw blank h
        | inr words ↦ rw words (
            after-keeps P (decide run user_id revision_requested (some comment) db) _
              (decide-keeps run user_id revision_requested (some comment) db h)
              (λ approval h.
                after-keeps P
                  (transition run.id _ _ _ _ _
                    (decide run user_id revision_requested (some comment) db).1)
                  _ (more.rules.moved _ _ _ _ _ _ _ h)
                  (λ _ h'. enqueue-keeps P more.rules _ _ _ _ _ _ h')))
      ])
    ]

  take_snapshot-keeps :
      (repository_id : ℕ) (commit_sha : String) (found : Option RepositorySnapshot) (db : Db)
      → P db
      → P (take_snapshot repository_id commit_sha found db).1
  unfolding take_snapshot
  take_snapshot-keeps repository_id commit_sha none db h =
      more.with_snapshots (record db { unused_id = db.unused_id + 1 }) _ (more.rules.with_id db h)
  take_snapshot-keeps repository_id commit_sha (some snapshot) db h = h

  module _ (sha256 : String → String) where
    Step-keeps : {a b : Db} → Step sha256 a b → P a → P b
    unfolding store_plan store_diff heartbeat mark_succeeded reclaim_expired find_snapshot
    Step-keeps (run_created u r i m p) h = create_run-keeps P more.rules u r i m p _ h
    Step-keeps (run_cancelled r u) h = cancel_run-keeps P more.rules r u _ h
    Step-keeps (event_appended r k m l p) h = more.rules.appended r k m l p _ h
    Step-keeps (moved r t m c d p) h = more.rules.moved r t m c d p _ h
    Step-keeps (job_enqueued k r p d n) h = enqueue-keeps P more.rules k r p d n _ h
    Step-keeps (job_claimed s w l) h = claim_next-keeps P more.rules s w l _ h
    Step-keeps (job_beat j l) h = more.rules.with_jobs _ _ h
    Step-keeps (job_succeeded j) h = more.rules.with_jobs _ _ h
    Step-keeps (job_failed j e d) h = mark_failed-keeps P more.rules j e d _ h
    Step-keeps jobs_reclaimed h = more.rules.with_jobs _ _ h
    Step-keeps (plan_stored {db} r p) h =
        more.with_plans (record db { unused_id = db.unused_id + 1 }) _ (more.rules.with_id _ h)
    Step-keeps (diff_stored {db} r c k v) h =
        more.with_diffs (record db { unused_id = db.unused_id + 1 }) _ (more.rules.with_id _ h)
    Step-keeps (approved_by run u c) h = approve-keeps run u _ c h
    Step-keeps (rejected_by run u c) h = reject-keeps run u _ c h
    Step-keeps (sent_back run u c) h = request_revision-keeps run u _ c h
    Step-keeps (pull_request_recorded run r a b t n u s) h =
        record_pull_request-keeps P more.rules run r a b t n u s _ h
    Step-keeps (snapshot_found {db} r c) h = take_snapshot-keeps r c (known_snapshot r c db) db h
    Step-keeps (snapshot_saved s) h = more.with_snapshots _ _ h
    Step-keeps (snapshot_noted r s) h = more.with_aside _ r (with_snapshot s) (snapshot-IsAside s) h
    Step-keeps (work_noted r i t) h = more.with_aside _ r (with_work i t) (work-IsAside i t) h
    Step-keeps (waited s) h = more.with_time _ _ h

    pub Steps-keep : {a b : Db} → Steps sha256 a b → P a → P b
    Steps-keep here h = h
    Steps-keep (next steps step) h = Step-keeps step (Steps-keep steps h)
