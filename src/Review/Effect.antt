-- ===== src/Review/Effect.antt =====
-- What a decision writes: at most one approval row, bound to the run's latest diff.
use pullsmith.Common.{
  ◌≡◌, refl, sym, ◌∙◌, ◌⊎◌, inl, inr, ℕ, String, Bool, false, Option, none, some, [], ◌∷◌, ◌++◌,
  Bool-cases, Option-cases, ◌==◌, where_rows, is_blank,
}
use pullsmith.States.{waiting_for_approval, state_eq}
use pullsmith.Db.{
  Db, AgentRun, RunDiff, Approval, Decision, approved, rejected, revision_requested, JobKind,
  Payload,
}
use pullsmith.Db.Session.{after-keeps}
use pullsmith.Events.{append_event, transition}
use pullsmith.Events.Frame.{SameTables, append_event-SameTables, transition-SameTables}
use pullsmith.Jobs.{enqueue}
use pullsmith.Review.{
  assert_awaiting, latest_diff, newest_diff, is_blocking, get_approval, decide, approve, reject,
  request_revision,
}
use pullsmith.Review.Gate.{find_approval}

abbrev pub latest_of : ℕ → Db → Option RunDiff
latest_of run_id db = newest_diff (where_rows (λ d. d.run_id == run_id) db.diffs)

pub record NewApproval (run_id : ℕ) (decision : Decision) (a b : Db) : Type 0 where
  pub row : Approval
  pub diff : RunDiff
  pub added : b.approvals ≡ a.approvals ++ row ∷ []
  pub undecided : find_approval run_id a.approvals ≡ none
  pub latest : latest_of run_id a ≡ some diff
  pub of_run : row.run_id ≡ run_id
  pub decided : row.decision ≡ decision
  pub bound : row.diff_hash ≡ diff.diff_hash
  pub clean : decision ≡ approved → diff.risk_blocking ≡ false

pub record Effect (run_id : ℕ) (decision : Decision) (a b : Db) : Type 0 where
  pub same_diffs : b.diffs ≡ a.diffs
  pub approvals : (b.approvals ≡ a.approvals) ⊎ NewApproval run_id decision a b

nothing-Effect : {run_id : ℕ} {decision : Decision} (a : Db) → Effect run_id decision a a
nothing-Effect a = record { same_diffs = refl; approvals = inl refl }

module _ (run_id : ℕ) (decision : Decision) (a : Db) where
  then_same :
      {b c : Db}
      → b.diffs ≡ c.diffs
      → b.approvals ≡ c.approvals
      → Effect run_id decision a b
      → Effect run_id decision a c
  then_same d p h = record {
    same_diffs = sym d ∙ h.same_diffs;
    approvals = elim h.approvals [
      | inl e ↦ inl (sym p ∙ e)
      | inr n ↦ inr (record {
        row = n.row;
        diff = n.diff;
        added = sym p ∙ n.added;
        undecided = n.undecided;
        latest = n.latest;
        of_run = n.of_run;
        decided = n.decided;
        bound = n.bound;
        clean = n.clean;
      })
    ];
  }

  then_tables :
      {b c : Db} → SameTables b c → Effect run_id decision a b → Effect run_id decision a c
  then_tables t h = then_same (sym t.diffs) (sym t.approvals) h

  then_enqueued :
      {b : Db} (kind : JobKind) (run : Option ℕ) (payload : Payload) (delay attempts : ℕ)
      → Effect run_id decision a b
      → Effect run_id decision a (enqueue kind run payload delay attempts b).1
  unfolding enqueue
  then_enqueued kind run payload delay attempts h = then_same refl refl h

decide-Effect :
    (run : AgentRun) (user_id : ℕ) (d : Decision) (comment : Option String) (db : Db)
    → (d ≡ approved → is_blocking (latest_of run.id db) ≡ false)
    → Effect run.id d db (decide run user_id d comment db).1
unfolding decide get_approval latest_diff
decide-Effect run user_id d comment db clean =
    elim (Option-cases (find_approval run.id db.approvals)) [
      | inr (a, found) ↦ rw found (nothing-Effect db)
      | inl undecided ↦ rw undecided (elim (Option-cases (latest_of run.id db)) [
        | inl no_diff ↦ rw no_diff (nothing-Effect db)
        | inr (diff, latest) ↦ rw latest (record {
          same_diffs = refl;
          approvals = inr (record {
            row = _;
            diff = diff;
            added = refl;
            undecided = undecided;
            latest = latest;
            of_run = refl;
            decided = refl;
            bound = refl;
            clean = λ e. rw latest at (clean e);
          });
        })
      ])
    ]

module _ (run : AgentRun) (user_id : ℕ) (db : Db) where
  abbrev waits : Bool
  waits = state_eq run.state waiting_for_approval

  pub approve-Effect :
      (comment : Option String) → Effect run.id approved db (approve run user_id comment db).1
  unfolding approve assert_awaiting latest_diff enqueue
  approve-Effect comment = elim (Bool-cases waits) [
    | inr not_now ↦ rw not_now (nothing-Effect db)
    | inl now ↦ rw now (elim (Bool-cases (is_blocking (latest_of run.id db))) [
      | inl secret ↦ rw secret (nothing-Effect db)
      | inr clean ↦ rw clean (
          after-keeps (Effect run.id approved db) (decide run user_id approved comment db) _
            (decide-Effect run user_id approved comment db (λ _. clean))
            (λ approval h.
              after-keeps (Effect run.id approved db)
                (append_event run.id _ _ _ _ _ (decide run user_id approved comment db).1) _
                (then_tables run.id approved db (append_event-SameTables _ _ _ _ _ _ _) h)
                (λ _ h'. then_enqueued run.id approved db _ _ _ _ _ h')))
    ])
  ]

  pub reject-Effect :
      (comment : Option String) → Effect run.id rejected db (reject run user_id comment db).1
  unfolding reject assert_awaiting
  reject-Effect comment = elim (Bool-cases waits) [
    | inr not_now ↦ rw not_now (nothing-Effect db)
    | inl now ↦ rw now (
        after-keeps (Effect run.id rejected db) (decide run user_id rejected comment db) _
          (decide-Effect run user_id rejected comment db (λ e. cc))
          (λ approval h.
            after-keeps (Effect run.id rejected db)
              (transition run.id _ _ _ _ _ (decide run user_id rejected comment db).1) _
              (then_tables run.id rejected db (transition-SameTables _ _ _ _ _ _ _) h)
              (λ _ h'. h')))
  ]

  pub request_revision-Effect :
      (comment : String)
      → Effect run.id revision_requested db (request_revision run user_id comment db).1
  unfolding request_revision assert_awaiting enqueue
  request_revision-Effect comment = elim (Bool-cases waits) [
    | inr not_now ↦ rw not_now (nothing-Effect db)
    | inl now ↦ rw now (elim (Bool-cases (is_blank comment)) [
      | inl blank ↦ rw blank (nothing-Effect db)
      | inr words ↦ rw words (
          after-keeps (Effect run.id revision_requested db)
            (decide run user_id revision_requested (some comment) db) _
            (decide-Effect run user_id revision_requested (some comment) db (λ e. cc))
            (λ approval h.
              after-keeps (Effect run.id revision_requested db)
                (transition run.id _ _ _ _ _
                  (decide run user_id revision_requested (some comment) db).1)
                _ (then_tables run.id revision_requested db (transition-SameTables _ _ _ _ _ _ _) h)
                (λ _ h'. then_enqueued run.id revision_requested db _ _ _ _ _ h')))
    ])
  ]
