-- ===== src/Services/Decided.antt =====
-- services/review_service.py over any sequence of service calls: a decision is final.
use pullsmith.Common.{◌≡◌, ℕ, String, none, some, find_row-append}
use pullsmith.Db.{Db, AgentRun, Approval, approved}
use pullsmith.Db.Session.{ok}
use pullsmith.Events.Frame.{append_event-SameTables, transition-SameTables}
use pullsmith.Review.{approve, reject, request_revision, assert_push_allowed}
use pullsmith.Review.Gate.{
  find_approval, Refused, approve-Refused, reject-Refused, request_revision-Refused,
  assert_push_allowed-opens,
}
use pullsmith.Services.{Steps}
use pullsmith.Services.Rules.{MoreRules, Steps-keep}

abbrev IsDecision : ℕ → Approval → Db → Type 0
IsDecision run_id a db = find_approval run_id db.approvals ≡ some a

IsDecision-rules : (run_id : ℕ) (a : Approval) → MoreRules (IsDecision run_id a)
IsDecision-rules run_id a = record {
  rules = record {
    with_id = λ db h. h;
    with_jobs = λ db rows h. h;
    with_pull_requests = λ db rows h. h;
    with_run = λ db run keyed zeroed started free h. h;
    appended = λ r k m l p db h. rw (append_event-SameTables r k m l none p db).approvals h;
    moved = λ r t m c d p db h. rw (transition-SameTables r t m c d p db).approvals h;
  };
  with_plans = λ db rows h. h;
  with_diffs = λ db rows h. h;
  with_approval = λ db row h. simp (find_row-append, h);
  with_snapshots = λ db rows h. h;
  with_aside = λ db run_id f aside h. h;
  with_time = λ db now h. h;
}

module _ (sha256 : String → String) (run_id : ℕ) (first : Approval) {a b : Db}
    (steps : Steps sha256 a b) (decided : find_approval run_id a.approvals ≡ some first) where
  Steps-decision : find_approval run_id b.approvals ≡ some first
  Steps-decision =
      Steps-keep (IsDecision run_id first) (IsDecision-rules run_id first) sha256 steps decided

-- Once a run has a decision, then after any service calls, and in whatever state the run is by
-- then, all three decisions on it are refused and write nothing.
pub Steps-Refused :
    (sha256 : String → String) (run : AgentRun) (first : Approval) {a b : Db}
    → Steps sha256 a b
    → find_approval run.id a.approvals ≡ some first
    → (user_id : ℕ) (comment : String)
    → Refused (approve run user_id (some comment) b) b
      × Refused (reject run user_id (some comment) b) b
      × Refused (request_revision run user_id comment b) b
Steps-Refused sha256 run first steps decided user_id comment =
    let still = Steps-decision sha256 run.id first steps decided in
    (
      approve-Refused run user_id _ (first, still) (some comment),
      reject-Refused run user_id _ (first, still) (some comment),
      request_revision-Refused run user_id _ (first, still) comment,
    )

-- A run whose first decision is not an approval, a request for a revision included, never passes
-- the push gate: not after any service calls, and not with any text.
pub Steps-never_pushed :
    (sha256 : String → String) (run_id : ℕ) (first : Approval) {a b : Db}
    → Steps sha256 a b
    → find_approval run_id a.approvals ≡ some first
    → ¬ (first.decision ≡ approved)
    → (diff_text : String) (given : Approval)
    → ¬ (assert_push_allowed sha256 run_id diff_text b ≡ (ok given, b))
Steps-never_pushed sha256 run_id first steps decided not_approved diff_text given pushed =
    let still = Steps-decision sha256 run_id first steps decided in
    let (found, said, same) =
      (assert_push_allowed-opens sha256 run_id diff_text given _).0 pushed in
    not_approved (cc)
