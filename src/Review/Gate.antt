-- ===== src/Review/Gate.antt =====
-- The push gate, and what a decision on a run fixes for good.
use pullsmith.Common.{
  ◌≡◌, refl, ap, ◌↔◌, inl, inr, ℕ, String, Bool, Option, some, List, arith, eq_iff, Bool-cases,
  Option-cases, find_row, str_eq, where_rows, is_blank, ◌==◌,
}
use pullsmith.Db.{Db, AgentRun, Approval, Decision, approved, rejected, revision_requested}
use pullsmith.Db.Session.{Result, ok, raise, review_error}
use pullsmith.States.{waiting_for_approval, state_eq}
use pullsmith.Review.{
  assert_awaiting, latest_diff, newest_diff, is_blocking, get_approval, decide, approve, reject,
  request_revision, assert_push_allowed, is_approved,
}

abbrev pub find_approval : ℕ → List Approval → Option Approval
find_approval run_id approvals = find_row (λ a. a.run_id == run_id) approvals

pub assert_push_allowed-opens :
    (sha256 : String → String) (run_id : ℕ) (diff_text : String) (a : Approval) (db : Db)
    → (assert_push_allowed sha256 run_id diff_text db ≡ (ok a, db)) ↔ (
        (find_approval run_id db.approvals ≡ some a)
        × (a.decision ≡ approved)
        × (a.diff_hash ≡ sha256 diff_text))
unfolding assert_push_allowed get_approval is_approved
assert_push_allowed-opens sha256 run_id diff_text a db = (
  λ h. elim (Option-cases (find_approval run_id db.approvals)) [
    | inl e ↦ absurd (cc (rw e at h))
    | inr (b, e) ↦ ground (arith, eq_iff b.diff_hash (sha256 diff_text))
  ],
  λ (found, yes_said, same). rw found (rw yes_said (rw ((eq_iff _ _).1 same))),
)

assert_push_allowed-writes_nothing :
    (sha256 : String → String) (run_id : ℕ) (diff_text : String) (db : Db)
    → (assert_push_allowed sha256 run_id diff_text db).1 ≡ db
unfolding assert_push_allowed get_approval is_approved
assert_push_allowed-writes_nothing sha256 run_id diff_text db =
    elim (Option-cases (find_approval run_id db.approvals)) [
      | inl e ↦ rw e refl
      | inr (b, e) ↦ rw e (elim (Bool-cases (is_approved b.decision)) [
        | inr refused ↦ rw refused refl
        | inl yes_said ↦ rw yes_said (elim (Bool-cases (str_eq b.diff_hash (sha256 diff_text))) [
          | inl same ↦ rw same refl
          | inr other ↦ rw other refl
        ])
      ])
    ]

-- The gate opens exactly if the run's decision is an approval of a text with the pushed hash. And
-- it writes nothing, whether it opens or refuses, for whatever reason it refuses.
pub assert_push_allowed_iff :
    (sha256 : String → String) (run_id : ℕ) (diff_text : String) (a : Approval) (db : Db)
    → (let answer = assert_push_allowed sha256 run_id diff_text db in
        ((answer.0 ≡ ok a) ↔ (
          (find_approval run_id db.approvals ≡ some a)
          × (a.decision ≡ approved)
          × (a.diff_hash ≡ sha256 diff_text)))
        × (answer.1 ≡ db))
assert_push_allowed_iff sha256 run_id diff_text a db =
    let answer = assert_push_allowed sha256 run_id diff_text db in
    let kept = assert_push_allowed-writes_nothing sha256 run_id diff_text db in
    let opens = assert_push_allowed-opens sha256 run_id diff_text a db in
    (
      (
        λ h. opens.0 (let e : answer ≡ (ok a, db) = cc in e),
        λ approves. ap (λ r. r.0) (opens.1 approves),
      ),
      kept,
    )

-- A run that has a decision.
abbrev pub Decided : ℕ → Db → Type 0
Decided run_id db = (a : Approval) × (find_approval run_id db.approvals ≡ some a)

-- What the three decisions answer once there is one: an error, and no change.
abbrev pub Refused : {A : Type 0} → Result A × Db → Db → Type 0
Refused r db = (why : String) × (r ≡ (raise (review_error why), db))

decide-Refused :
    (run : AgentRun) (user_id : ℕ) (d : Decision) (comment : Option String) (db : Db)
    → Decided run.id db
    → decide run user_id d comment db
      ≡ (raise (review_error "This run has already been decided"), db)
unfolding decide get_approval
decide-Refused run user_id d comment db (a, found) = rw found

module _ (run : AgentRun) (user_id : ℕ) (db : Db) (decided : Decided run.id db) where
  abbrev blocked : Bool
  blocked = is_blocking (newest_diff (where_rows (λ d. d.run_id == run.id) db.diffs))

  abbrev waits : Bool
  waits = state_eq run.state waiting_for_approval

  pub approve-Refused : (comment : Option String) → Refused (approve run user_id comment db) db
  unfolding approve assert_awaiting latest_diff
  approve-Refused comment = elim (Bool-cases waits) [
    | inr not_now ↦ rw not_now (_, refl)
    | inl now ↦ rw now (elim (Bool-cases blocked) [
      | inl secret ↦ rw secret (_, refl)
      | inr clean ↦ rw clean (rw (decide-Refused run user_id approved comment db decided) (_, refl))
    ])
  ]

  pub reject-Refused : (comment : Option String) → Refused (reject run user_id comment db) db
  unfolding reject assert_awaiting
  reject-Refused comment = elim (Bool-cases waits) [
    | inr not_now ↦ rw not_now (_, refl)
    | inl now ↦ rw now (rw (decide-Refused run user_id rejected comment db decided) (_, refl))
  ]

  pub request_revision-Refused :
      (comment : String) → Refused (request_revision run user_id comment db) db
  unfolding request_revision assert_awaiting
  request_revision-Refused comment = elim (Bool-cases waits) [
    | inr not_now ↦ rw not_now (_, refl)
    | inl now ↦ rw now (elim (Bool-cases (is_blank comment)) [
      | inl blank ↦ rw blank (_, refl)
      | inr words ↦
          rw words
            (rw (decide-Refused run user_id revision_requested (some comment) db decided) (_, refl))
    ])
  ]
