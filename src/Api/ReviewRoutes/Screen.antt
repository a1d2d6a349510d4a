-- ===== src/Api/ReviewRoutes/Screen.antt =====
-- The review screen's `can_approve` against the approval itself.
use pullsmith.Common.{
  ◌≡◌, refl, sym, ap, ◌∙◌, subst, ◌↔◌, inl, inr, ℕ, String, Bool, true, false, Option, none, some,
  List, [], ◌∷◌, not, ◌&&◌, arith, Bool-cases, Option-cases, ◌==◌, ==_iff, find_row, is_some,
}
use pullsmith.States.{RunState, waiting_for_approval, state_eq}
use pullsmith.Db.{Db, AgentRun, RunDiff, Approval}
use pullsmith.Db.Session.{Result, ok, raise, commit_or_rollback}
use pullsmith.Events.{find_run, append_event, append_event_for, load_run_for_update}
use pullsmith.Jobs.{enqueue}
use pullsmith.Runs.{get_run}
use pullsmith.Review.{
  approve, assert_awaiting, latest_diff, latest_plan, get_approval, decide, is_blocking,
}
use pullsmith.Review.Effect.{latest_of}
use pullsmith.Review.Gate.{find_approval}
use pullsmith.Api.{with_error, review_error_409}
use pullsmith.Api.ReviewRoutes.{owned_run, ReviewBundle, get_review_bundle, approve_run}

abbrev Returns : {A : Type 0} → Result A × Db → Type 0
Returns {A} r = (a : A) × (after : Db) × (r ≡ (ok a, after))

-- What the approval asks for.
record MayApprove (run : AgentRun) (db : Db) : Type 0 where
  waits : state_eq run.state waiting_for_approval ≡ true
  undecided : find_approval run.id db.approvals ≡ none
  diff : RunDiff
  latest : latest_of run.id db ≡ some diff
  clean : diff.risk_blocking ≡ false

module _ (run : AgentRun) (user_id : ℕ) (comment : Option String) (db : Db) where
  approve-Returns :
      (r : AgentRun)
      → find_run run.id db.runs ≡ some r
      → MayApprove run db
      → Returns (approve run user_id comment db)
  unfolding approve assert_awaiting latest_diff decide get_approval append_event load_run_for_update
      append_event_for enqueue
  approve-Returns r found may =
      rw may.waits
        (rw may.latest (rw may.clean (rw may.undecided (rw may.latest (rw found (_, _, refl))))))

  approve_needs :
      (a : Approval) (after : Db)
      → approve run user_id comment db ≡ (ok a, after)
      → MayApprove run db
  unfolding approve assert_awaiting latest_diff decide get_approval
  approve_needs a after e = elim (Bool-cases (state_eq run.state waiting_for_approval)) [
    | inr not_now ↦ absurd (cc (rw not_now at e))
    | inl now ↦ elim (Option-cases (latest_of run.id db)) [
      | inl no_diff ↦ elim (Option-cases (find_approval run.id db.approvals)) [
        | inl undecided ↦ absurd (cc (rw (now, no_diff, undecided) at e))
        | inr (b, decided) ↦ absurd (cc (rw (now, no_diff, decided) at e))
      ]
      | inr (diff, latest) ↦ elim (Bool-cases diff.risk_blocking) [
        | inl secret ↦ absurd (cc (rw (now, latest, secret) at e))
        | inr clean ↦ elim (Option-cases (find_approval run.id db.approvals)) [
          | inr (b, decided) ↦ absurd (cc (rw (now, latest, clean, decided) at e))
          | inl undecided ↦ record {
            waits = now;
            undecided = undecided;
            diff = diff;
            latest = latest;
            clean = clean;
          }
        ]
      ]
    ]
  ]

-- A row that a test and the key pass is found by the key.
found_by_key :
    (run_id user_id : ℕ) (runs : List AgentRun) (run : AgentRun)
    → find_row (λ r. (r.id == run_id) && (r.user_id == user_id)) runs ≡ some run
    → (run.id ≡ run_id) × ((r : AgentRun) × (find_run run_id runs ≡ some r))
found_by_key run_id user_id [] run e = cc
found_by_key run_id user_id (x ∷ xs) run e = elim (Bool-cases (x.id == run_id)) [
  | inr other ↦
      (let (same, (r, found)) = found_by_key run_id user_id xs run (rw other at e) in
        (same, (r, rw other found)))
  | inl this ↦ (
    elim (Bool-cases (x.user_id == user_id)) [
      | inl mine ↦
          (let s : some x ≡ some run = rw (this, mine) at e in
            subst {A = AgentRun} (λ y. y.id ≡ run_id) (let q : x ≡ run = cc in q)
              ((==_iff _ _).0 this))
      | inr theirs ↦ (found_by_key run_id user_id xs run (rw (this, theirs) at e)).0
    ],
    (x, rw this refl),
  )
]

can_approve_of : (run : AgentRun) (db : Db) → Bool
can_approve_of run db =
    is_some (latest_of run.id db)
    && (not (is_blocking (latest_of run.id db))
        && not (is_some (find_approval run.id db.approvals)))

MayApprove-can_approve :
    (run : AgentRun) (db : Db)
    → (state_eq run.state waiting_for_approval ≡ true)
    → can_approve_of run db ≡ true
    → MayApprove run db
unfolding can_approve_of
MayApprove-can_approve run db now can = elim (Option-cases (latest_of run.id db)) [
  | inl no_diff ↦ absurd (cc (rw no_diff at can))
  | inr (diff, latest) ↦ elim (Option-cases (find_approval run.id db.approvals)) [
    | inr (b, decided) ↦
        absurd (let no : diff.risk_blocking ≡ diff.risk_blocking = refl in ground arith)
    | inl undecided ↦ record {
      waits = now;
      undecided = undecided;
      diff = diff;
      latest = latest;
      clean = ground arith;
    }
  ]
]

MayApprove-unlocks : (run : AgentRun) (db : Db) → MayApprove run db → can_approve_of run db ≡ true
unfolding can_approve_of
MayApprove-unlocks run db may = rw (may.latest, may.undecided, may.clean)

waits_iff : (s : RunState) → (state_eq s waiting_for_approval ≡ true) ↔ (s ≡ waiting_for_approval)
unfolding state_eq
waits_iff s = (λ h. ground arith, λ h. rw h)

ok_eq : {A : Type 0} {a b : A} {d e : Db} → ◌≡◌ {A = Result A × Db} (ok a, d) (ok b, e) → a ≡ b
ok_eq h = cc

module _ (run_id user_id : ℕ) (run : AgentRun) (db : Db)
    (found : find_row (λ r. (r.id == run_id) && (r.user_id == user_id)) db.runs ≡ some run) where
  bundle_fields :
      (bundle : ReviewBundle)
      → get_review_bundle run_id user_id db ≡ (ok bundle, db)
      → (run.state ≡ bundle.state) × (can_approve_of run db ≡ bundle.can_approve)
  unfolding get_review_bundle owned_run get_run latest_plan latest_diff get_approval can_approve_of
  bundle_fields bundle shown =
      let same = (found_by_key run_id user_id db.runs run found).0 in
      let fields = ok_eq (rw found at shown) in
      (ap (λ b. b.state) fields, rw same (ap (λ b. b.can_approve) fields))

  route-Returns :
      (comment : Option String)
      → Returns (approve run user_id comment db)
      → Returns (approve_run run_id user_id comment db)
  unfolding approve_run owned_run get_run
  route-Returns comment (a, after, e) = rw found (rw e (a, after, refl))

  committed :
      (r : Result Approval × Db) (a : Approval) (after : Db)
      → commit_or_rollback (with_error review_error_409 r.0, r.1) db ≡ (ok a, after)
      → r ≡ (ok a, after)
  committed (ok b, mid) a after e = e
  committed (raise x, mid) a after e = cc

  route_needs :
      (comment : Option String)
      → Returns (approve_run run_id user_id comment db)
      → Returns (approve run user_id comment db)
  unfolding approve_run owned_run get_run
  route_needs comment (a, after, e) = (a, after, committed _ a after (rw found at e))

-- A reviewer's approval succeeds exactly if the run waits for its approval and the screen says
-- `can_approve`.
pub approve_run_iff :
    (run_id user_id : ℕ) (comment : Option String) (db : Db) (bundle : ReviewBundle)
    → get_review_bundle run_id user_id db ≡ (ok bundle, db)
    → ((bundle.state ≡ waiting_for_approval) × (bundle.can_approve ≡ true))
      ↔ ((a : Approval) × (after : Db) × (approve_run run_id user_id comment db ≡ (ok a, after)))
unfolding get_review_bundle owned_run get_run
approve_run_iff run_id user_id comment db bundle shown =
    elim (Option-cases (find_row (λ r. (r.id == run_id) && (r.user_id == user_id)) db.runs)) [
      | inl gone ↦ absurd (cc (rw gone at shown))
      | inr (run, found) ↦
          let (same, (r, keyed)) = found_by_key run_id user_id db.runs run found in
          let (state, can) = bundle_fields run_id user_id run db found bundle shown in
          (
            λ (waits, may). route-Returns run_id user_id run db found comment (
                approve-Returns run user_id comment db r (rw same keyed)
                  (MayApprove-can_approve run db ((waits_iff _).1 (state ∙ waits)) (can ∙ may))),
            λ done.
                let (a, after, e) = route_needs run_id user_id run db found comment done in
                let needs = approve_needs run user_id comment db a after e in
                (
                  sym state ∙ (waits_iff _).0 needs.waits,
                  sym can ∙ MayApprove-unlocks run db needs,
                ),
          )
    ]
