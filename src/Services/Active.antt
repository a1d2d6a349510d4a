-- ===== src/Services/Active.antt =====
-- services/run_manager.py over any sequence of service calls: an issue has one active run at most.
pub mod Rows
use pullsmith.Common.{
  ◌≡◌, refl, sym, subst, inl, inr, ℕ, ◌+◌, ◌≤◌, ◌<◌, String, true, false, not, ◌&&◌, Option, none,
  some, List, [], ◌∷◌, ◌++◌, arith, Bool-cases, Option-cases, ◌==◌, ==_iff, All, All-append, length,
  length-append, where_rows, where_rows-append, find_row,
}
use pullsmith.States.{RunState, FailureCategory, can_transition, is_terminal}
use pullsmith.States.Gates.{is_terminal-can_transition}
use pullsmith.Db.{Db, AgentRun, EventKind, Payload}
use pullsmith.Events.{find_run, save_run, append_event, append_event_for, transition, enter_state}
use pullsmith.Runs.{is_active_for}
use pullsmith.Events.Timeline.{find_run_self}
use pullsmith.Services.{Steps}
use pullsmith.Services.Aside.{All-aside, Distinct-aside, active_count-aside}
use pullsmith.Services.Rules.{MoreRules, Steps-keep}
use pullsmith.Services.Active.Rows.{
  active_count, Distinct, save_run-All, save_run-Distinct, active_count-save_run, below_more,
  below_others, Distinct-append, none_active,
}

record IsKeyed (db : Db) : Type 0 where
  below : All (λ r. r.id < db.unused_id) db.runs
  distinct : Distinct db.runs
  single : (issue_id : ℕ) → active_count issue_id db.runs ≤ 1

other_issue :
    (run : AgentRun) (issue_id : ℕ)
    → (run.issue_id == issue_id) ≡ false
    → is_active_for issue_id run ≡ false
unfolding is_active_for
other_issue run issue_id e = rw e

saved-IsKeyed :
    (run old : AgentRun) (db : Db) (n : ℕ)
    → find_run run.id db.runs ≡ some old
    → ((issue_id : ℕ) → is_active_for issue_id run ≡ true → is_active_for issue_id old ≡ true)
    → (below : All (λ r. r.id < n) db.runs) → (after : Db) → after.unused_id ≡ n
    → after.runs ≡ save_run run db.runs
    → IsKeyed db
    → IsKeyed after
saved-IsKeyed run old db n found only below after fresh saved h = record {
  below = rw (fresh, saved) (save_run-All run (λ i. i < n) db.runs below);
  distinct = rw saved (save_run-Distinct run db.runs h.distinct);
  single = λ issue_id. rw saved (
      omega (
        arith,
        active_count-save_run run old issue_id db.runs h.distinct found (only issue_id),
        h.single issue_id,
      ));
}

open_before : (s t : RunState) → can_transition s t ≡ true → is_terminal s ≡ false
open_before s t legal = elim (Bool-cases (is_terminal s)) [
  | inr f ↦ f
  | inl e ↦ (let stuck = (is_terminal-can_transition s t).0 e in cc)
]

active_unless_terminal :
    (run : AgentRun) (issue_id : ℕ)
    → is_active_for issue_id run ≡ (run.issue_id == issue_id) && not (is_terminal run.state)
unfolding is_active_for is_terminal
active_unless_terminal run issue_id = refl

same_activity :
    (run : AgentRun) (issue_id : ℕ)
    → is_active_for issue_id (record run { last_event_sequence = run.last_event_sequence + 1 })
      ≡ true
    → is_active_for issue_id run ≡ true
unfolding is_active_for
same_activity run issue_id h = h

-- A run that is active after a legal move was so before.
move_active :
    (run : AgentRun) (target : RunState) (category : Option FailureCategory)
    (detail : Option String) (now issue_id : ℕ)
    → can_transition run.state target ≡ true
    → is_active_for issue_id (enter_state run target category detail now) ≡ true
    → is_active_for issue_id run ≡ true
unfolding enter_state
move_active run target category detail now issue_id legal active =
    let was = open_before run.state target legal in
    let new_one = active_unless_terminal (enter_state run target category detail now) issue_id in
    let old_one = active_unless_terminal run issue_id in
    elim (Bool-cases (run.issue_id == issue_id)) [
      | inl e ↦ rw (old_one, e, was)
      | inr e ↦ absurd (
          let no : is_active_for issue_id (enter_state run target category detail now) ≡ false =
            rw (new_one, e) in
          cc)
    ]

append_event-IsKeyed :
    (run_id : ℕ) (kind : EventKind) (message level : String) (payload : Payload) (db : Db)
    → IsKeyed db
    → IsKeyed (append_event run_id kind message level none payload db).1
unfolding append_event append_event_for
append_event-IsKeyed run_id kind message level payload db h =
    elim (Option-cases (find_run run_id db.runs)) [
      | inl e ↦ rw e h
      | inr (run, e) ↦ rw e (
          saved-IsKeyed (record run { last_event_sequence = run.last_event_sequence + 1 }) run db
            (db.unused_id + 1) (find_run_self run_id run db.runs e)
            (λ issue_id. same_activity run issue_id) (below_more db.unused_id db.runs h.below) _
            refl refl h)
    ]

transition-IsKeyed :
    (run_id : ℕ) (target : RunState) (message : Option String) (category : Option FailureCategory)
    (detail : Option String) (payload : Payload) (db : Db)
    → IsKeyed db
    → IsKeyed (transition run_id target message category detail payload db).1
unfolding transition append_event_for
transition-IsKeyed run_id target message category detail payload db h =
    elim (Option-cases (find_run run_id db.runs)) [
      | inl e ↦ rw e h
      | inr (run, e) ↦ rw e (elim (Bool-cases (can_transition run.state target)) [
        | inl legal ↦ rw legal (
            saved-IsKeyed
              (record (enter_state run target category detail db.now) {
                last_event_sequence = run.last_event_sequence + 1;
              })
              run db (db.unused_id + 1) (find_run_self run_id run db.runs e)
              (λ issue_id a.
                move_active run target category detail db.now issue_id legal
                  (same_activity (enter_state run target category detail db.now) issue_id a))
              (below_more db.unused_id db.runs h.below) _ refl refl h)
        | inr illegal ↦ rw illegal h
      ])
    ]

same_keys : (a b : Db) → b.runs ≡ a.runs → b.unused_id ≡ a.unused_id → IsKeyed a → IsKeyed b
same_keys a b r u h = record {
  below = rw (r, u) h.below;
  distinct = rw r h.distinct;
  single = λ issue_id. rw r (h.single issue_id);
}

new_run-IsKeyed :
    (db : Db) (run : AgentRun)
    → run.id ≡ db.unused_id
    → find_row (is_active_for run.issue_id) db.runs ≡ none
    → IsKeyed db
    → IsKeyed (record db { unused_id = db.unused_id + 1; runs = db.runs ++ run ∷ [] })
new_run-IsKeyed db run keyed free h = record {
  below =
      All-append (λ r. r.id < db.unused_id + 1) db.runs (run ∷ [])
        (below_more db.unused_id db.runs h.below) (omega (arith, keyed), tt);
  distinct = Distinct-append run db.runs h.distinct (
      subst (λ i. All (λ r. ¬ (i ≡ r.id)) db.runs) (sym keyed)
        (below_others db.unused_id db.runs h.below));
  single = λ issue_id.
      rw (where_rows-append, length-append)
        (elim (Bool-cases (run.issue_id == issue_id)) [
          | inl e ↦
              let free_here : active_count issue_id db.runs ≡ 0 =
                none_active issue_id db.runs (
                  subst (λ i. find_row (is_active_for i) db.runs ≡ none) ((==_iff _ _).0 e) free) in
              elim (Bool-cases (is_active_for issue_id run)) [
                | inl t ↦ rw t (omega (arith, free_here))
                | inr f ↦ rw f (omega (arith, free_here))
              ]
          | inr e ↦ rw (other_issue run issue_id e) (omega (arith, h.single issue_id))
        ]);
}

key_rules : MoreRules IsKeyed
key_rules = record {
  rules = record {
    with_id = λ db h. record {
      below = below_more db.unused_id db.runs h.below;
      distinct = h.distinct;
      single = h.single;
    };
    with_jobs = λ db rows h. same_keys db _ refl refl h;
    with_pull_requests = λ db rows h. same_keys db _ refl refl h;
    with_run = λ db run keyed zeroed started free h. new_run-IsKeyed db run keyed free h;
    appended = append_event-IsKeyed;
    moved = transition-IsKeyed;
  };
  with_plans = λ db rows h. same_keys db _ refl refl h;
  with_diffs = λ db rows h. same_keys db _ refl refl h;
  with_approval = λ db row h. same_keys db _ refl refl h;
  with_snapshots = λ db rows h. same_keys db _ refl refl h;
  with_aside = λ db run_id f aside h. record {
    below = All-aside run_id f aside (λ i. i < db.unused_id) db.runs h.below;
    distinct = Distinct-aside run_id f aside db.runs h.distinct;
    single =
        λ issue_id. rw (active_count-aside run_id f aside issue_id db.runs) (h.single issue_id);
  };
  with_time = λ db now h. same_keys db _ refl refl h;
}

-- From a database without runs, and after any service calls in any order, an issue has at most one
-- run that is not completed, failed or cancelled.
pub Steps-active_count :
    (sha256 : String → String) {a b : Db}
    → Steps sha256 a b
    → a.runs ≡ []
    → (issue_id : ℕ) → active_count issue_id b.runs ≤ 1
Steps-active_count sha256 {a} steps no_runs issue_id =
    let start : IsKeyed a = record {
      below = rw no_runs tt;
      distinct = rw no_runs tt;
      single = λ issue_id. rw no_runs (omega arith);
    } in
    let end = Steps-keep IsKeyed key_rules sha256 steps start in end.single issue_id
