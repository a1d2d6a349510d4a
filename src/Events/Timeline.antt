-- ===== src/Events/Timeline.antt =====
-- The two invariants of services/event_service.py: a run's events are numbered without a gap, and
-- the timeline's last entry agrees with the state of the run.
use mathlib.Core.List.{map-append, append-nil}
use native.Mathlib.Numerals.{add-one}
use pullsmith.Common.{
  ◌≡◌, refl, subst, sym, Option-cases, inl, inr, ℕ, zero, suc, String, true, Option, none, some,
  List, [], ◌∷◌, ◌++◌, map, arith, ◌==◌, ==_iff, Bool-cases, if◌then◌else◌, where_rows, first_some,
  or_else, where_rows-append,
}
use pullsmith.States.{RunState, FailureCategory, can_transition}
use pullsmith.Db.{Db, AgentRun, AgentEvent, EventKind, state_changed, Payload}
use pullsmith.Events.{
  find_run, save_run, append_event_for, append_event, enter_state, transition, level_of,
}

-- 1, 2, …, n
abbrev pub up_to : ℕ → List ℕ
up_to zero = []
up_to (suc n) = up_to n ++ suc n ∷ []

abbrev pub events_of : ℕ → List AgentEvent → List AgentEvent
events_of run_id events = where_rows (λ e. e.run_id == run_id) events

abbrev pub sequences : List AgentEvent → List ℕ
sequences events = map (λ e. e.sequence) events

abbrev latest_state : List AgentEvent → Option RunState
latest_state [] = none
latest_state (e ∷ es) = first_some (latest_state es) (some e.state)

abbrev pub last_sequence : Option AgentRun → ℕ
last_sequence none = 0
last_sequence (some run) = run.last_event_sequence

-- The state that the timeline must end in, once it has an event.
abbrev pub shown_state : Option AgentRun → Option RunState
shown_state none = none
shown_state (some run) = if run.last_event_sequence == 0 then none else some run.state

pub record IsTimeline (db : Db) : Type 0 where
  pub numbered :
      (id : ℕ) → sequences (events_of id db.events) ≡ up_to (last_sequence (find_run id db.runs))
  pub agrees : (id : ℕ) → latest_state (events_of id db.events) ≡ shown_state (find_run id db.runs)

abbrev replaced : AgentRun → Option AgentRun → Option AgentRun
replaced run none = none
replaced run (some old) = some run

pub find_run-save_run :
    (run : AgentRun) (runs : List AgentRun) (id : ℕ)
    → find_run id (save_run run runs)
      ≡ (if run.id == id then replaced run (find_run id runs) else find_run id runs)
find_run-save_run run [] id = ground arith
find_run-save_run run (x ∷ xs) id = ground (arith, find_run-save_run run xs id)

pub find_run-id :
    (id : ℕ) (run : AgentRun) (runs : List AgentRun) → find_run id runs ≡ some run → run.id ≡ id
find_run-id id run [] e = cc
find_run-id id run (x ∷ xs) e = ground (arith, find_run-id id run xs)

pub find_run_self :
    (id : ℕ) (run : AgentRun) (runs : List AgentRun)
    → find_run id runs ≡ some run
    → find_run run.id runs ≡ some run
find_run_self id run runs e =
    subst (λ x. find_run x runs ≡ some run) (sym (find_run-id id run runs e)) e

latest_state-append :
    (xs ys : List AgentEvent)
    → latest_state (xs ++ ys) ≡ first_some (latest_state ys) (latest_state xs)
latest_state-append [] ys = ground arith
latest_state-append (x ∷ xs) ys = ground (arith, latest_state-append xs ys)

module _ (run old : AgentRun) (kind : EventKind) (message level : String) (state : Option RunState)
    (payload : Payload) (db : Db) (h : IsTimeline db) (found : find_run run.id db.runs ≡ some old)
    (same : old.last_event_sequence ≡ run.last_event_sequence)
    (current : or_else state run.state ≡ run.state) where
  at_id : (id : ℕ) → (run.id == id) ≡ true → find_run id db.runs ≡ some old
  at_id id e = subst (λ x. find_run x db.runs ≡ some old) ((==_iff _ _).0 e) found

  append_event_for-IsTimeline :
      IsTimeline (append_event_for run kind message level state payload db).1
  unfolding append_event_for
  append_event_for-IsTimeline = record {
    numbered = λ id.
        simp (where_rows-append, map-append, find_run-save_run, h.numbered id)
          (elim (Bool-cases (run.id == id)) [
            | inl e ↦ rw (e, at_id id e, same, add-one)
            | inr e ↦ rw e (append-nil _)
          ]);
    agrees = λ id.
        simp (where_rows-append, latest_state-append, find_run-save_run, h.agrees id)
          (elim (Bool-cases (run.id == id)) [
            | inl e ↦ rw (e, at_id id e, current) (ground arith)
            | inr e ↦ rw e
          ]);
  }

-- Appending an event to any run, in the run's own state, keeps both invariants.
pub append_event-IsTimeline :
    (run_id : ℕ) (kind : EventKind) (message level : String) (payload : Payload) (db : Db)
    → IsTimeline db
    → IsTimeline (append_event run_id kind message level none payload db).1
unfolding append_event
append_event-IsTimeline run_id kind message level payload db h =
    elim (Option-cases (find_run run_id db.runs)) [
      | inl e ↦ rw e h
      | inr (run, e) ↦ rw e (
          append_event_for-IsTimeline run run kind message level none payload db h
            (find_run_self run_id run db.runs e) refl refl)
    ]

pub transition-IsTimeline :
    (run_id : ℕ) (target : RunState) (message : Option String) (category : Option FailureCategory)
    (detail : Option String) (payload : Payload) (db : Db)
    → IsTimeline db
    → IsTimeline (transition run_id target message category detail payload db).1
unfolding transition
transition-IsTimeline run_id target message category detail payload db h =
    elim (Option-cases (find_run run_id db.runs)) [
      | inl e ↦ rw e h
      | inr (run, e) ↦ rw e (elim (Bool-cases (can_transition run.state target)) [
        | inl legal ↦ rw legal (
            append_event_for-IsTimeline (enter_state run target category detail db.now) run
              state_changed _ (level_of target) (some target) payload db h
              (find_run_self run_id run db.runs e) refl refl)
        | inr illegal ↦ rw illegal h
      ])
    ]
