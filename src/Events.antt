-- ===== src/Events.antt =====
-- services/event_service.py: run events and guarded state transitions. A row that the source
-- mutates is an argument and a result: `append_event_for` returns the run as it leaves it.
pub mod Timeline
pub mod Frame
pub mod Resume
use pullsmith.Common.{
  ℕ, ◌+◌, String, Option, some, List, [], ◌∷◌, ◌++◌, not, ◌&&◌, ltb, leb, ◌==◌, if◌then◌else◌,
  where_rows, find_row, update_rows, take, is_some, or_else, or_text, show, ◌<>◌,
}
use pullsmith.States.{
  RunState, cloning_repository, failed, FailureCategory, state_eq, state_name, can_transition,
  is_terminal,
}
use pullsmith.Db.{AgentRun, AgentEvent, EventKind, state_changed, Payload}
use pullsmith.Db.Session.{
  lookup_error, illegal_transition, Action, return, require, query, change, fail_if, new_id,
  utc_now, ◌>>=◌, ◌>>◌,
}

abbrev pub find_run : ℕ → List AgentRun → Option AgentRun
find_run run_id runs = find_row (λ r. r.id == run_id) runs

-- The flush of a mutated run.
abbrev pub save_run : AgentRun → List AgentRun → List AgentRun
save_run run runs = update_rows (λ r. r.id == run.id) (λ _. run) runs

unfoldable pub load_run_for_update : ℕ → Action AgentRun
load_run_for_update run_id = do
  found ← query (λ db. find_run run_id db.runs)
  require found (lookup_error ("Run not found: " <> show run_id))

unfoldable pub append_event_for :
    AgentRun
    → EventKind
    → (message level : String) → Option RunState
    → Payload
    → Action (AgentRun × AgentEvent)
append_event_for run kind message level state payload = do
  let sequence = run.last_event_sequence + 1
  let bumped = record run { last_event_sequence = sequence }
  event_id ← new_id
  now ← utc_now
  let event : AgentEvent = record {
    id = event_id;
    run_id = run.id;
    sequence = sequence;
    kind = kind;
    state = or_else state run.state;
    message = message;
    level = level;
    payload = payload;
    created_at = now;
  }
  change (λ db. record db { runs = save_run bumped db.runs; events = db.events ++ event ∷ [] })
  return (bumped, event)

unfoldable pub append_event :
    ℕ → EventKind → (message level : String) → Option RunState → Payload → Action AgentEvent
unfolding load_run_for_update append_event_for
append_event run_id kind message level state payload = do
  run ← load_run_for_update run_id
  appended ← append_event_for run kind message level state payload
  return appended.1

-- `assert_transition` of agent/states.py
unfoldable pub assert_transition : RunState → RunState → Action (Unit {0})
assert_transition current target =
    fail_if (not (can_transition current target)) (illegal_transition current target)

-- The fields that `transition` assigns before it writes the event.
unfoldable pub enter_state :
    AgentRun → RunState → Option FailureCategory → Option String → ℕ → AgentRun
enter_state run target category detail now = record run {
  state = target;
  started_at =
      if state_eq target cloning_repository && not (is_some run.started_at)
      then some now
      else run.started_at;
  finished_at = if is_terminal target then some now else run.finished_at;
  failure_category = if is_some category then category else run.failure_category;
  failure_detail = if is_some detail then detail else run.failure_detail;
}

abbrev pub level_of : RunState → String
level_of target = if state_eq target failed then "error" else "info"

unfoldable pub transition :
    ℕ
    → RunState
    → Option String
    → Option FailureCategory
    → Option String
    → Payload
    → Action AgentRun
unfolding load_run_for_update append_event_for assert_transition enter_state
transition run_id target message category detail payload = do
  run ← load_run_for_update run_id
  let current = run.state
  assert_transition current target
  now ← utc_now
  appended ←
      append_event_for (enter_state run target category detail now) state_changed
        (or_text message (state_name current <> " -> " <> state_name target)) (level_of target)
        (some target) payload
  return appended.0

-- ORDER BY sequence: insertion in front of the first row that is not less.
pub insert_event : AgentEvent → List AgentEvent → List AgentEvent
insert_event e [] = e ∷ []
insert_event e (x ∷ xs) =
    let rest = insert_event e xs in if leb e.sequence x.sequence then e ∷ x ∷ xs else x ∷ rest

pub order_events : List AgentEvent → List AgentEvent
unfolding insert_event
order_events [] = []
order_events (e ∷ es) = insert_event e (order_events es)

unfoldable pub list_events : ℕ → (after_sequence limit : ℕ) → Action (List AgentEvent)
unfolding order_events
list_events run_id after_sequence limit = query λ db. take limit (
    order_events
      (where_rows (λ e. (e.run_id == run_id) && ltb after_sequence e.sequence) db.events))
