-- ===== src/Api/Stream.antt =====
-- api/routes/runs.py, `stream_events`: the event stream that a browser resumes.
pub mod Resumed
use pullsmith.Common.{
  ℕ, ◌+◌, ◌%◌, Bool, true, false, Option, none, some, List, [], ◌∷◌, ◌++◌, map, max, not, ◌&&◌,
  ◌==◌, if◌then◌else◌, is_nil,
}
use pullsmith.States.{RunState, is_terminal}
use pullsmith.Db.{Db, AgentRun, AgentEvent}
use pullsmith.Db.Session.{Result, ok, raise, Action, return, ◌>>=◌, ◌>>◌}
use pullsmith.Events.{list_events}
use pullsmith.Runs.{get_run}
use pullsmith.Api.{not_found_404, translated}

-- What goes over the wire: `_sse_frame` of an event, the comment, or the end.
pub data Frame : Type 0 where
  run_event : AgentEvent → Frame
  keepalive : Frame
  run_finished : RunState → Frame

-- The generator's variables after a round, or none when it has ended.
pub record Round : Type 0 where
  pub frames : List Frame
  pub cursor : ℕ
  pub idle_ticks : ℕ
  pub finished : Bool

-- `cursor = event.sequence`, for each event that is sent
unfoldable pub last_of : ℕ → List AgentEvent → ℕ
last_of cursor [] = cursor
last_of cursor (e ∷ es) = last_of e.sequence es

unfoldable pub round_of : (cursor idle_ticks : ℕ) → List AgentEvent → AgentRun → Round
unfolding last_of
round_of cursor idle_ticks events run =
    let idle = if is_nil events then idle_ticks + 1 else 0 in
    let rest = (if is_nil events && (idle % 15 == 0) then keepalive ∷ [] else []) in
    let over = is_terminal run.state && is_nil events in
    record {
      frames = map run_event events ++ (rest ++ (if over then run_finished run.state ∷ [] else []));
      cursor = last_of cursor events;
      idle_ticks = idle;
      finished = over;
    }

-- One turn of the `while`, in its own short session.
unfoldable pub stream_round : (run_id user_id cursor idle_ticks : ℕ) → Action Round
unfolding round_of
stream_round run_id user_id cursor idle_ticks = do
  events ← list_events run_id cursor 500
  run ← get_run run_id user_id
  return (round_of cursor idle_ticks events run)

-- `start_after`: the larger of the query's number and the header's, if that is one.
unfoldable start_after : (after : ℕ) → (last_event_id : Option ℕ) → ℕ
start_after after none = after
start_after after (some id) = max after id

-- `more` streams on, unless the generator has ended or raised.
abbrev stream_on : (ℕ → ℕ → List Frame) → Result Round → List Frame
stream_on more (raise e) = []
stream_on more (ok round) =
    round.frames ++ (if round.finished then [] else more round.cursor round.idle_ticks)

-- The frames that are sent over the databases that the rounds see, until the client disconnects.
unfoldable pub stream : (run_id user_id : ℕ) → List Db → (cursor idle_ticks : ℕ) → List Frame
unfolding stream_round
stream run_id user_id [] cursor idle_ticks = []
stream run_id user_id (db ∷ dbs) cursor idle_ticks =
    stream_on (λ c i. stream run_id user_id dbs c i)
      (stream_round run_id user_id cursor idle_ticks db).0

-- `stream_events`: the run must be the user's before the stream opens, or the answer is a 404.
unfoldable pub stream_events :
    (run_id user_id after : ℕ) → (last_event_id : Option ℕ) → List Db → Action (List Frame)
unfolding stream start_after not_found_404
stream_events run_id user_id after last_event_id dbs = do
  translated not_found_404 (get_run run_id user_id)
  return (stream run_id user_id dbs (start_after after last_event_id) 0)
