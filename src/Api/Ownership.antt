-- ===== src/Api/Ownership.antt =====
-- What the routes show of a run that is not the user's.
use pullsmith.Common.{◌≡◌, ℕ, String, Option, none, List, ◌&&◌, ◌==◌, find_row}
use pullsmith.Db.{Db}
use pullsmith.Db.Session.{Result, raise, http}
use pullsmith.Runs.{get_run, cancel_run}
use pullsmith.Api.{not_found_404, run_error}
use pullsmith.Api.Stream.{stream_events}
use pullsmith.Api.RunRoutes.{get_run_route, cancel_run_route, event_history}
use pullsmith.Api.ReviewRoutes.{
  owned_run, get_plan, get_diff, get_review_bundle, approve_run, reject_run, request_revision_route,
}

-- The answer to a request for a run that is not there.
abbrev pub IsGone : {A : Type 0} → Db → Result A × Db → Type 0
IsGone db r = r ≡ (raise (http 404 "Run not found"), db)

-- Each of the ten requests about one run, its event stream and the three decisions included, answers
-- 404 and changes nothing if the run is not the user's, in the same words as if there were none.
pub get_run-IsGone :
    (run_id user_id after : ℕ) (last_event_id : Option ℕ) (later : List Db) (comment : String)
    (remark : Option String) (db : Db)
    → find_row (λ r. (r.id == run_id) && (r.user_id == user_id)) db.runs ≡ none
    → IsGone db (get_run_route run_id user_id db)
      × IsGone db (cancel_run_route run_id user_id db)
      × IsGone db (event_history run_id user_id after db)
      × IsGone db (stream_events run_id user_id after last_event_id later db)
      × IsGone db (get_plan run_id user_id db)
      × IsGone db (get_diff run_id user_id db)
      × IsGone db (get_review_bundle run_id user_id db)
      × IsGone db (approve_run run_id user_id remark db)
      × IsGone db (reject_run run_id user_id remark db)
      × IsGone db (request_revision_route run_id user_id comment db)
unfolding get_run cancel_run not_found_404 run_error get_run_route cancel_run_route event_history
    stream_events owned_run get_plan get_diff get_review_bundle approve_run reject_run
    request_revision_route
get_run-IsGone run_id user_id after last_event_id later comment remark db gone =
    (rw gone, rw gone, rw gone, rw gone, rw gone, rw gone, rw gone, rw gone, rw gone, rw gone)
