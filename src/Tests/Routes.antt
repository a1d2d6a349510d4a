-- ===== src/Tests/Routes.antt =====
-- The theorems on the routes, applied to the sample run.
use pullsmith.Common.{◌≡◌, ◌↔◌, refl, ℕ, String, true, false, none, some, [], ◌∷◌}
use pullsmith.States.{waiting_for_approval, awaits_human}
use pullsmith.Db.{Db, Approval}
use pullsmith.Db.Session.{ok}
use pullsmith.Events.Timeline.{IsTimeline}
use pullsmith.Events.Resume.{range}
use pullsmith.Runs
use pullsmith.Runs.{create_run}
use pullsmith.Review
use pullsmith.Review.{store_diff}
use pullsmith.Services.{Steps, here, next, run_created}
use pullsmith.Services.Timeline.{Steps-IsTimeline}
use pullsmith.Api.Stream.{stream, stream_events}
use pullsmith.Api.Stream.Resumed.{sent, sent-stream}
use pullsmith.Api.ReviewRoutes.{
  ReviewBundle, get_review_bundle, approve_run, get_plan, get_diff, reject_run,
  request_revision_route,
}
use pullsmith.Api.ReviewRoutes.Screen.{approve_run_iff}
use pullsmith.Api.RunRoutes.{get_run_route, cancel_run_route, event_history}
use pullsmith.Api.Ownership.{IsGone, get_run-IsGone}
use pullsmith.Tests.{waiting_db, empty_db, changes, harmless}

abbrev hash : String → String
hash s = s

abbrev shown_db : Db
shown_db = (store_diff hash 1 changes harmless none waiting_db).1

abbrev screen : ReviewBundle
screen = record {
  run_id = 1;
  state = waiting_for_approval;
  awaiting_approval = true;
  iterations_used = 0;
  plan = none;
  diff = Review.newest_diff shown_db.diffs;
  approval = none;
  can_approve = true;
}

screen_shown : get_review_bundle 1 7 shown_db ≡ (ok screen, shown_db)
unfolding get_review_bundle store_diff Runs.get_run Review.latest_plan Review.latest_diff
    Review.get_approval awaits_human Review.newest_plan Review.newest_diff
screen_shown = refl

approve_run_iff_example :
    ((waiting_for_approval ≡ waiting_for_approval) × (true ≡ true))
    ↔ ((a : Approval) × (after : Db) × (approve_run 1 7 none shown_db ≡ (ok a, after)))
approve_run_iff_example = approve_run_iff 1 7 none shown_db screen screen_shown

-- The run is user 7's, and user 8 asks.
get_run-IsGone_example :
    IsGone waiting_db (get_run_route 1 8 waiting_db)
    × IsGone waiting_db (cancel_run_route 1 8 waiting_db)
    × IsGone waiting_db (event_history 1 8 0 waiting_db)
    × IsGone waiting_db (stream_events 1 8 0 (some 3) (waiting_db ∷ []) waiting_db)
    × IsGone waiting_db (get_plan 1 8 waiting_db)
    × IsGone waiting_db (get_diff 1 8 waiting_db)
    × IsGone waiting_db (get_review_bundle 1 8 waiting_db)
    × IsGone waiting_db (approve_run 1 8 none waiting_db)
    × IsGone waiting_db (reject_run 1 8 none waiting_db)
    × IsGone waiting_db (request_revision_route 1 8 "why" waiting_db)
get_run-IsGone_example = get_run-IsGone 1 8 0 (some 3) (waiting_db ∷ []) "why" none waiting_db refl

abbrev one_run_db : Db
one_run_db = (create_run 7 3 4 5 false empty_db).1

one_run_steps : Steps hash empty_db one_run_db
one_run_steps = next here (run_created 7 3 4 5 false)

empty-IsTimeline : IsTimeline empty_db
empty-IsTimeline = record { numbered = λ id. refl; agrees = λ id. refl }

one_run-IsTimeline : IsTimeline one_run_db
one_run-IsTimeline = Steps-IsTimeline hash one_run_steps empty-IsTimeline

sent-stream_example : (n : ℕ) × (sent (stream 50 7 (one_run_db ∷ one_run_db ∷ []) 0 0) ≡ range 0 n)
sent-stream_example =
    sent-stream 50 7 (one_run_db ∷ one_run_db ∷ []) 0 0
      (one_run-IsTimeline, (one_run-IsTimeline, tt))
