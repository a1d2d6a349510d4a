-- ===== src/Tests/Reviews.antt =====
-- The theorems on reviews and runs, applied to the sample run.
use mathlib.Core.List.{Memᴰ}
use pullsmith.Common.{◌≡◌, ◌↔◌, refl, ◌≤◌, ◌+◌, is_blank, String, false, none, some}
use pullsmith.Diff
use pullsmith.States
use pullsmith.Db.{Db, RunDiff, Approval, Decision, approved, revision_requested}
use pullsmith.Db.Session.{ok}
use pullsmith.Events
use pullsmith.Jobs
use pullsmith.Runs
use pullsmith.Runs.{create_run}
use pullsmith.Events.{find_run, list_events}
use pullsmith.Events.Timeline.{IsTimeline}
use pullsmith.Services.Timeline.{Steps-IsTimeline}
use pullsmith.Review
use pullsmith.Review.{store_diff, approve, reject, request_revision, assert_push_allowed}
use pullsmith.Review.Gate.{find_approval, Refused, assert_push_allowed_iff}
use pullsmith.Services.{Steps, here, next, diff_stored, approved_by, run_created, waited}
use pullsmith.Services.Approved.{assert_push_allowed-reviewed}
use pullsmith.Services.Active.{Steps-active_count}
use pullsmith.Services.Active.Rows.{active_count}
use pullsmith.Services.Decided.{Steps-Refused, Steps-never_pushed}
use pullsmith.Tests.{waiting, empty_db, waiting_db, changes, harmless}

program : Unit {0}
unfolding store_diff approve reject request_revision assert_push_allowed Review.assert_awaiting
    Review.decide Review.latest_diff Review.newest_diff Review.newer_diff Review.get_approval
    Review.is_approved Events.append_event Events.append_event_for Events.load_run_for_update
    Events.transition Events.assert_transition Events.enter_state Jobs.enqueue States.state_eq
    States.can_transition Diff.unified_diff Runs.create_run Runs.is_active_for Events.list_events
    is_blank
program = tt

abbrev hash : String → String
hash s = s

abbrev stored_db : Db
stored_db = (store_diff hash 1 changes harmless none waiting_db).1

abbrev approved_db : Db
approved_db = (approve waiting 7 none stored_db).1

abbrev given : Approval
given = record {
  id = 51;
  run_id = 1;
  user_id = 7;
  decision = approved;
  diff_hash = "-a\n+b";
  comment = none;
  created_at = 100;
}

two_steps : Steps hash waiting_db approved_db
two_steps = next (next here (diff_stored 1 changes harmless none)) (approved_by waiting 7 none)

gate_opens : assert_push_allowed hash 1 "-a\n+b" approved_db ≡ (ok given, approved_db)
unfolding program
gate_opens = refl

assert_push_allowed-reviewed_example :
    (diff : RunDiff) × Memᴰ diff approved_db.diffs
    × (diff.run_id ≡ 1)
    × (hash diff.diff_text ≡ hash "-a\n+b")
    × (diff.risk_blocking ≡ false)
assert_push_allowed-reviewed_example =
    assert_push_allowed-reviewed hash two_steps refl refl 1 "-a\n+b" given gate_opens

assert_push_allowed_iff_example :
    (((assert_push_allowed hash 1 "-a\n+b" approved_db).0 ≡ ok given) ↔ (
      (find_approval 1 approved_db.approvals ≡ some given)
      × (Decision.approved ≡ Decision.approved)
      × ("-a\n+b" ≡ hash "-a\n+b")))
    × ((assert_push_allowed hash 1 "-a\n+b" approved_db).1 ≡ approved_db)
assert_push_allowed_iff_example = assert_push_allowed_iff hash 1 "-a\n+b" given approved_db

abbrev sent_back_db : Db
sent_back_db = (request_revision waiting 7 "too broad" stored_db).1

abbrev refusal : Approval
refusal = record given { decision = revision_requested; comment = some "too broad" }

sent_back_decision : find_approval 1 sent_back_db.approvals ≡ some refusal
unfolding program
sent_back_decision = refl

abbrev later_db : Db
later_db = record sent_back_db { now = sent_back_db.now + 60 }

later : Steps hash sent_back_db later_db
later = next here (waited 60)

Steps-Refused_example :
    Refused (approve waiting 7 (some "fine now") later_db) later_db
    × Refused (reject waiting 7 (some "fine now") later_db) later_db
    × Refused (request_revision waiting 7 "fine now" later_db) later_db
Steps-Refused_example = Steps-Refused hash waiting refusal later sent_back_decision 7 "fine now"

Steps-never_pushed_example : ¬ (assert_push_allowed hash 1 "-a\n+b" later_db ≡ (ok given, later_db))
Steps-never_pushed_example =
    Steps-never_pushed hash 1 refusal later sent_back_decision (λ e. cc) "-a\n+b" given

abbrev created_db : Db
created_db = (create_run 7 3 4 5 false empty_db).1

created_steps : Steps hash empty_db created_db
created_steps = next here (run_created 7 3 4 5 false)

Steps-active_count_example : active_count 4 created_db.runs ≤ 1
Steps-active_count_example = Steps-active_count hash created_steps refl 4

created_active : active_count 4 created_db.runs ≡ 1
unfolding program
created_active = refl

empty-IsTimeline : IsTimeline empty_db
empty-IsTimeline = record { numbered = λ id. refl; agrees = λ id. refl }

Steps-IsTimeline_example : IsTimeline created_db
Steps-IsTimeline_example = Steps-IsTimeline hash created_steps empty-IsTimeline
