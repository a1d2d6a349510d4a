-- ===== src/Tests/Ratings.antt =====
-- The theorem on ratings, and what the scan for credentials finds.
use pullsmith.Common.{pos, ◌≡◌, refl, true, false, none, some, [], ◌∷◌, is_nil}
use pullsmith.Diff
use pullsmith.Diff.{ChangeSet}
use pullsmith.Testing.{TestOutcome, all_passed}
use pullsmith.Risk.{low, high}
use pullsmith.Risk.Secrets.{scan_for_secrets}
use pullsmith.Risk.Assess.{assess}
use pullsmith.Risk.Rated.{assess-rating}
use pullsmith.Tests.{changes}

abbrev green : TestOutcome
green = record {
  command = "pytest" ∷ [];
  passed = true;
  exit_code = pos 0;
  duration_ms = 900;
  timed_out = false;
  tests_passed = some 12;
  tests_failed = none;
  tests_skipped = none;
  failing_tests = [];
  output_summary = "12 passed";
  runner_error = false;
}

rated_low : (assess changes (green ∷ []) [] 1).level ≡ low
unfolding assess all_passed
rated_low = refl

assess-rating_example :
    let r = assess changes (green ∷ []) ("app.py" ∷ []) 2 in
    (r.level ≡ low
      → (all_passed (green ∷ []) ≡ true)
        × (is_nil (scan_for_secrets (Diff.unified_diff changes)) ≡ true)
        × (r.blocking ≡ false))
    × (r.blocking ≡ true → r.level ≡ high)
assess-rating_example = assess-rating changes (green ∷ []) ("app.py" ∷ []) 2

token_added : scan_for_secrets "@@\n+key = \"ghp_0123456789abcdef\"" ≡ "GitHub token" ∷ []
unfolding scan_for_secrets
token_added = refl

token_removed : scan_for_secrets "@@\n-key = \"ghp_0123456789abcdef\"" ≡ []
unfolding scan_for_secrets
token_removed = refl

login_added :
    scan_for_secrets "+URL=PostgreSQL+asyncpg://ann:secret@db/x"
    ≡ "database URL with credentials" ∷ []
unfolding scan_for_secrets
login_added = refl

google_key_once :
    scan_for_secrets "+a AQ.01234567890123456789\n+b AIza01234567890123456789"
    ≡ "Google API key" ∷ []
unfolding scan_for_secrets
google_key_once = refl
