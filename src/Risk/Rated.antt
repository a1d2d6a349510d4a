-- ===== src/Risk/Rated.antt =====
-- What a rating of agent/risk.py rules out.
use pullsmith.Common.{
  ◌≡◌, inl, inr, ℕ, ◌+◌, ◌≤◌, String, Bool, true, false, Option, none, some, List, [], ◌∷◌, not,
  ◌||◌, arith, Bool-cases, is_nil,
}
use native.Mathlib.Nat.{le_trans}
use pullsmith.Diff
use pullsmith.Diff.{FileDiff, ChangeSet}
use pullsmith.Testing.{TestOutcome, all_passed}
use pullsmith.Risk.{low, high}
use pullsmith.Risk.Secrets.{scan_for_secrets}
use pullsmith.Risk.Assess.{
  Tally, add_secrets, add_tests, add_file_count, add_line_count, security_marker,
  is_dependency_file, add_file, add_files, unplanned, add_unplanned, add_attempts, add_truncated,
  add_marker, level_of_score, assess,
}

file_count_up : (n : ℕ) (t : Tally) → t.score ≤ (add_file_count n t).score
unfolding add_file_count
file_count_up n t = ground arith

line_count_up : (n : ℕ) (t : Tally) → t.score ≤ (add_line_count n t).score
unfolding add_line_count
line_count_up n t = ground arith

marker_up :
    (path : String) (m : Option (String × String)) (t : Tally)
    → t.score ≤ (add_marker path m t).score
marker_up path none t = omega arith
marker_up path (some (marker, label)) t = omega arith

file_up : (f : FileDiff) (t : Tally) → t.score ≤ (add_file f t).score
unfolding add_file
file_up f t =
    let marked = marker_up f.path (security_marker f.path) t in
    elim (Bool-cases (is_dependency_file f.path)) [
      | inl listed ↦ rw listed (omega (arith, marked))
      | inr other ↦ rw other marked
    ]

files_up : (fs : List FileDiff) (t : Tally) → t.score ≤ (add_files fs t).score
unfolding add_files
files_up [] t = omega arith
files_up (f ∷ fs) t = le_trans (file_up f t) (files_up fs (add_file f t))

unplanned_up :
    (ps : List String) (fs : List FileDiff) (t : Tally) → t.score ≤ (add_unplanned ps fs t).score
unfolding add_unplanned
unplanned_up ps fs t = elim (Bool-cases (is_nil ps || is_nil (unplanned ps fs))) [
  | inl nothing ↦ rw nothing (omega arith)
  | inr strays ↦ rw strays (omega arith)
]

attempts_up : (n : ℕ) (t : Tally) → t.score ≤ (add_attempts n t).score
unfolding add_attempts
attempts_up n t = ground arith

truncated_up : (b : Bool) (t : Tally) → t.score ≤ (add_truncated b t).score
truncated_up true t = omega arith
truncated_up false t = omega arith

secrets_score :
    (leaked : List String) (t : Tally) → is_nil leaked ≡ false → 20 ≤ (add_secrets leaked t).score
unfolding add_secrets
secrets_score leaked t h = rw h (omega arith)

tests_up : (os : List TestOutcome) (t : Tally) → t.score ≤ (add_tests os t).score
unfolding add_tests
tests_up os t = elim (Bool-cases (is_nil os)) [
  | inl n ↦ rw n (omega arith)
  | inr s ↦ rw s (elim (Bool-cases (all_passed os)) [
    | inl p ↦ rw p (omega arith)
    | inr f ↦ rw f (omega arith)
  ])
]

tests_score :
    (os : List TestOutcome) (t : Tally) → all_passed os ≡ false → 6 ≤ (add_tests os t).score
unfolding add_tests
tests_score os t h = elim (Bool-cases (is_nil os)) [
  | inl n ↦ rw n (omega arith)
  | inr s ↦ rw (s, h) (omega arith)
]

-- The steps behind the tests only add points.
later_up :
    (change_set : ChangeSet) (planned_files : List String) (iterations_used : ℕ) (t : Tally)
    → t.score
      ≤ (add_truncated change_set.truncated (
          add_attempts iterations_used (
            add_unplanned planned_files change_set.files (
              add_files change_set.files (
                add_line_count
                  (Diff.lines_added change_set + Diff.lines_removed change_set)
                  (add_file_count (Diff.file_count change_set) t)))))).score
later_up c ps n t = le_trans (file_count_up _ t) (
    le_trans (line_count_up _ _) (
      le_trans (files_up c.files _) (
        le_trans (unplanned_up ps c.files _)
          (le_trans (attempts_up n _) (truncated_up c.truncated _)))))

low_score : (n : ℕ) → level_of_score n ≡ low → n ≤ 3
unfolding level_of_score
low_score n h = ground arith

high_score : (n : ℕ) → 8 ≤ n → level_of_score n ≡ high
unfolding level_of_score
high_score n h = ground arith

some_leak : {b : Bool} → not b ≡ true → b ≡ false
some_leak {b} h = ground arith

-- A change that is rated LOW was tested, every run of the tests passed, and no credential was found
-- in the lines that it adds. A change that is blocked is rated HIGH.
pub assess-rating :
    (change_set : ChangeSet) (outcomes : List TestOutcome) (planned_files : List String)
    (iterations_used : ℕ)
    → (let r = assess change_set outcomes planned_files iterations_used in
        (r.level ≡ low
          → (all_passed outcomes ≡ true)
            × (is_nil (scan_for_secrets (Diff.unified_diff change_set)) ≡ true)
            × (r.blocking ≡ false))
        × (r.blocking ≡ true → r.level ≡ high))
unfolding assess
assess-rating change_set outcomes planned_files iterations_used =
    let leaked = scan_for_secrets (Diff.unified_diff change_set) in
    let start : Tally = record { score = 0; reasons = []; warnings = [] } in
    let first = add_secrets leaked start in
    let total = (assess change_set outcomes planned_files iterations_used).score in
    let later : (add_tests outcomes first).score ≤ total =
      later_up change_set planned_files iterations_used (add_tests outcomes first) in
    (
      λ l.
          let few = low_score total l in
          elim (Bool-cases (all_passed outcomes)) [
            | inr failed ↦
                absurd
                  (let six = tests_score outcomes first failed in omega (arith, six, later, few))
            | inl passed ↦ elim (Bool-cases (is_nil leaked)) [
              | inl clean ↦ (passed, clean, rw clean)
              | inr leak ↦ absurd (
                  let twenty = secrets_score leaked start leak in
                  let up = tests_up outcomes first in omega (arith, twenty, up, later, few))
            ]
          ],
      λ blocked.
          let twenty = secrets_score leaked start (some_leak blocked) in
          let up = tests_up outcomes first in high_score total (omega (arith, twenty, up, later)),
    )
