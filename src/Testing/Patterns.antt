-- ===== src/Testing/Patterns.antt =====
-- agent/testing.py: the regular expressions on a runner's output, each as a function that reads a
-- match off the front of a text. Digits, letters and whitespace are those of ASCII.
use Prim.Native.Char.{code}
use pullsmith.Common.{
  ℕ, String, Bool, false, Option, none, some, List, [], ◌∷◌, map, not, ◌||◌, ◌==◌, if◌then◌else◌,
  any, head?, first_some, is_empty, is_space, is_digit, span_text, drop_text, to_number, find_all,
  after_prefix, at_line_start, contains_text, lower,
}

-- A match: what its group holds, and what follows it.
abbrev Match : Type 0 → Type 0
Match A = Option (A × String)

-- The first alternative that starts the text.
unfoldable first_word : List String → String → Match String
unfolding after_prefix
first_word [] s = none
first_word (w ∷ ws) s = elim (after_prefix w s) [
  | none ↦ first_word ws s
  | some after ↦ some (w, after)
]

abbrev counted_as : String → Match String → Match (ℕ × String)
counted_as digits none = none
counted_as digits (some (word, after)) = some ((to_number digits, word), after)

-- `(\d+)\s+(…)`; a shorter run of digits or blanks is followed by a digit or a blank, no word.
unfoldable count_of : List String → String → Match (ℕ × String)
unfolding span_text first_word to_number
count_of alternatives s =
    let digits = span_text is_digit s in
    let blanks = span_text is_space digits.1 in
    if is_empty digits.0 || is_empty blanks.0
    then none
    else counted_as digits.0 (first_word alternatives blanks.1)

-- `_PYTEST_COUNTS`
unfoldable pub pytest_counts : String → List (ℕ × String)
unfolding find_all count_of
pytest_counts s =
    find_all (λ before. count_of ("passed" ∷ "failed" ∷ "skipped" ∷ "error" ∷ "errors" ∷ [])) none 0
      s

-- The word after a title and blanks: `\s+(\S+)`.
unfoldable named_after : Option String → Match String
unfolding span_text
named_after none = none
named_after (some s) =
    let blanks = span_text is_space s in
    let name = span_text (λ c. not (is_space c)) blanks.1 in
    if is_empty blanks.0 || is_empty name.0 then none else some name

-- `_PYTEST_FAILURE` and `_GO_FAILURE`: a title at the start of a line.
unfoldable pub failures_titled : String → String → List String
unfolding find_all named_after after_prefix
failures_titled title s =
    find_all
      (λ before text. if at_line_start before then named_after (after_prefix title text) else none)
      none 0 s

-- One of the texts, with IGNORECASE.
unfoldable pub mentions : List String → String → Bool
unfolding contains_text lower
mentions texts s = any (λ t. contains_text (lower t) (lower s)) texts

abbrev pub runner_broken : List String
runner_broken =
    "ERROR collecting" ∷ "INTERNALERROR" ∷ "no tests ran" ∷ "error: unrecognized arguments" ∷ []

abbrev pub collect_error : List String
collect_error = "ModuleNotFoundError" ∷ "ImportError" ∷ []

abbrev pub js_runner_error : List String
js_runner_error =
    "Cannot find module" ∷ "No test files found" ∷ "command not found" ∷ "ERR_MODULE_NOT_FOUND" ∷ []

-- `.*?(\d+)\s+failed`: the first count on the line.
unfoldable failed_on_line : String → Match ℕ
unfolding count_of
failed_on_line String.[] = none
failed_on_line (String.◌∷◌ c s) =
    let rest = failed_on_line s in
    (elim (count_of ("failed" ∷ []) (String.◌∷◌ c s)) [
      | some ((n, word), after) ↦ some (n, after)
      | none ↦ if code c == 10 then none else rest
    ])

abbrev after_blanks : Match String → Match ℕ
after_blanks none = none
after_blanks (some (word, s)) =
    let blanks = span_text is_space s in if is_empty blanks.0 then none else failed_on_line blanks.1

-- `_JS_FAILED`, of a text in small letters. A blank of `\s+` that goes to `.*?` gains nothing.
unfoldable pub js_failed : String → Option ℕ
unfolding find_all failed_on_line span_text first_word
js_failed s = head? (
    find_all
      (λ before text.
        first_some (after_blanks (first_word ("tests" ∷ "✕" ∷ []) text))
          (after_blanks (first_word ("test" ∷ []) text)))
      none 0 s)

-- `_JS_PASSED`, of a text in small letters.
unfoldable pub js_passed : String → Option ℕ
unfolding find_all count_of
js_passed s = head? (map (λ m. m.0) (find_all (λ before. count_of ("passed" ∷ [])) none 0 s))

-- `.`, which a line end is not.
abbrev is_inline : ℕ → Bool
is_inline c = not (c == 10)

unfoldable has_inline : String → Bool
has_inline String.[] = false
has_inline (String.◌∷◌ c s) = is_inline (code c) || has_inline s

-- `\s+(.+)$`. When only blanks follow, all but the first may be given back: the group is blank.
unfoldable rest_of_line : Match String → Match String
unfolding span_text has_inline drop_text
rest_of_line none = none
rest_of_line (some (marker, s)) =
    let blanks = span_text is_space s in
    if is_empty blanks.0
    then none
    else if is_empty blanks.1
    then if has_inline (drop_text 1 blanks.0) then some (" ", "") else none
    else some (span_text is_inline blanks.1)

-- `_JS_FAILURE_NAME`
unfoldable pub js_failure_names : String → List String
unfolding find_all rest_of_line first_word span_text
js_failure_names s =
    find_all
      (λ before text.
        if at_line_start before
        then rest_of_line (first_word ("✕" ∷ "×" ∷ "FAIL" ∷ []) (span_text is_space text).1)
        else none)
      none 0 s
