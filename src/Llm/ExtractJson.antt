-- ===== src/Llm/ExtractJson.antt =====
-- llm/base.py, `extract_json`. The expression ```(?:json)?\s*(.+?)\s*``` with DOTALL is read off as
-- functions: what is greedy tries the longest part first, what is lazy the shortest. White space
-- is that of ASCII.
use Prim.Native.Char.{Char, code}
use pullsmith.Common.{
  String, Bool, Option, none, some, ◌==◌, if◌then◌else◌, is_some, is_space, first_some, or_else,
  lstrip, strip, after_prefix,
}

-- \s*```
unfoldable pub closes : String → Bool
unfolding after_prefix lstrip
closes s = is_some (after_prefix "```" (lstrip s))

abbrev pub put : Char → Option String → Option String
put c none = none
put c (some s) = some (String.◌∷◌ c s)

-- (.+?)\s*```
unfoldable lazy_group : String → Option String
unfolding closes
lazy_group String.[] = none
lazy_group (String.◌∷◌ c s) =
    let rest = lazy_group s in if closes s then some (String.◌∷◌ c "") else put c rest

-- \s*(.+?)\s*```
unfoldable spaced_group : String → Option String
unfolding lazy_group
spaced_group String.[] = none
spaced_group (String.◌∷◌ c s) =
    let rest = spaced_group s in
    if is_space (code c)
    then first_some rest (lazy_group (String.◌∷◌ c s))
    else lazy_group (String.◌∷◌ c s)

abbrev on_some : (String → Option String) → Option String → Option String
on_some f none = none
on_some f (some s) = f s

-- (?:json)?\s*(.+?)\s*```
unfoldable after_fence : String → Option String
unfolding spaced_group after_prefix
after_fence s = first_some (on_some spaced_group (after_prefix "json" s)) (spaced_group s)

-- `re.search`: the group of the leftmost match.
unfoldable search_fenced : String → Option String
unfolding after_fence after_prefix
search_fenced String.[] = none
search_fenced (String.◌∷◌ c s) =
    let rest = search_fenced s in
    first_some (on_some after_fence (after_prefix "```" (String.◌∷◌ c s))) rest

-- From the first opening brace on.
unfoldable from_brace : String → Option String
from_brace String.[] = none
from_brace (String.◌∷◌ c s) =
    let rest = from_brace s in if code c == 123 then some (String.◌∷◌ c s) else rest

-- Up to the last closing brace.
unfoldable to_brace : String → Option String
to_brace String.[] = none
to_brace (String.◌∷◌ c s) =
    first_some (put c (to_brace s)) (if code c == 125 then some (String.◌∷◌ c "") else none)

unfoldable pub extract_json : String → String
unfolding search_fenced from_brace to_brace strip after_prefix
extract_json text =
    let stripped = strip text in
    let body = or_else (on_some (λ group. some (strip group)) (search_fenced stripped)) stripped in
    if is_some (after_prefix "{" body)
    then body
    else or_else (on_some to_brace (from_brace body)) body
