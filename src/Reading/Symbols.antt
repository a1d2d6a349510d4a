-- ===== src/Reading/Symbols.antt =====
-- agent/tools/filesystem.py, `find_symbol`. `escape` is Python's `re.escape`.
use pullsmith.Common.{
  ℕ, suc, ◌⊎◌, inl, inr, String, Bool, true, List, [], ◌∷◌, ◌++◌, if◌then◌else◌, length, take, drop,
  is_nil, split_lines, strip, take_text, join, show, ◌<>◌, or_else,
}
use pullsmith.Db.{num}
use pullsmith.Safety.{wrap_untrusted}
use pullsmith.Disk.{Disk, read_text}
use pullsmith.Tools.{ToolContext, Handled, returned, crashed, success}
use pullsmith.Editing.{Left}
use pullsmith.Reading.{max_search_matches, iter_source_files}

-- The three alternatives that a declaration may match.
abbrev definition_pattern : (escaped : String) → String
definition_pattern escaped =
    "(?:def|class|function|func|interface|type|struct|trait|impl)\\s+" <> escaped
    <> "\\b|(?:const|let|var)\\s+" <> escaped <> "\\s*[=:]|" <> escaped
    <> "\\s*[:=]\\s*(?:async\\s*)?(?:function|\\()"

-- The lines of one file that declare the symbol.
unfoldable declarations_in :
    (definition : String → Bool) → (relative : String) → ℕ → List String → List String
unfolding show strip take_text
declarations_in definition relative number [] = []
declarations_in definition relative number (l ∷ ls) =
    let rest = declarations_in definition relative (suc number) ls in
    if definition l
    then (relative <> ":" <> show number <> ": " <> take_text 200 (strip l)) ∷ rest
    else rest

module _ (resolve : List String → List String) (workspace : List String)
    (children : List String → Disk → List String) (tree : List String → Disk → List (List String))
    (compile : (pattern : String) → (is_regex case_sensitive : Bool) → String ⊎ (String → Bool))
    (shown : String → String) (escape : String → String) where
  unfoldable declarations : (definition : String → Bool) → Disk → List (List String) → List String
  unfolding declarations_in read_text split_lines join
  declarations definition disk [] = []
  declarations definition disk (path ∷ paths) =
      declarations_in definition (join "/" (drop (length (resolve workspace)) path)) 1
        (split_lines (or_else (read_text path disk) ""))
      ++ declarations definition disk paths

  unfoldable symbol_found : (symbol : String) → (findings : List String) → Handled
  unfolding wrap_untrusted success join
  symbol_found symbol findings =
      if is_nil findings
      then returned (
          success ("No definition found for " <> shown symbol <> ". It may be imported or dynamic.")
            (("match_count", num 0) ∷ []))
      else returned (
          success
            (wrap_untrusted ("definitions of " <> symbol)
              (join "\n" (take max_search_matches findings)) 8000)
            (("match_count", num (length findings)) ∷ []))

  -- `re.error`, by its name in Python 3.12, is not caught here.
  unfoldable pub find_symbol : ToolContext → (symbol : String) → Disk → Left
  unfolding declarations symbol_found iter_source_files
  find_symbol context symbol disk = (
    elim (compile (definition_pattern (escape symbol)) true true) [
      | inl why ↦ crashed ("error: " <> why)
      | inr definition ↦ symbol_found symbol (
          declarations definition disk (
            iter_source_files resolve workspace children tree compile shown (resolve workspace)
              disk))
    ],
    context.changes,
    disk,
  )
