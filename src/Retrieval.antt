-- ===== src/Retrieval.antt =====
-- rag/retrieve.py: a piece of code that the search found. Its score, a float that no phase of the
-- agent reads, is left out, and so is the search.
use pullsmith.Common.{
  ℕ, String, Bool, Option, List, show, ◌<>◌, or_text, is_empty, ◌||◌, if◌then◌else◌,
}

pub record RetrievedChunk : Type 0 where
  pub chunk_id : String
  pub relative_path : String
  pub symbol : Option String
  pub parent_symbol : Option String
  pub symbol_kind : Option String
  pub start_line : ℕ
  pub end_line : ℕ
  pub content : String
  pub language : Option String
  pub is_test : Bool
  pub strategies : List String

-- An empty name is no name.
unfoldable pub qualified_name : RetrievedChunk → String
qualified_name chunk =
    let symbol = or_text chunk.symbol "" in
    let parent = or_text chunk.parent_symbol "" in
    if is_empty symbol || is_empty parent
    then or_text chunk.symbol chunk.relative_path
    else parent <> "." <> symbol

unfoldable pub citation : RetrievedChunk → String
unfolding show
citation chunk = chunk.relative_path <> ":" <> show chunk.start_line <> "-" <> show chunk.end_line
