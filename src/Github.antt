-- ===== src/Github.antt =====
-- github/pr.py: the branch, the commits and the pull request. The transport, `_request` of
-- github/client.py, and base64 of a text's UTF-8 are parameters. An answer has the types that
-- GitHub documents; another one is an exception, as a missing key is.
use pullsmith.Common.{
  ℕ, ◌⊎◌, inl, inr, String, Option, none, some, List, [], ◌∷◌, ◌==◌, if◌then◌else◌, str_eq,
  is_empty, ◌<>◌,
}
use pullsmith.Db.{Json, num, text, object, Fields, no_fields, field}

pub record CreatedPullRequest : Type 0 where
  pub number : ℕ
  pub html_url : String
  pub branch : String
  pub head_sha : String

-- A `GitHubError` with its status and message, or another exception.
pub data Trouble : Type 0 where
  github_error : ℕ → String → Trouble
  other : String → Trouble

abbrev Call : Type 0 → Type 0 → Type 0
Call World A = World → (Trouble ⊎ A) × World

module _ {World : Type 0} where
  abbrev pub return : {A : Type 0} → A → Call World A
  return a = λ w. (inr a, w)

  abbrev pub raise : {A : Type 0} → Trouble → Call World A
  raise why = λ w. (inl why, w)

  abbrev then_call :
      {A B : Type 0} → (Trouble ⊎ A) × World → (A → Call World B) → (Trouble ⊎ B) × World
  then_call (inl why, w) f = (inl why, w)
  then_call (inr a, w) f = f a w

  infixl 5 ◌>>=◌ ◌>>◌
  abbrev pub ◌>>=◌ : {A B : Type 0} → Call World A → (A → Call World B) → Call World B
  m >>= f = λ w. then_call (m w) f

  abbrev pub ◌>>◌ : {A B : Type 0} → Call World A → Call World B → Call World B
  m >> n = m >>= λ _. n

  -- `try: … except GitHubError`, with what the handler does for a status.
  abbrev except_github :
      {A : Type 0} → (Trouble ⊎ A) × World → (ℕ → String → Call World A) → (Trouble ⊎ A) × World
  except_github (inr a, w) handler = (inr a, w)
  except_github (inl (github_error status why), w) handler = handler status why w
  except_github (inl (other why), w) handler = (inl (other why), w)

-- `data.get(key)`, of an object.
unfoldable get_field : String → Fields → Option Json
get_field key no_fields = none
get_field key (field k v more) = if str_eq k key then some v else get_field key more

unfoldable get_key : String → Json → Option Json
unfolding get_field
get_key key (object fields) = get_field key fields
get_key key _ = none

module _ {World : Type 0} where
  -- `data[key]`
  unfoldable pub item : String → Json → Call World Json
  unfolding get_key
  item key answer = elim (get_key key answer) [
    | none ↦ raise (other ("KeyError: '" <> key <> "'"))
    | some v ↦ return v
  ]

  unfoldable as_text : Json → Call World String
  as_text (text s) = return s
  as_text _ = raise (other "TypeError: not a text")

  unfoldable as_number : Json → Call World ℕ
  as_number (num n) = return n
  as_number _ = raise (other "TypeError: not a number")

-- `data.get("sha") if isinstance(data, dict) else None`
abbrev sha_of : Json → Option String
sha_of answer = elim (get_key "sha" answer) [ some (text s) ↦ some s | _ ↦ none ]

-- `sha or last_sha`
abbrev or_last : Option String → Option String → Option String
or_last none last = last
or_last (some s) last = if is_empty s then last else some s

abbrev with_sha : Option String → List (String × Json)
with_sha none = []
with_sha (some sha) = ("sha", text sha) ∷ []

abbrev pub Request : Type 0 → Type 0
Request World = (method path : String) → (fields : List (String × Json)) → Call World Json

module _ {World : Type 0} (request : Request World) (base64 : String → String)
    (owner repository : String) where
  abbrev base : String
  base = "/repos/" <> owner <> "/" <> repository

  unfoldable default_branch_sha : (branch : String) → Call World String
  unfolding item as_text
  default_branch_sha branch = do
    answer ← request "GET" (base <> "/git/ref/heads/" <> branch) []
    ref ← item "object" answer
    sha ← item "sha" ref
    as_text sha

  -- A branch that exists is used.
  unfoldable create_branch : (branch from_sha : String) → Call World (Unit {0})
  create_branch branch from_sha w =
      except_github
        ((request "POST" (base <> "/git/refs")
              (("ref", text ("refs/heads/" <> branch)) ∷ ("sha", text from_sha) ∷ [])
            >> return tt)
          w)
        (λ status why. if status == 422 then return tt else raise (github_error status why))

  unfoldable existing_file_sha : (path branch : String) → Call World (Option String)
  unfolding get_key
  existing_file_sha path branch w =
      except_github
        ((request "GET" (base <> "/contents/" <> path) (("ref", text branch) ∷ []) >>= λ answer.
            return (sha_of answer))
          w)
        (λ status why. if status == 404 then return none else raise (github_error status why))

  abbrev commit_of : Json → Call World String
  commit_of answer = do commit ← item "commit" answer; sha ← item "sha" commit; as_text sha

  unfoldable commit_file : (path content message branch : String) → Call World String
  unfolding existing_file_sha item as_text
  commit_file path content message branch = do
    existing ← existing_file_sha path branch
    answer ← request "PUT" (base <> "/contents/" <> path) (
        ("message", text message)
        ∷ ("content", text (base64 content))
        ∷ ("branch", text branch)
        ∷ with_sha existing)
    commit_of answer

  abbrev removal : (path message branch : String) → Option String → Call World (Option String)
  removal path message branch none = return none
  removal path message branch (some sha) = do
    answer ←
        request "DELETE" (base <> "/contents/" <> path)
          (("message", text message) ∷ ("sha", text sha) ∷ ("branch", text branch) ∷ [])
    commit ← commit_of answer
    return (some commit)

  unfoldable delete_on_branch : (path message branch : String) → Call World (Option String)
  unfolding existing_file_sha item as_text
  delete_on_branch path message branch = do
    existing ← existing_file_sha path branch
    removal path message branch existing

  unfoldable open_pull_request :
      (title body head base_branch : String) → Call World CreatedPullRequest
  unfolding item as_text as_number
  open_pull_request title body head base_branch = do
    answer ← request "POST" (base <> "/pulls") (
        ("title", text title)
        ∷ ("body", text body)
        ∷ ("head", text head)
        ∷ ("base", text base_branch)
        ∷ [])
    number_item ← item "number" answer
    number ← as_number number_item
    url_item ← item "html_url" answer
    html_url ← as_text url_item
    head_item ← item "head" answer
    sha_item ← item "sha" head_item
    head_sha ← as_text sha_item
    return (record { number = number; html_url = html_url; branch = head; head_sha = head_sha })

  module _ (read_text : World → (path : String) → Option String)
      (branch commit_message : String) where
    -- The files are read when they are committed; one that is gone is passed over.
    unfoldable commit_all : List String → Option String → Call World (Option String)
    unfolding commit_file
    commit_all [] last = return last
    commit_all (path ∷ paths) last = λ w. elim (read_text w path) [
      | none ↦ commit_all paths last w
      | some content ↦
          then_call (commit_file path content (commit_message <> " (" <> path <> ")") branch w)
            (λ sha. commit_all paths (some sha))
    ]

    unfoldable delete_all : List String → Option String → Call World (Option String)
    unfolding delete_on_branch
    delete_all [] last = return last
    delete_all (path ∷ paths) last = do
      sha ← delete_on_branch path (commit_message <> " (remove " <> path <> ")") branch
      delete_all paths (or_last sha last)

    abbrev some_commit : Option String → Call World (Unit {0})
    some_commit none =
        raise (github_error 422 "nothing was committed; refusing to open an empty pull request")
    some_commit (some sha) = return tt

    unfoldable pub publish_changes :
        (changed_paths deleted_paths : List String) (base_branch title body : String)
        → Call World CreatedPullRequest
    unfolding default_branch_sha create_branch commit_all delete_all open_pull_request
    publish_changes changed_paths deleted_paths base_branch title body = do
      base_sha ← default_branch_sha base_branch
      create_branch branch base_sha
      committed ← commit_all changed_paths none
      last_sha ← delete_all deleted_paths committed
      some_commit last_sha
      open_pull_request title body branch base_branch
