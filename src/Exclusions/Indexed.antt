-- ===== src/Exclusions/Indexed.antt =====
-- What never enters the index (rag/exclusions.py, `should_index`).
use text.Mathlib.TextLemmas.{nil-append, cons-append, append_assoc}
use Prim.Native.Char.{Char, code}
use pullsmith.Common.{
  sym, ap, ◌∙◌, some, ◌&&◌, ==_refl, Option-cases, after_prefix, contains_text, join, ◌≡◌, refl,
  inl, inr, ℕ, String, Bool, true, false, List, [], ◌∷◌, ◌++◌, ◌||◌, ◌<>◌, ◌==◌, arith, Bool-cases,
  any, is_in, is_empty, str_eq, split_path, kept_parts, path_parts,
}
use pullsmith.Exclusions.{excluded_directories, is_excluded_path, should_index}

split_path-cons :
    (path : String) → (first : String) × (more : List String) × (split_path path ≡ first ∷ more)
unfolding split_path
split_path-cons String.[] = ("", [], refl)
split_path-cons (String.◌∷◌ c s) =
    let (first, more, e) = split_path-cons s in
    elim (Bool-cases (code c == 47)) [
      | inl slash ↦ ("", first ∷ more, rw (slash, e))
      | inr plain ↦ (String.◌∷◌ c "" <> first, more, rw (plain, e))
    ]

split_path-slash : (a b : String) → split_path (a <> "/" <> b) ≡ split_path a ++ split_path b
unfolding split_path
split_path-slash String.[] b = rw (nil-append, cons-append, nil-append)
split_path-slash (String.◌∷◌ c s) b =
    let (first, more, e) = split_path-cons s in
    rw (cons-append c s ("/" <> b)) (elim (Bool-cases (code c == 47)) [
      | inl slash ↦ rw (slash, split_path-slash s b)
      | inr plain ↦ rw (plain, split_path-slash s b, e)
    ])

kept_parts-append : (xs ys : List String) → kept_parts (xs ++ ys) ≡ kept_parts xs ++ kept_parts ys
unfolding kept_parts
kept_parts-append [] ys = refl
kept_parts-append (x ∷ xs) ys = elim (Bool-cases (is_empty x || str_eq x ".")) [
  | inl dropped ↦ rw dropped (kept_parts-append xs ys)
  | inr kept ↦ rw (kept, kept_parts-append xs ys)
]

path_parts-slash : (a b : String) → path_parts (a <> "/" <> b) ≡ path_parts a ++ path_parts b
unfolding path_parts
path_parts-slash a b = rw (split_path-slash a b) (kept_parts-append (split_path a) (split_path b))

any-append : (p : String → Bool) (xs ys : List String) → any p (xs ++ ys) ≡ (any p xs || any p ys)
any-append p [] ys = refl
any-append p (x ∷ xs) ys = let rest = any-append p xs ys in ground (arith, rest)

is_in-append : (xs ys : List String) (s : String) → is_in xs s ≡ true → is_in (xs ++ ys) s ≡ true
unfolding is_in
is_in-append [] ys s h = cc
is_in-append (x ∷ xs) ys s h = elim (Bool-cases (str_eq x s)) [
  | inl same ↦ rw same refl
  | inr other ↦ rw other (is_in-append xs ys s (rw other at h))
]

-- The directories of one name whose files are dependencies, build products, caches or generated
-- migrations.
abbrev pub uninteresting : List String
uninteresting =
    "node_modules" ∷ "bower_components" ∷ "vendor" ∷ "venv" ∷ ".venv" ∷ "env" ∷ "site-packages"
    ∷ ".git" ∷ ".hg" ∷ ".svn" ∷ ".idea" ∷ ".vscode" ∷ "dist" ∷ "build" ∷ "out" ∷ "target" ∷ ".next"
    ∷ ".nuxt" ∷ ".output" ∷ ".svelte-kit" ∷ "__pycache__" ∷ ".pytest_cache" ∷ ".ruff_cache"
    ∷ ".mypy_cache" ∷ ".cache" ∷ ".turbo" ∷ ".parcel-cache" ∷ "coverage" ∷ "htmlcov" ∷ ".nyc_output"
    ∷ "migrations" ∷ []

any-uninteresting :
    (parts : List String)
    → any (is_in uninteresting) parts ≡ true
    → any (λ part. is_in excluded_directories part) parts ≡ true
any-uninteresting [] h = cc
any-uninteresting (p ∷ ps) h = elim (Bool-cases (is_in uninteresting p)) [
  | inl named ↦ rw (is_in-append uninteresting ("alembic/versions" ∷ []) p named) refl
  | inr other ↦ let rest = any-uninteresting ps (rw other at h) in ground (arith, rest)
]

part-excluded :
    (relative_path : String) (size_bytes : ℕ)
    → any (is_in uninteresting) (path_parts relative_path) ≡ true
    → should_index relative_path size_bytes ≡ false
unfolding should_index is_excluded_path
part-excluded relative_path size_bytes h = rw (any-uninteresting (path_parts relative_path) h)

any_below :
    (directory after : String)
    → any (is_in uninteresting) (path_parts directory) ≡ true
    → any (is_in uninteresting) (path_parts (directory <> "/" <> after)) ≡ true
any_below directory after h = rw (path_parts-slash directory after) (
    rw (any-append (is_in uninteresting) (path_parts directory) (path_parts after))
      (ground (arith, h)))

any_inside :
    (before path : String)
    → any (is_in uninteresting) (path_parts path) ≡ true
    → any (is_in uninteresting) (path_parts (before <> "/" <> path)) ≡ true
any_inside before path h = rw (path_parts-slash before path) (
    rw (any-append (is_in uninteresting) (path_parts before) (path_parts path)) (ground (arith, h)))

contains_text-append :
    (part before s : String) → contains_text part s ≡ true → contains_text part (before <> s) ≡ true
unfolding contains_text
contains_text-append part String.[] s h = rw (nil-append s) h
contains_text-append part (String.◌∷◌ c before) s h =
    rw (cons-append c before s)
      (elim (Option-cases (after_prefix part (String.◌∷◌ c (before <> s)))) [
        | inl later ↦ rw (contains_text, later) (contains_text-append part before s h)
        | inr (after, here) ↦ rw (contains_text, here) refl
      ])

after_prefix-append : (prefix s : String) → after_prefix prefix (prefix <> s) ≡ some s
unfolding after_prefix
after_prefix-append String.[] s = ap some (nil-append s)
after_prefix-append (String.◌∷◌ c prefix) s =
    rw (cons-append c prefix s) (rw (after_prefix, ==_refl (code c)) (after_prefix-append prefix s))

contains_text-prefix :
    (c : Char) (part s : String) → contains_text (String.◌∷◌ c part) (String.◌∷◌ c part <> s) ≡ true
unfolding contains_text
contains_text-prefix c part s =
    let here : after_prefix (String.◌∷◌ c part) (String.◌∷◌ c (part <> s)) ≡ some s =
      ap (after_prefix (String.◌∷◌ c part)) (sym (cons-append c part s))
      ∙ after_prefix-append (String.◌∷◌ c part) s in
    rw (cons-append c part s) (rw (contains_text, here) refl)

contains_text-join :
    (part : String) (before : List String) (s : String) (after : List String)
    → contains_text part (join "/" (s ∷ after)) ≡ true
    → contains_text part (join "/" (before ++ s ∷ after)) ≡ true
unfolding join
contains_text-join part [] s after h = h
contains_text-join part (b ∷ []) s after h =
    contains_text-append part b _ (contains_text-append part "/" _ h)
contains_text-join part (b ∷ c ∷ before) s after h =
    contains_text-append part b _
      (contains_text-append part "/" _ (contains_text-join part (c ∷ before) s after h))

joined_versions :
    (after : List String)
    → contains_text "alembic/versions" (join "/" ("alembic" ∷ "versions" ∷ after)) ≡ true
unfolding join
joined_versions [] = contains_text-prefix "a" "lembic/versions" ""
joined_versions (a ∷ more) =
    let below = "/" <> join "/" (a ∷ more) in
    let whole : "alembic" <> ("/" <> ("versions" <> below)) ≡ "alembic/versions" <> below =
      sym (append_assoc "alembic" "/" ("versions" <> below))
      ∙ sym (append_assoc "alembic/" "versions" below) in
    ap (contains_text "alembic/versions") whole ∙ contains_text-prefix "a" "lembic/versions" below

has_slash : contains_text "/" "alembic/versions" ≡ true
unfolding contains_text
has_slash = refl

versions_parts : path_parts "alembic/versions" ≡ "alembic" ∷ "versions" ∷ []
unfolding path_parts
versions_parts = refl

versions-excluded :
    (path : String) (before after : List String) (size_bytes : ℕ)
    → path_parts path ≡ before ++ "alembic" ∷ "versions" ∷ after
    → should_index path size_bytes ≡ false
unfolding should_index is_excluded_path
versions-excluded path before after size_bytes parts =
    let joined = join "/" (path_parts path) in
    let there : contains_text "alembic/versions" joined ≡ true =
      ap (λ ps. contains_text "alembic/versions" (join "/" ps)) parts
      ∙ contains_text-join "alembic/versions" before "alembic" ("versions" ∷ after)
          (joined_versions after) in
    let slashed =
      any-append (λ excluded. contains_text "/" excluded && contains_text excluded joined)
        uninteresting ("alembic/versions" ∷ []) in
    let found : any (λ excluded. contains_text "/" excluded && contains_text excluded joined)
          excluded_directories
        ≡ true =
      slashed ∙ rw (has_slash, there) (ground arith) in
    let excluded_so : is_excluded_path path ≡ true = rw found (ground arith) in rw excluded_so refl

root_versions :
    (after : String)
    → path_parts ("alembic/versions" <> "/" <> after) ≡ "alembic" ∷ "versions" ∷ path_parts after
root_versions after =
    path_parts-slash "alembic/versions" after ∙ ap (λ ps. ps ++ path_parts after) versions_parts

inner_versions :
    (before after : String)
    → path_parts (before <> "/" <> "alembic/versions" <> "/" <> after)
      ≡ path_parts before ++ "alembic" ∷ "versions" ∷ path_parts after
inner_versions before after =
    path_parts-slash before ("alembic/versions" <> "/" <> after)
    ∙ ap (λ ps. path_parts before ++ ps) (root_versions after)

-- A path with a part that `uninteresting` lists is not indexed, whichever part that is and whatever
-- the file's name and size are. Nor is any file below such a path, be it at the root of the
-- repository or in another directory; nor, likewise, any file below a directory alembic/versions.
pub should_index-excluded :
    (before path after : String) (size_bytes : ℕ)
    → any (is_in uninteresting) (path_parts path) ≡ true
    → (should_index path size_bytes ≡ false)
      × (should_index (path <> "/" <> after) size_bytes ≡ false)
      × (should_index (before <> "/" <> path <> "/" <> after) size_bytes ≡ false)
      × (should_index ("alembic/versions" <> "/" <> after) size_bytes ≡ false)
      × (should_index (before <> "/" <> "alembic/versions" <> "/" <> after) size_bytes ≡ false)
should_index-excluded before path after size_bytes h = (
  part-excluded path size_bytes h,
  part-excluded (path <> "/" <> after) size_bytes (any_below path after h),
  part-excluded (before <> "/" <> path <> "/" <> after) size_bytes
      (any_inside before (path <> "/" <> after) (any_below path after h)),
  versions-excluded ("alembic/versions" <> "/" <> after) [] (path_parts after) size_bytes
      (root_versions after),
  versions-excluded (before <> "/" <> "alembic/versions" <> "/" <> after) (path_parts before)
      (path_parts after) size_bytes (inner_versions before after),
)
