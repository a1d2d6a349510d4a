-- ===== src/Reading/Tree.antt =====
-- agent/tools/filesystem.py, `repository_tree`. The lines are one list that `walk` adds to; here it
-- is passed on. `remaining` is how many levels `walk` may still go down.
use pullsmith.Common.{
  ℕ, zero, suc, ◌+◌, ◌⊎◌, ◌≤◌, ◌<◌, ◌≡◌, inl, inr, String, Bool, false, List, [], ◌∷◌, ◌++◌, not,
  ◌&&◌, leb, if◌then◌else◌, length, is_in, is_some, after_prefix, where_rows, join, ◌<>◌, arith,
  Bool-cases, length-append,
}
use pullsmith.Db.{num}
use pullsmith.Safety.{wrap_untrusted}
use pullsmith.Exclusions.{excluded_directories}
use pullsmith.Disk.{Disk, is_dir}
use pullsmith.Tools.{ToolContext, returned, success, failure}
use pullsmith.Editing.{Left}
use pullsmith.Reading.{sorted_children, at_path}

abbrev pub max_tree_entries : ℕ
max_tree_entries = 300

pub record TreeArgs : Type 0 where
  pub path : String
  pub max_depth : ℕ

-- `walk` below a directory, with its prefix, on the lines so far.
abbrev Walk : Type 0
Walk = List String → String → List String → List String

below_limit : (n m : ℕ) → leb n m ≡ false → m < n
below_limit n m e = ground arith

length-snoc : (xs : List String) (x : String) → length (xs ++ x ∷ []) ≡ length xs + 1
length-snoc xs x = length-append xs (x ∷ [])

module _ (resolve : List String → List String) (workspace : List String)
    (children : List String → Disk → List String) (tree : List String → Disk → List (List String))
    (compile : (pattern : String) → (is_regex case_sensitive : Bool) → String ⊎ (String → Bool))
    (shown : String → String) where
  unfoldable is_listed : String → Bool
  unfolding is_in after_prefix
  is_listed name = not (is_in excluded_directories name) && not (is_some (after_prefix "." name))

  -- The loop over the children of a directory.
  unfoldable walk_children :
      (walk : Walk)
      → (directory : List String) → (prefix : String) → Disk
      → List String
      → List String
      → List String
  walk_children walk directory prefix disk [] lines = lines
  walk_children walk directory prefix disk (child ∷ more) lines =
      let below = directory ++ child ∷ [] in
      let named = lines ++ (prefix <> child <> (if is_dir (disk below) then "/" else "")) ∷ [] in
      let after = if is_dir (disk below) then walk below (prefix <> "  ") named else named in
      let rest = walk_children walk directory prefix disk more after in
      if leb max_tree_entries (length lines) then lines ++ "... truncated" ∷ [] else rest

  unfoldable pub walk : (remaining : ℕ) → Disk → Walk
  unfolding sorted_children walk_children is_listed
  walk zero disk directory prefix lines = lines
  walk (suc remaining) disk directory prefix lines =
      let below =
        walk_children (walk remaining disk) directory prefix disk
          (where_rows is_listed (
            sorted_children resolve workspace children tree compile shown directory disk
              (children directory disk)))
          lines in
      if leb max_tree_entries (length lines) then lines else below

  unfoldable pub tree_lines : TreeArgs → Disk → List String → List String
  unfolding walk
  tree_lines args disk root = walk args.max_depth disk root "" []

  unfoldable pub repository_tree : ToolContext → TreeArgs → Disk → Left
  unfolding at_path tree_lines wrap_untrusted success failure join
  repository_tree context args disk =
      at_path resolve workspace children tree compile shown args.path context.changes disk (λ root.
        let lines = tree_lines args disk root in
        if is_dir (disk root)
        then returned (
            success (wrap_untrusted ("tree of " <> args.path) (join "\n" lines) 8000)
              (("entry_count", num (length lines)) ∷ []))
        else returned (failure "NOT_A_DIRECTORY" ("Not a directory: " <> args.path)))

  children-length :
      (go : Walk) (directory : List String) (prefix : String) (disk : Disk) (r : ℕ)
      (names lines : List String)
      → ((below : List String) (p : String) (ls : List String)
          → length ls ≤ 300
          → length (go below p ls) ≤ 300 + r)
      → length lines ≤ 300 + r
      → length (walk_children go directory prefix disk names lines) ≤ 300 + suc r
  unfolding walk_children
  children-length go directory prefix disk r [] lines h few = omega (arith, few)
  children-length go directory prefix disk r (name ∷ names) lines h few =
      let below = directory ++ name ∷ [] in
      let text = prefix <> name <> (if is_dir (disk below) then "/" else "") in
      let after =
        if is_dir (disk below)
        then go below (prefix <> "  ") (lines ++ text ∷ [])
        else lines ++ text ∷ [] in
      elim (Bool-cases (leb 300 (length lines))) [
        | inl full ↦
            rw full (let one = length-snoc lines "... truncated" in omega (arith, few, one))
        | inr spare ↦
            let short : length (lines ++ text ∷ []) ≤ 300 =
              (let one = length-snoc lines text in
                let room = below_limit _ _ spare in omega (arith, one, room)) in
            let next : length after ≤ 300 + r = elim (Bool-cases (is_dir (disk below))) [
              | inl d ↦ rw d (h below (prefix <> "  ") _ (rw d at short))
              | inr f ↦ let s = rw f at short in rw f (omega (arith, s))
            ] in
            rw spare (children-length go directory prefix disk r names after h next)
      ]

  walk-length :
      (remaining : ℕ) (disk : Disk) (directory : List String) (prefix : String)
      (lines : List String)
      → length lines ≤ 300
      → length (walk remaining disk directory prefix lines) ≤ 300 + remaining
  unfolding walk
  walk-length zero disk directory prefix lines h = omega (arith, h)
  walk-length (suc r) disk directory prefix lines h = elim (Bool-cases (leb 300 (length lines))) [
    | inl full ↦ rw full (omega (arith, h))
    | inr spare ↦ rw spare (
        children-length (walk r disk) directory prefix disk r _ lines (walk-length r disk)
          (omega (arith, h)))
  ]

  -- A tree has at most 300 lines, and one more for each level that the walk may go down, since every
  -- level can add its own note that it was cut short.
  pub tree_lines-length :
      (args : TreeArgs) (disk : Disk) (root : List String)
      → length (tree_lines args disk root) ≤ max_tree_entries + args.max_depth
  unfolding tree_lines
  tree_lines-length args disk root = walk-length args.max_depth disk root "" [] (omega arith)
