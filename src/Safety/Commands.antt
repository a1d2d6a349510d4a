-- ===== src/Safety/Commands.antt =====
-- Which commands pass agent/safety.py, `assert_safe_command`.
use pullsmith.Common.{
  is_in, split_path, kept_parts, path_parts, last_part, path_name, ◌≡◌, refl, ◌↔◌, inl, inr, String,
  true, false, List, [], ◌∷◌, ◌++◌, ◌||◌, ◌==◌, ◌<>◌, str_eq, Bool-cases, ◌⊎◌, contains_text, All,
  is_empty, lower,
}
use Prim.Native.Char.{Char, code}
use text.Mathlib.TextLemmas.{cons-append}
use pullsmith.Safety.{
  allowed_executables, has_metacharacter, executable_of, remove_exe, assert_arguments,
  assert_safe_command,
}

assert_arguments_iff :
    (shown : String → String) (arguments : List String)
    → (assert_arguments shown arguments ≡ inr tt) ↔ All (λ a. has_metacharacter a ≡ false) arguments
unfolding assert_arguments
assert_arguments_iff shown [] = (λ h. tt, λ h. refl)
assert_arguments_iff shown (a ∷ more) = elim (Bool-cases (has_metacharacter a)) [
  | inl bad ↦ (λ h. absurd (cc (rw bad at h)), λ (clean, rest). absurd (cc))
  | inr clean ↦ (
    λ h. (clean, (assert_arguments_iff shown more).0 (rw clean at h)),
    λ (_, rest). rw clean ((assert_arguments_iff shown more).1 rest),
  )
]

assert_safe_command-guards :
    (shown : String → String) (program : String) (arguments : List String)
    → (assert_safe_command shown (program ∷ arguments) ≡ inr tt) ↔ (
        (is_in allowed_executables (executable_of program) ≡ true)
        × All (λ a. has_metacharacter a ≡ false) (program ∷ arguments))
unfolding assert_safe_command
assert_safe_command-guards shown program arguments =
    elim (Bool-cases (is_in allowed_executables (executable_of program))) [
      | inr unlisted ↦ (λ h. absurd (cc (rw unlisted at h)), λ (listed, rest). absurd (cc))
      | inl listed ↦ (
        λ h. (listed, (assert_arguments_iff shown (program ∷ arguments)).0 (rw listed at h)),
        λ (_, rest). rw listed ((assert_arguments_iff shown (program ∷ arguments)).1 rest),
      )
    ]

-- The programs that may be run.
abbrev pub programs : List String
programs =
    "git" ∷ "python" ∷ "python3" ∷ "pip" ∷ "pytest" ∷ "ruff" ∷ "mypy" ∷ "node" ∷ "npm" ∷ "npx"
    ∷ "pnpm" ∷ "yarn" ∷ "go" ∷ "cargo" ∷ "make" ∷ []

-- What joins, substitutes or redirects commands in a shell.
abbrev pub joiners : List Char
joiners = ";" ∷ "&" ∷ "|" ∷ "`" ∷ "$" ∷ ">" ∷ "<" ∷ "\n" ∷ "\r" ∷ []

-- The file's name, in lower case, is that of a program, with or without `.exe`.
abbrev pub IsNamed : String → Type 0
IsNamed path =
    (name : String) × (is_in programs name ≡ true)
    × ((lower (path_name path) ≡ name) ⊎ (lower (path_name path) ≡ name <> ".exe"))

abbrev pub IsPlain : String → Type 0
IsPlain argument = All (λ joiner. contains_text (String.◌∷◌ joiner "") argument ≡ false) joiners

abbrev Reads : String → Type 0
Reads name = (remove_exe name ≡ name) × (remove_exe (name <> ".exe") ≡ name)

-- The last part of a path is what follows its last slash.
split_path-git :
    (directory : String)
    → (first : String) × (more : List String) × (split_path (directory <> "/git")
        ≡ (first ∷ more) ++ "git" ∷ [])
unfolding split_path
split_path-git String.[] = ("", [], refl)
split_path-git (String.◌∷◌ c s) =
    let (first, more, e) = split_path-git s in
    elim (Bool-cases (code c == 47)) [
      | inl slash ↦ ("", first ∷ more, rw (cons-append c s "/git") (rw (slash, e)))
      | inr plain ↦ (String.◌∷◌ c "" <> first, more, rw (cons-append c s "/git") (rw (plain, e)))
    ]

git_kept : (parts : List String) → kept_parts (parts ++ "git" ∷ []) ≡ kept_parts parts ++ "git" ∷ []
unfolding kept_parts
git_kept [] = refl
git_kept (p ∷ ps) = elim (Bool-cases (is_empty p || str_eq p ".")) [
  | inl dropped ↦ rw dropped (git_kept ps)
  | inr kept ↦ rw (kept, git_kept ps)
]

last_part-snoc : (parts : List String) (p : String) → last_part (parts ++ p ∷ []) ≡ p
unfolding last_part
last_part-snoc [] p = refl
last_part-snoc (q ∷ []) p = refl
last_part-snoc (q ∷ r ∷ ps) p = last_part-snoc (r ∷ ps) p

path_name-git : (directory : String) → path_name (directory <> "/git") ≡ "git"
unfolding path_name path_parts
path_name-git directory =
    let (first, more, e) = split_path-git directory in
    rw e (rw (git_kept (first ∷ more)) (last_part-snoc (kept_parts (first ∷ more)) "git"))

git_allowed :
    (program : String)
    → path_name program ≡ "git"
    → is_in allowed_executables (executable_of program) ≡ true
unfolding executable_of is_in lower remove_exe
git_allowed program e = rw e

-- The list of programs is one of names: a file called `git` passes from whatever directory it is,
-- the cloned repository included, if that directory's text has no metacharacter.
assert_safe_command-any_directory :
    (shown : String → String) (directory : String)
    → has_metacharacter (directory <> "/git") ≡ false
    → assert_safe_command shown ((directory <> "/git") ∷ []) ≡ inr tt
assert_safe_command-any_directory shown directory clean =
    (assert_safe_command-guards shown (directory <> "/git") []).1
      (git_allowed (directory <> "/git") (path_name-git directory), (clean, tt))
