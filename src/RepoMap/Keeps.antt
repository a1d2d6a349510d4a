-- ===== src/RepoMap/Keeps.antt =====
-- rag/repo_map.py: an inspection keeps a test command that is there, and finds its own.
use mathlib.Core.List.{Memᴰ}
use pullsmith.Common.{
  ◌≡◌, refl, subst, ◌⊎◌, inl, inr, String, Bool, true, false, Option, none, some, List, [], ◌∷◌,
  ◌||◌, if◌then◌else◌, is_in, contains_text, find_row, first_some, is_empty, is_some, All-mem,
  Bool-cases, Option-cases,
}
use pullsmith.RepoMap.{RepositoryMap}
use pullsmith.RepoMap.Known.{Root, PackageJson, Runner, js_test_runners, python_test_runners}
use pullsmith.RepoMap.Detect.{
  all_dependencies, package_read, pyproject_read, mentions_pytest, dependency_text, with_js_runner,
  with_python_runner, with_package, inspect_package_json, with_pyproject, with_requirements,
  read_pyproject, read_requirements, with_dependencies, inspect_python, with_manifest,
  inspect_other_manifests,
}
use pullsmith.RepoMap.Build.{build}

abbrev pub HasCommand : RepositoryMap → Type 0
HasCommand m = is_some m.test_command ≡ true

either :
    (x y : Option String)
    → (is_some x ≡ true) ⊎ (is_some y ≡ true)
    → is_some (first_some x y) ≡ true
either none y (inl h) = cc h
either none y (inr h) = h
either (some c) y h = refl

if-some :
    (b : Bool) (x y : Option String)
    → (b ≡ true → is_some x ≡ true)
    → (b ≡ false → is_some y ≡ true)
    → is_some (if b then x else y) ≡ true
if-some true x y h k = h refl
if-some false x y h k = k refl

pub find_row-found :
    {A : Type 0} (p : A → Bool) {x : A} (xs : List A)
    → Memᴰ x xs
    → p x ≡ true
    → is_some (find_row p xs) ≡ true
find_row-found p [] h e = elim h [ ]
find_row-found p (y ∷ ys) (Memᴰ.head same) e =
    let t : p y ≡ true = subst (λ z. p z ≡ true) same e in rw t refl
find_row-found p (y ∷ ys) (Memᴰ.tail later) e = elim (Bool-cases (p y)) [
  | inl t ↦ rw t refl
  | inr f ↦ rw f (find_row-found p ys later e)
]

is_empty-eq : (s : String) → is_empty s ≡ true → s ≡ ""
is_empty-eq String.[] h = refl
is_empty-eq (String.◌∷◌ c s) h = cc h

-- No runner is named by an empty text.
pub runner-is_empty :
    (r : Runner) (text : String)
    → Memᴰ r python_test_runners
    → contains_text r.name text ≡ true
    → is_empty text ≡ false
unfolding contains_text
runner-is_empty r text known named = elim (Bool-cases (is_empty text)) [
  | inl t ↦
      let none_there : contains_text r.name "" ≡ false =
        All-mem (λ x. contains_text x.name "" ≡ false) python_test_runners (refl, (refl, tt))
          known in
      let there : contains_text r.name "" ≡ true =
        subst (λ s. contains_text r.name s ≡ true) (is_empty-eq text t) named in
      cc (none_there, there)
  | inr f ↦ f
]

module _ (root : Root) where
  js_runner-keeps :
      (o : Option Runner) (m : RepositoryMap)
      → (HasCommand m) ⊎ (is_some o ≡ true)
      → HasCommand (with_js_runner o m)
  js_runner-keeps none m (inl h) = h
  js_runner-keeps none m (inr h) = cc h
  js_runner-keeps (some r) m h = either m.test_command (some r.command) (inr refl)

  python_runner-keeps :
      (o : Option Runner) (m : RepositoryMap)
      → (HasCommand m) ⊎ (is_some o ≡ true)
      → HasCommand (with_python_runner o m)
  python_runner-keeps none m (inl h) = h
  python_runner-keeps none m (inr h) = cc h
  python_runner-keeps (some r) m h = either m.test_command (some r.command) (inr refl)

  with_package-shows :
      (p : PackageJson) (m : RepositoryMap)
      → (is_in p.scripts "test" ≡ true)
        ⊎ ((HasCommand m)
            ⊎ (is_some (find_row (λ r. is_in (all_dependencies p) r.name) js_test_runners) ≡ true))
      → HasCommand (with_package root p m)
  unfolding with_package
  with_package-shows p m (inl script) =
      js_runner-keeps _ _
        (inl (if-some (is_in p.scripts "test") _ _ (λ t. refl) (λ f. cc (script, f))))
  with_package-shows p m (inr (inl h)) =
      js_runner-keeps _ _ (inl (if-some (is_in p.scripts "test") _ _ (λ t. refl) (λ f. h)))
  with_package-shows p m (inr (inr found)) = js_runner-keeps _ _ (inr found)

  package-keeps : (m : RepositoryMap) → HasCommand m → HasCommand (inspect_package_json root m)
  unfolding inspect_package_json
  package-keeps m h = elim (Option-cases (package_read root)) [
    | inl e ↦ rw e h
    | inr (p, e) ↦ rw e (elim (Bool-cases p.has_fields) [
      | inl t ↦ rw t (with_package-shows p m (inr (inl h)))
      | inr f ↦ rw f h
    ])
  ]

  pub package-shows :
      (p : PackageJson) (m : RepositoryMap)
      → package_read root ≡ some p
      → p.has_fields ≡ true
      → (is_in p.scripts "test" ≡ true)
        ⊎ (is_some (find_row (λ r. is_in (all_dependencies p) r.name) js_test_runners) ≡ true)
      → HasCommand (inspect_package_json root m)
  unfolding inspect_package_json
  package-shows p m read fields (inl script) =
      rw read (rw fields (with_package-shows p m (inl script)))
  package-shows p m read fields (inr found) =
      rw read (rw fields (with_package-shows p m (inr (inr found))))

  pyproject-keeps : (m : RepositoryMap) → HasCommand m → HasCommand (read_pyproject root m)
  unfolding read_pyproject with_pyproject
  pyproject-keeps m h = elim (Bool-cases (root.is_file "pyproject.toml")) [
    | inl t ↦ rw t (if-some (mentions_pytest (pyproject_read root)) _ _ (λ s. refl) (λ s. h))
    | inr f ↦ rw f h
  ]

  requirements-keeps : (m : RepositoryMap) → HasCommand m → HasCommand (read_requirements root m)
  unfolding read_requirements with_requirements
  requirements-keeps m h = elim (Bool-cases (root.is_file "requirements.txt")) [
    | inl t ↦ rw t h
    | inr f ↦ rw f h
  ]

  pub dependencies-shows :
      (m : RepositoryMap)
      → (HasCommand m)
        ⊎ (is_some (find_row (λ r. contains_text r.name (dependency_text root)) python_test_runners)
            ≡ true)
      → HasCommand (with_dependencies root m)
  unfolding with_dependencies
  dependencies-shows m h =
      let named = python_runner-keeps _ (record m { frameworks = _ }) h in
      if-some (root.is_file "pytest.ini" || root.is_directory "tests") _ _
        (λ t. either _ (some "pytest -q") (inr refl)) (λ f. named)

  pub tests-show :
      (m : RepositoryMap)
      → (root.is_file "pytest.ini" || root.is_directory "tests") ≡ true
      → HasCommand (with_dependencies root m)
  unfolding with_dependencies
  tests-show m tests =
      if-some (root.is_file "pytest.ini" || root.is_directory "tests") _ _
        (λ t. either _ (some "pytest -q") (inr refl)) (λ f. cc (tests, f))

  pub python-keeps : (m : RepositoryMap) → HasCommand m → HasCommand (inspect_python root m)
  unfolding inspect_python
  python-keeps m h =
      let required = read_requirements root (read_pyproject root m) in
      let h' = requirements-keeps (read_pyproject root m) (pyproject-keeps m h) in
      elim (Bool-cases (is_empty (dependency_text root))) [
        | inl t ↦ rw t h'
        | inr f ↦ rw f (dependencies-shows required (inl h'))
      ]

  manifest-keeps :
      (file manager install test build label : String) (m : RepositoryMap)
      → (HasCommand m) ⊎ (root.is_file file ≡ true)
      → HasCommand (with_manifest root file manager install test build label m)
  unfolding with_manifest
  manifest-keeps file manager install test build label m h = elim (Bool-cases (root.is_file file)) [
    | inl t ↦ rw t (either m.test_command (some test) (inr refl))
    | inr f ↦ rw f (elim h [ inl k ↦ k | inr t ↦ cc (t, f) ])
  ]

  pub others-keep : (m : RepositoryMap) → HasCommand m → HasCommand (inspect_other_manifests root m)
  unfolding inspect_other_manifests
  others-keep m h = manifest-keeps _ _ _ _ _ _ _ (inl (manifest-keeps _ _ _ _ _ _ m (inl h)))

  pub python-shows :
      (m : RepositoryMap)
      → is_empty (dependency_text root) ≡ false
      → ((after : RepositoryMap) → HasCommand (with_dependencies root after))
      → HasCommand (inspect_python root m)
  unfolding inspect_python
  python-shows m there h = rw there (h (read_requirements root (read_pyproject root m)))

  pub pyproject-shows :
      (m : RepositoryMap)
      → root.is_file "pyproject.toml" ≡ true
      → mentions_pytest (pyproject_read root) ≡ true
      → HasCommand (inspect_python root m)
  unfolding inspect_python read_pyproject with_pyproject
  pyproject-shows m there says =
      let read : HasCommand (read_pyproject root m) =
        rw (read_pyproject, there)
          (if-some (mentions_pytest (pyproject_read root)) _ _ (λ t. refl) (λ f. cc (says, f))) in
      let required = requirements-keeps (read_pyproject root m) read in
      elim (Bool-cases (is_empty (dependency_text root))) [
        | inl t ↦ rw t required
        | inr f ↦
            rw f
              (dependencies-shows (read_requirements root (read_pyproject root m)) (inl required))
      ]

  pub go-shows :
      (m : RepositoryMap)
      → root.is_file "go.mod" ≡ true
      → HasCommand (inspect_other_manifests root m)
  unfolding inspect_other_manifests
  go-shows m there = manifest-keeps _ _ _ _ _ _ _ (inl (manifest-keeps _ _ _ _ _ _ m (inr there)))

  pub cargo-shows :
      (m : RepositoryMap)
      → root.is_file "Cargo.toml" ≡ true
      → HasCommand (inspect_other_manifests root m)
  unfolding inspect_other_manifests
  cargo-shows m there = manifest-keeps _ _ _ _ _ _ _ (inr there)
