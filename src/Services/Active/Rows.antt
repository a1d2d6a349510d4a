-- ===== src/Services/Active/Rows.antt =====
-- Saving one run among rows with distinct keys, and how many of them are active for an issue.
use pullsmith.Common.{
  ◌≡◌, refl, subst, inl, inr, ℕ, ◌+◌, ◌≤◌, ◌<◌, true, none, some, List, [], ◌∷◌, ◌++◌, arith,
  Bool-cases, ◌==◌, ==_iff, All, All-append, length, where_rows, find_row,
}
use pullsmith.Db.{AgentRun}
use pullsmith.Events.{find_run, save_run}
use pullsmith.Runs.{is_active_for}

abbrev pub active_count : ℕ → List AgentRun → ℕ
active_count issue_id runs = length (where_rows (is_active_for issue_id) runs)

abbrev pub Distinct : List AgentRun → Type 0
Distinct [] = Unit
Distinct (x ∷ xs) = All (λ y. ¬ (y.id ≡ x.id)) xs × Distinct xs

module _ (run : AgentRun) where
  pub save_run-All :
      (P : ℕ → Type 0) (runs : List AgentRun)
      → All (λ r. P r.id) runs
      → All (λ r. P r.id) (save_run run runs)
  save_run-All P [] h = tt
  save_run-All P (x ∷ xs) h = elim (Bool-cases (x.id == run.id)) [
    | inl e ↦ rw e (subst P ((==_iff _ _).0 e) h.0, save_run-All P xs h.1)
    | inr e ↦ rw e (h.0, save_run-All P xs h.1)
  ]

  pub save_run-Distinct : (runs : List AgentRun) → Distinct runs → Distinct (save_run run runs)
  save_run-Distinct [] h = tt
  save_run-Distinct (x ∷ xs) h = elim (Bool-cases (x.id == run.id)) [
    | inl e ↦ rw e (
      save_run-All (λ i. ¬ (i ≡ run.id)) xs
          (subst (λ i. All (λ y. ¬ (y.id ≡ i)) xs) ((==_iff _ _).0 e) h.0),
      save_run-Distinct xs h.1,
    )
    | inr e ↦ rw e (save_run-All (λ i. ¬ (i ≡ x.id)) xs h.0, save_run-Distinct xs h.1)
  ]

  -- Rows of other keys are not written.
  save_run-others : (xs : List AgentRun) → All (λ y. ¬ (y.id ≡ run.id)) xs → save_run run xs ≡ xs
  save_run-others [] h = refl
  save_run-others (x ∷ xs) h = elim (Bool-cases (x.id == run.id)) [
    | inl e ↦ absurd (h.0 ((==_iff _ _).0 e))
    | inr e ↦ rw (e, save_run-others xs h.1)
  ]

  -- A saved run that is active only if the row before was does not raise the count.
  pub active_count-save_run :
      (old : AgentRun) (issue_id : ℕ) (xs : List AgentRun)
      → Distinct xs
      → find_run run.id xs ≡ some old
      → (is_active_for issue_id run ≡ true → is_active_for issue_id old ≡ true)
      → active_count issue_id (save_run run xs) ≤ active_count issue_id xs
  active_count-save_run old issue_id [] d found only = omega arith
  active_count-save_run old issue_id (x ∷ xs) d found only = elim (Bool-cases (x.id == run.id)) [
    | inl e ↦
        let same : x ≡ old = (let s : some x ≡ some old = rw e at found in cc) in
        let rest : save_run run xs ≡ xs =
          save_run-others xs (subst (λ i. All (λ y. ¬ (y.id ≡ i)) xs) ((==_iff _ _).0 e) d.0) in
        rw (e, rest, same) (ground arith)
    | inr e ↦ rw e (
        let rest = active_count-save_run old issue_id xs d.1 (rw e at found) only in
        elim (Bool-cases (is_active_for issue_id x)) [
          | inl t ↦ rw t (omega (arith, rest))
          | inr f ↦ rw f rest
        ])
  ]

pub below_more :
    (n : ℕ) (runs : List AgentRun) → All (λ r. r.id < n) runs → All (λ r. r.id < n + 1) runs
below_more n [] h = tt
below_more n (x ∷ xs) h = (omega (arith, h.0), below_more n xs h.1)

pub below_others :
    (n : ℕ) (runs : List AgentRun) → All (λ r. r.id < n) runs → All (λ r. ¬ (n ≡ r.id)) runs
below_others n [] h = tt
below_others n (x ∷ xs) h = ((λ e. omega (arith, e, h.0)), below_others n xs h.1)

pub Distinct-append :
    (run : AgentRun) (runs : List AgentRun)
    → Distinct runs
    → All (λ r. ¬ (run.id ≡ r.id)) runs
    → Distinct (runs ++ run ∷ [])
Distinct-append run [] d h = (tt, tt)
Distinct-append run (x ∷ xs) d h =
    (All-append (λ y. ¬ (y.id ≡ x.id)) xs (run ∷ []) d.0 (h.0, tt), Distinct-append run xs d.1 h.1)

pub none_active :
    (issue_id : ℕ) (runs : List AgentRun)
    → find_row (is_active_for issue_id) runs ≡ none
    → active_count issue_id runs ≡ 0
none_active issue_id [] e = refl
none_active issue_id (x ∷ xs) e = elim (Bool-cases (is_active_for issue_id x)) [
  | inl t ↦ absurd (let s : some x ≡ none = rw t at e in cc)
  | inr f ↦ rw f (none_active issue_id xs (rw f at e))
]
