-- ===== src/Services/Aside.antt =====
-- What agent/orchestrator.py assigns to a run besides its moves and its events: the snapshot and the
-- counts of its work. Such a write leaves what the rest of the services goes by.
use pullsmith.Common.{
  ◌≡◌, refl, sym, ap, ◌∙◌, subst, inl, inr, ℕ, Option, some, List, [], ◌∷◌, Bool-cases, not, ◌&&◌,
  ◌==◌, All, All-update_rows, update_rows,
}
use pullsmith.States.{completed, failed, cancelled, contains}
use pullsmith.Db.{AgentRun}
use pullsmith.Events.{find_run}
use pullsmith.Runs.{is_active_for}
use pullsmith.Services.Active.Rows.{Distinct, active_count}

pub record IsAside (f : AgentRun → AgentRun) : Type 0 where
  pub same_id : (r : AgentRun) → (f r).id ≡ r.id
  pub same_issue : (r : AgentRun) → (f r).issue_id ≡ r.issue_id
  pub same_state : (r : AgentRun) → (f r).state ≡ r.state
  pub same_sequence : (r : AgentRun) → (f r).last_event_sequence ≡ r.last_event_sequence

module _ (run_id : ℕ) (f : AgentRun → AgentRun) (aside : IsAside f) where
  abbrev aside_rows : List AgentRun → List AgentRun
  aside_rows runs = update_rows (λ r. r.id == run_id) f runs

  pub find_run-aside {ℓ} :
      {X : Type ℓ} (g : Option AgentRun → X)
      → ((r : AgentRun) → g (some (f r)) ≡ g (some r))
      → (id : ℕ) (runs : List AgentRun) → g (find_run id (aside_rows runs)) ≡ g (find_run id runs)
  find_run-aside g same id [] = refl
  find_run-aside g same id (r ∷ rs) = elim (Bool-cases (r.id == run_id)) [
    | inl e ↦
        let key : (f r).id == id ≡ (r.id == id) = ap (λ i. i == id) (aside.same_id r) in
        rw e (elim (Bool-cases (r.id == id)) [
          | inl t ↦ rw (key ∙ t, t) (same r)
          | inr n ↦ rw (key ∙ n, n) (find_run-aside g same id rs)
        ])
    | inr e ↦ rw e (elim (Bool-cases (r.id == id)) [
      | inl t ↦ rw t refl
      | inr n ↦ rw n (find_run-aside g same id rs)
    ])
  ]

  pub All-aside :
      (P : ℕ → Type 0) (runs : List AgentRun)
      → All (λ r. P r.id) runs
      → All (λ r. P r.id) (aside_rows runs)
  All-aside P runs h =
      All-update_rows (λ r. P r.id) (λ r. r.id == run_id) f runs
        (λ r p _. subst P (sym (aside.same_id r)) p) h

  pub Distinct-aside : (runs : List AgentRun) → Distinct runs → Distinct (aside_rows runs)
  Distinct-aside [] h = tt
  Distinct-aside (r ∷ rs) h = elim (Bool-cases (r.id == run_id)) [
    | inl e ↦ rw e (
      subst (λ i. All (λ y. ¬ (y.id ≡ i)) (aside_rows rs)) (sym (aside.same_id r))
          (All-aside (λ i. ¬ (i ≡ r.id)) rs h.0),
      Distinct-aside rs h.1,
    )
    | inr e ↦ rw e (All-aside (λ i. ¬ (i ≡ r.id)) rs h.0, Distinct-aside rs h.1)
  ]

  same_active :
      (issue_id : ℕ) (r : AgentRun) → is_active_for issue_id (f r) ≡ is_active_for issue_id r
  unfolding is_active_for
  same_active issue_id r =
      ap (λ i. (i == issue_id) && not (contains (completed ∷ failed ∷ cancelled ∷ []) (f r).state))
        (aside.same_issue r)
      ∙ ap (λ s. (r.issue_id == issue_id) && not (contains (completed ∷ failed ∷ cancelled ∷ []) s))
          (aside.same_state r)

  pub active_count-aside :
      (issue_id : ℕ) (runs : List AgentRun)
      → active_count issue_id (aside_rows runs) ≡ active_count issue_id runs
  active_count-aside issue_id [] = refl
  active_count-aside issue_id (r ∷ rs) =
      let rest = active_count-aside issue_id rs in
      elim (Bool-cases (r.id == run_id)) [
        | inl e ↦
            let same = same_active issue_id r in
            rw e (elim (Bool-cases (is_active_for issue_id r)) [
              | inl t ↦ rw (same ∙ t, t, rest) refl
              | inr n ↦ rw (same ∙ n, n) rest
            ])
        | inr e ↦ rw e (elim (Bool-cases (is_active_for issue_id r)) [
          | inl t ↦ rw (t, rest) refl
          | inr n ↦ rw n rest
        ])
      ]
