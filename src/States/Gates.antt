-- ===== src/States/Gates.antt =====
-- What the transition table of agent/states.py says of whole runs.
use pullsmith.Common.{◌≡◌, refl, ap, subst, true, false, List, [], ◌∷◌, arith}
use pullsmith.States.{
  RunState, created, cloning_repository, analyzing_issue, exploring_repository, indexing_repository,
  retrieving_context, planning, waiting_for_plan_review, implementing, testing, analyzing_failure,
  revising, verifying, waiting_for_approval, pr_created, completed, failed, cancelled,
  can_transition, is_terminal,
}

-- The states that a run has been in, the latest first, each change by a legal transition.
pub data History : List RunState → Type 0 where
  start : History (created ∷ [])
  step :
      {s t : RunState} {past : List RunState}
      → can_transition s t ≡ true
      → History (s ∷ past)
      → History (t ∷ s ∷ past)

before_completed : (s : RunState) → can_transition s completed ≡ true → s ≡ pr_created
unfolding can_transition
before_completed s h = ground arith

before_pr_created : (s : RunState) → can_transition s pr_created ≡ true → s ≡ waiting_for_approval
unfolding can_transition
before_pr_created s h = ground arith

before_approval : (s : RunState) → can_transition s waiting_for_approval ≡ true → s ≡ verifying
unfolding can_transition
before_approval s h = ground arith

before_verifying : (s : RunState) → can_transition s verifying ≡ true → s ≡ testing
unfolding can_transition
before_verifying s h = ground arith

-- `t` is not the first state, and only `s` comes before it.
module _ (s t : RunState) (late : created ≡ t → ⊥)
    (only : (u : RunState) → can_transition u t ≡ true → u ≡ s) where
  previous_of :
      {u : RunState} {past : List RunState}
      → u ≡ t
      → History (u ∷ past)
      → (rest : List RunState) × (past ≡ s ∷ rest) × History (s ∷ rest)
  previous_of e start = absurd (late e)
  previous_of e (step {s = v} {past = rest} legal h) =
      let q : v ≡ s = only v (subst (λ x. can_transition v x ≡ true) e legal) in
      (rest, ap (λ x. x ∷ rest) q, subst (λ x. History (x ∷ rest)) q h)

-- A run whose pull request has been created was tested, verified and put before a human in the
-- three states right before that, whatever it went through earlier.
History-pr_created :
    {past : List RunState}
    → History (pr_created ∷ past)
    → (rest : List RunState) × (past ≡ waiting_for_approval ∷ verifying ∷ testing ∷ rest)
History-pr_created h =
    let (p, e, h1) = previous_of waiting_for_approval pr_created (cc) before_pr_created refl h in
    let (q, f, h2) = previous_of verifying waiting_for_approval (cc) before_approval refl h1 in
    let (r, g, h3) = previous_of testing verifying (cc) before_verifying refl h2 in (r, cc)

-- A completed run came from `pr_created`, and so through test, verification and human approval.
pub History-completed :
    {past : List RunState}
    → History (completed ∷ past)
    → (rest : List RunState) × (past
        ≡ pr_created ∷ waiting_for_approval ∷ verifying ∷ testing ∷ rest)
History-completed h =
    let (p, e, h1) = previous_of pr_created completed (cc) before_completed refl h in
    let (r, f) = History-pr_created h1 in (r, cc)

-- The states that legal transitions lead to.
infix 40 ◌⟶*◌
pub data ◌⟶*◌ : RunState → RunState → Type 0 where
  here : {s : RunState} → s ⟶* s
  then : {s t u : RunState} → can_transition s t ≡ true → t ⟶* u → s ⟶* u

testing_on : testing ⟶* completed
unfolding can_transition
testing_on = then {t = verifying} refl (
    then {t = waiting_for_approval} refl
      (then {t = pr_created} refl (then {t = completed} refl here)))

planning_on : planning ⟶* completed
unfolding can_transition
planning_on = then {t = implementing} refl (then {t = testing} refl testing_on)

indexing_on : indexing_repository ⟶* completed
unfolding can_transition
indexing_on = then {t = retrieving_context} refl (then {t = planning} refl planning_on)

analyzing_on : analyzing_issue ⟶* completed
unfolding can_transition
analyzing_on =
    then {t = exploring_repository} refl (then {t = indexing_repository} refl indexing_on)

-- From every state that is not terminal the table has a way to `completed`.
pub ⟶*-completed : (s : RunState) → is_terminal s ≡ false → s ⟶* completed
unfolding can_transition is_terminal
⟶*-completed created h =
    then {t = cloning_repository} refl (then {t = analyzing_issue} refl analyzing_on)
⟶*-completed cloning_repository h = then {t = analyzing_issue} refl analyzing_on
⟶*-completed analyzing_issue h = analyzing_on
⟶*-completed exploring_repository h = then {t = indexing_repository} refl indexing_on
⟶*-completed indexing_repository h = indexing_on
⟶*-completed retrieving_context h = then {t = planning} refl planning_on
⟶*-completed planning h = planning_on
⟶*-completed waiting_for_plan_review h = then {t = planning} refl planning_on
⟶*-completed implementing h = then {t = testing} refl testing_on
⟶*-completed testing h = testing_on
⟶*-completed analyzing_failure h = then {t = revising} refl (then {t = testing} refl testing_on)
⟶*-completed revising h = then {t = testing} refl testing_on
⟶*-completed verifying h =
    then {t = waiting_for_approval} refl
      (then {t = pr_created} refl (then {t = completed} refl here))
⟶*-completed waiting_for_approval h = then {t = pr_created} refl (then {t = completed} refl here)
⟶*-completed pr_created h = then {t = completed} refl here
⟶*-completed completed h = here
⟶*-completed failed h = cc
⟶*-completed cancelled h = cc

-- The terminal states are those that no transition leaves, and every other state may fail and
-- may be cancelled.
pub is_terminal-can_transition :
    (s t : RunState)
    → (is_terminal s ≡ true → can_transition s t ≡ false)
      × (is_terminal s ≡ false
          → (can_transition s failed ≡ true) × (can_transition s cancelled ≡ true))
unfolding is_terminal can_transition
is_terminal-can_transition s t = (λ h. ground arith, λ h. (ground arith, ground arith))
