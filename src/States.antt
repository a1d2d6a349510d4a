-- ===== src/States.antt =====
-- agent/states.py: the run state machine. A frozenset of states is the list of its members, and
-- the string enums are data types, with their values in `state_name` and `category_name`.
pub mod Gates
use pullsmith.Common.{Bool, true, false, String, List, [], ◌∷◌, ◌++◌, any, if◌then◌else◌}

pub data RunState : Type 0 where
  created cloning_repository analyzing_issue exploring_repository : RunState
  indexing_repository retrieving_context planning waiting_for_plan_review : RunState
  implementing testing analyzing_failure revising verifying : RunState
  waiting_for_approval pr_created completed failed cancelled : RunState

unfoldable pub state_name : RunState → String
state_name created = "CREATED"
state_name cloning_repository = "CLONING_REPOSITORY"
state_name analyzing_issue = "ANALYZING_ISSUE"
state_name exploring_repository = "EXPLORING_REPOSITORY"
state_name indexing_repository = "INDEXING_REPOSITORY"
state_name retrieving_context = "RETRIEVING_CONTEXT"
state_name planning = "PLANNING"
state_name waiting_for_plan_review = "WAITING_FOR_PLAN_REVIEW"
state_name implementing = "IMPLEMENTING"
state_name testing = "TESTING"
state_name analyzing_failure = "ANALYZING_FAILURE"
state_name revising = "REVISING"
state_name verifying = "VERIFYING"
state_name waiting_for_approval = "WAITING_FOR_APPROVAL"
state_name pr_created = "PR_CREATED"
state_name completed = "COMPLETED"
state_name failed = "FAILED"
state_name cancelled = "CANCELLED"

pub data FailureCategory : Type 0 where
  repository_understanding_failure retrieval_failure planning_failure tool_failure : FailureCategory
  implementation_failure test_failure recovery_failure sandbox_failure : FailureCategory
  quota_exhausted timeout security_block human_rejection : FailureCategory

pub category_name : FailureCategory → String
category_name repository_understanding_failure = "REPOSITORY_UNDERSTANDING_FAILURE"
category_name retrieval_failure = "RETRIEVAL_FAILURE"
category_name planning_failure = "PLANNING_FAILURE"
category_name tool_failure = "TOOL_FAILURE"
category_name implementation_failure = "IMPLEMENTATION_FAILURE"
category_name test_failure = "TEST_FAILURE"
category_name recovery_failure = "RECOVERY_FAILURE"
category_name sandbox_failure = "SANDBOX_FAILURE"
category_name quota_exhausted = "QUOTA_EXHAUSTED"
category_name timeout = "TIMEOUT"
category_name security_block = "SECURITY_BLOCK"
category_name human_rejection = "HUMAN_REJECTION"

-- Members of the enum are equal when they are the same member.
unfoldable pub state_eq : RunState → RunState → Bool
state_eq created created = true
state_eq cloning_repository cloning_repository = true
state_eq analyzing_issue analyzing_issue = true
state_eq exploring_repository exploring_repository = true
state_eq indexing_repository indexing_repository = true
state_eq retrieving_context retrieving_context = true
state_eq planning planning = true
state_eq waiting_for_plan_review waiting_for_plan_review = true
state_eq implementing implementing = true
state_eq testing testing = true
state_eq analyzing_failure analyzing_failure = true
state_eq revising revising = true
state_eq verifying verifying = true
state_eq waiting_for_approval waiting_for_approval = true
state_eq pr_created pr_created = true
state_eq completed completed = true
state_eq failed failed = true
state_eq cancelled cancelled = true
state_eq _ _ = false

-- `state in states`
unfoldable pub contains : List RunState → RunState → Bool
unfolding state_eq
contains states s = any (state_eq s) states

abbrev terminal_states : List RunState
terminal_states = completed ∷ failed ∷ cancelled ∷ []

abbrev human_gate_states : List RunState
human_gate_states = waiting_for_plan_review ∷ waiting_for_approval ∷ []

-- `_TRANSITIONS`
unfoldable pub transitions : RunState → List RunState
transitions created = cloning_repository ∷ []
transitions cloning_repository = analyzing_issue ∷ []
transitions analyzing_issue = exploring_repository ∷ []
transitions exploring_repository = indexing_repository ∷ []
transitions indexing_repository = retrieving_context ∷ []
transitions retrieving_context = planning ∷ []
transitions planning = waiting_for_plan_review ∷ implementing ∷ []
transitions waiting_for_plan_review = implementing ∷ planning ∷ []
transitions implementing = testing ∷ []
transitions testing = verifying ∷ analyzing_failure ∷ []
transitions analyzing_failure = retrieving_context ∷ revising ∷ []
transitions revising = testing ∷ []
transitions verifying = waiting_for_approval ∷ analyzing_failure ∷ []
transitions waiting_for_approval = pr_created ∷ planning ∷ []
transitions pr_created = completed ∷ []
transitions completed = []
transitions failed = []
transitions cancelled = []

unfoldable allowed_targets : RunState → List RunState
unfolding contains transitions
allowed_targets current =
    if contains terminal_states current then [] else transitions current ++ failed ∷ cancelled ∷ []

unfoldable pub can_transition : RunState → RunState → Bool
unfolding allowed_targets contains
can_transition current target = contains (allowed_targets current) target

unfoldable pub is_terminal : RunState → Bool
unfolding contains
is_terminal state = contains terminal_states state

unfoldable pub awaits_human : RunState → Bool
unfolding contains
awaits_human state = contains human_gate_states state
