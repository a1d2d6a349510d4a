-- ===== src/Schemas.antt =====
-- agent/schemas.py: the structured outputs of the model that the rest of the program acts on. The
-- length limits are the validation of pydantic, which is no code of the repository.
use pullsmith.Common.{String, Bool, List, Option}

pub data Confidence : Type 0 where
  low medium high : Confidence

unfoldable pub confidence_name : Confidence → String
confidence_name low = "low"
confidence_name medium = "medium"
confidence_name high = "high"

pub record IssueAnalysis : Type 0 where
  pub problem_summary : String
  pub expected_behaviour : String
  pub actual_behaviour : String
  pub reproduction_steps : List String
  pub acceptance_criteria : List String
  pub error_messages : List String
  pub referenced_symbols : List String
  pub referenced_paths : List String
  pub search_queries : List String
  pub is_actionable : Bool
  pub clarification_needed : Option String

pub record ProposedChange : Type 0 where
  pub path : String
  pub intent : String
  pub is_new_file : Bool

pub record ImplementationPlan : Type 0 where
  pub problem_understanding : String
  pub relevant_files : List String
  pub suspected_root_cause : String
  pub root_cause_confidence : Confidence
  pub proposed_changes : List ProposedChange
  pub tests_to_add_or_update : List String
  pub risks : List String
  pub verification_strategy : String
  pub out_of_scope : List String

pub record FailureAnalysis : Type 0 where
  pub failing_tests : List String
  pub error_type : String
  pub error_summary : String
  pub likely_cause : String
  pub caused_by_our_change : Bool
  pub files_to_inspect : List String
  pub additional_search_queries : List String
  pub suggested_fix : String
  pub is_recoverable : Bool

pub record VerificationResult : Type 0 where
  pub issue_addressed : Bool
  pub tests_pass : Bool
  pub unrelated_changes_detected : Bool
  pub concerns : List String
  pub summary : String
  pub confidence : Confidence
