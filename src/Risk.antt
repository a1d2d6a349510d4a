-- ===== src/Risk.antt =====
-- agent/risk.py: scoring a change set for the reviewer's attention.
pub mod Secrets
pub mod Assess
pub mod Rated
use pullsmith.Common.{ℕ, String, Bool, List, [], ◌∷◌, show, join, ◌<>◌}

pub data RiskLevel : Type 0 where
  low medium high : RiskLevel

unfoldable pub level_name : RiskLevel → String
level_name low = "LOW"
level_name medium = "MEDIUM"
level_name high = "HIGH"

pub record RiskAssessment : Type 0 where
  pub level : RiskLevel
  pub score : ℕ
  pub reasons : List String
  pub warnings : List String
  pub blocking : Bool

-- `self.reasons or ["none"]`
abbrev or_none : List String → List String
or_none [] = "none" ∷ []
or_none (r ∷ rs) = r ∷ rs

unfoldable pub describe_risk : RiskAssessment → String
unfolding level_name show join
describe_risk a =
    level_name a.level <> " risk (score " <> show a.score <> "): " <> join "; " (or_none a.reasons)
