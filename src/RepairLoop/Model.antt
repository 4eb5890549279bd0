-- ===== src/RepairLoop/Model.antt =====
-- repair-loop/model.ts. A value outside its TypeScript union, which the code tests for at run time,
-- is `other` with the text that it is.
use kratos_harness.Common.{ℕ, List, Option, Text}

pub data CriterionOutcome : Type 0 where
  passed failed : CriterionOutcome
  other : Text → CriterionOutcome

pub data Classification : Type 0 where
  code specification : Classification
  other : Text → Classification

pub record Attempt : Type 0 where
  pub criterion_id : Text
  pub attempt : ℕ

pub record Criterion : Type 0 where
  pub criterion_id : Text
  pub outcome : CriterionOutcome

pub record Fault : Type 0 where
  pub criterion_id : Text
  pub classification : Classification
  pub diagnosis : Text

pub record Stop : Type 0 where
  pub criterion_id : Text
  pub classification : Classification
  pub diagnosis : Text
  pub attempt : ℕ

pub record Candidate : Type 0 where
  pub attempt_ceiling : ℕ
  pub attempts : List Attempt
  pub criteria : List Criterion
  pub faults : List Fault

pub data Reason : Type 0 where
  active_stop duplicate_criterion invalid_attempt invalid_ceiling : Reason
  invalid_criterion invalid_fault missing_fault unexpected_fault : Reason

pub data Decision : Type 0 where
  passed : List Attempt → Decision
  repair : List Attempt → Decision
  stopped : List Attempt → List Stop → Decision
  refused : Reason → Option Text → Decision
