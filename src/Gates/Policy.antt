-- ===== src/Gates/Policy.antt =====
-- gates/policy.ts: modes, the order of failures, and what a list of failures amounts to.
use kratos_harness.Common.{
  ℕ, Bool, ◌&&◌, ◌||◌, List, [], ◌∷◌, Option, none, some, ltb, if◌then◌else◌, get_or, ◌==◌, nat_eq,
}
use kratos_harness.Gates.Model.{
  GateMode, GateId, PolicyMode, Outcome, GateModes, Failure, Aggregation,
}

-- `outcomeForMode`
unfoldable pub outcome_for_mode : GateMode → Outcome
outcome_for_mode GateMode.enforce = Outcome.block
outcome_for_mode GateMode.warn = Outcome.warn
outcome_for_mode GateMode.shadow = Outcome.pass

-- `SEVERITY`
unfoldable pub severity : Outcome → ℕ
severity Outcome.block = 0
severity Outcome.warn = 1
severity Outcome.pass = 2

-- `resolveGateModes`, the overrides as a partial function
unfoldable pub resolve_gate_modes : PolicyMode → (GateId → Option GateMode) → GateModes
resolve_gate_modes PolicyMode.strict overrides = λ id. get_or (overrides id) GateMode.enforce
resolve_gate_modes PolicyMode.standard overrides = λ id. get_or (overrides id) GateMode.warn

unfoldable pub failure_severity : Failure → ℕ
failure_severity f = severity (outcome_for_mode f.mode)

-- The aggregation of failures that are sorted
unfoldable pub aggregate_sorted : List Failure → Aggregation
aggregate_sorted [] = record { outcome = Outcome.pass; primary = none; failures = [] }
aggregate_sorted (f ∷ fs) = record {
  outcome = outcome_for_mode f.mode;
  primary = some f;
  failures = f ∷ fs;
}

-- Sorting uses how ICU compares two gate identifiers in the locale `en-US`: whether the result of
-- `left.localeCompare(right, "en-US")` is negative.
module _ (locale_before : GateId → GateId → Bool) where
  -- Whether `compareGateFailures(left, right)` is negative.
  unfoldable pub is_before : Failure → Failure → Bool
  is_before left right =
      ltb (failure_severity left) (failure_severity right)
      || (failure_severity left == failure_severity right
          && (ltb left.priority right.priority
              || (left.priority == right.priority && locale_before left.gate_id right.gate_id)))

  -- A failure goes behind those that must come before it.
  unfoldable pub insert : Failure → List Failure → List Failure
  insert f [] = f ∷ []
  insert f (g ∷ gs) = let rest = insert f gs in if is_before g f then g ∷ rest else f ∷ g ∷ gs

  -- `[...input].sort(compareGateFailures)`, which is stable
  unfoldable pub sort : List Failure → List Failure
  sort [] = []
  sort (f ∷ fs) = insert f (sort fs)

  -- `aggregateGateFailures`
  unfoldable pub aggregate_gate_failures : List Failure → Aggregation
  aggregate_gate_failures input = aggregate_sorted (sort input)
