-- ===== src/Gates/Tests.antt =====
-- The gates of a strict project at acceptance, and the theorems about them there.
use kratos_harness.Common.{
  ◌≡◌, ◌≢◌, refl, Bool, true, false, [], ◌∷◌, some, none, text_beq, codes, arith,
}
use kratos_harness.Workflow.Model.{Phase}
use kratos_harness.Gates.Model.{
  GateMode, GateId, PolicyMode, Outcome, CriterionState, PrdDocument, Context, gate_priority,
}
use kratos_harness.Gates.Policy.{
  resolve_gate_modes, aggregate_gate_failures, sort, insert, aggregate_sorted, outcome_for_mode,
  is_before, failure_severity, severity,
}
use kratos_harness.Gates.Evaluate.{
  evaluate_gates, gate_failures, when, failure, approved, approves, prd_failures, needs_spec,
  is_acceptance, criteria_failures, rejection_failure,
}
use kratos_harness.Gates.Outcomes.{worst, aggregate_gate_failures-worst}
use kratos_harness.Gates.Readiness.{IsReady, enforced_gates_hold, ready_gates_pass}

-- All that an evaluation computes with.
gates : Unit {0}
unfolding evaluate_gates gate_failures when failure approved approves prd_failures needs_spec
    is_acceptance criteria_failures rejection_failure resolve_gate_modes aggregate_gate_failures
    sort insert aggregate_sorted outcome_for_mode is_before failure_severity severity gate_priority
    text_beq
gates = tt

-- No identifier goes before another: the priorities decide.
abbrev no_order : GateId → GateId → Bool
no_order left right = false

abbrev strict_modes : GateId → GateMode
strict_modes id = GateMode.enforce

strict_modes-resolve_gate_modes :
    (id : GateId) → resolve_gate_modes PolicyMode.strict (λ id. none) id ≡ strict_modes id
unfolding gates
strict_modes-resolve_gate_modes id = refl

abbrev at_acceptance : Context
at_acceptance = record {
  gate_modes = strict_modes;
  phase = Phase.acceptance;
  context_readable = true;
  tripped = false;
  exhausted = false;
  repeated_rejections = [];
  prd_digest = some (codes "aa");
  prd_document = PrdDocument.complete;
  spec_digest = some (codes "bb");
  approvals =
      record {
        gate = codes "spec";
        approved = true;
        prd_digest = codes "aa";
        spec_digest = codes "bb";
      }
      ∷ [];
  open_gaps = 0;
  partition_required = true;
  partition_approved = true;
  final_acceptance = true;
  acceptance_criteria =
      record {
        criterion_id = codes "AC-1";
        state = CriterionState.passed;
        checked = true;
        evidence_valid = true;
      }
      ∷ [];
}

unblocked : (evaluate_gates no_order at_acceptance).outcome ≢ Outcome.block
unfolding gates
unblocked h = ground arith

-- An approval of another specification does not count.
stale_approval :
    (evaluate_gates no_order (record at_acceptance { spec_digest = some (codes "cc") })).outcome
    ≡ Outcome.block
unfolding gates
stale_approval = refl

enforced_gates_hold_example : IsReady at_acceptance
enforced_gates_hold_example = enforced_gates_hold no_order at_acceptance (λ id. refl) unblocked

ready_gates_pass_example : (evaluate_gates no_order at_acceptance).outcome ≡ Outcome.pass
ready_gates_pass_example = ready_gates_pass no_order at_acceptance enforced_gates_hold_example

aggregate_gate_failures-worst_example :
    (aggregate_gate_failures no_order (gate_failures at_acceptance)).outcome
    ≡ worst (gate_failures at_acceptance)
aggregate_gate_failures-worst_example =
    aggregate_gate_failures-worst no_order (gate_failures at_acceptance)
