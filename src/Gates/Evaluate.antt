-- ===== src/Gates/Evaluate.antt =====
-- gates/evaluate.ts: the failures of a run, in the order in which the gates are looked at.
use kratos_harness.Common.{
  Bool, true, false, ◌&&◌, ◌||◌, not, List, [], ◌∷◌, ◌++◌, Option, none, some, Text, codes, ltb,
  any, find, map, if◌then◌else◌, ◌==◌, nat_eq, text_eq,
}
use kratos_harness.Workflow.Model.{Phase}
use kratos_harness.Locks.Decimal.{decimal}
use kratos_harness.Gates.Model.{
  GateId, FailureReason, Rejection, RejectionClassification, CriterionState, GateCriterion, Failure,
  Aggregation, PrdDocument, Approval, Context, gate_priority,
}
use kratos_harness.Gates.Policy.{aggregate_gate_failures}

-- `failure`
unfoldable pub failure : Context → GateId → FailureReason → List Text → Option Text → Failure
failure context gate_id reason_code evidence_refs detail = record {
  gate_id = gate_id;
  reason_code = reason_code;
  priority = gate_priority gate_id;
  mode = context.gate_modes gate_id;
  evidence_refs = evidence_refs;
  detail = detail;
}

-- `digest === other` where the other may be null
abbrev pub is_digest_of : Option Text → Text → Bool
is_digest_of none digest = false
is_digest_of (some other) digest = digest == other

-- The test of an approval in `approved`
unfoldable pub approves : Context → Text → Approval → Bool
approves context gate approval =
    approval.gate == gate
    && approval.approved
    && is_digest_of context.prd_digest approval.prd_digest
    && is_digest_of context.spec_digest approval.spec_digest

-- `approved`
unfoldable pub approved : List Approval → Text → Context → Bool
approved approvals gate context = any (approves context gate) approvals

abbrev pub classification_name : RejectionClassification → Text
classification_name RejectionClassification.code = codes "code"
classification_name RejectionClassification.specification = codes "specification"

abbrev active_features : List Text
active_features = codes ".brain/02-features/active" ∷ []

abbrev approvals_folder : List Text
approvals_folder = codes ".brain/approvals" ∷ []

abbrev task_metrics : List Text
task_metrics = codes ".brain/03-memory/task_metrics.md" ∷ []

-- `if (test) failures.push(f)`
unfoldable pub when : Bool → Failure → List Failure
when test f = if test then f ∷ [] else []

-- The failure of a criterion that stopped the loop
unfoldable pub rejection_failure : Context → Rejection → Failure
rejection_failure context stop =
    failure context GateId.stop_loss FailureReason.stop_loss_rejections (stop.artifact_ref ∷ []) (
      some (
        codes "Acceptance criterion "
        ++ (stop.criterion_id
            ++ (codes " stopped at attempt "
                ++ (decimal stop.attempt
                    ++ (codes " with classification "
                        ++ (classification_name stop.classification ++ codes ".")))))))

unfoldable pub prd_failures : Context → PrdDocument → List Failure
prd_failures context PrdDocument.complete = []
prd_failures context PrdDocument.missing =
    failure context GateId.prd_present FailureReason.prd_ausente active_features none ∷ []
prd_failures context PrdDocument.untouched =
    failure context GateId.prd_present FailureReason.prd_untouched active_features none ∷ []
prd_failures context (PrdDocument.incomplete section) =
    failure context GateId.prd_present FailureReason.prd_section_missing active_features
      (some (codes "Missing required section: " ++ section))
    ∷ []

-- `["plan", "code", "review", "acceptance"].includes(phase)`
unfoldable pub needs_spec : Phase → Bool
needs_spec Phase.prd = false
needs_spec Phase.spec = false
needs_spec _ = true

unfoldable pub is_acceptance : Phase → Bool
is_acceptance Phase.acceptance = true
is_acceptance _ = false

abbrev pub is_passed : CriterionState → Bool
is_passed CriterionState.passed = true
is_passed _ = false

-- The test of a criterion in the search of `incomplete`
abbrev pub is_incomplete : GateCriterion → Bool
is_incomplete c = not (is_passed c.state) || not c.checked || not c.evidence_valid

-- The failure of the first criterion that is incomplete
unfoldable pub criteria_failures : Context → Option GateCriterion → List Failure
criteria_failures context none = []
criteria_failures context (some c) = when (is_acceptance context.phase) (
    failure context GateId.acceptance_criteria FailureReason.ac_incomplete active_features
      (some (codes "Acceptance criterion " ++ (c.criterion_id ++ codes " is incomplete."))))

-- The failures that `evaluateGates` collects, in its order
unfoldable pub gate_failures : Context → List Failure
gate_failures c =
    when (not c.context_readable) (
      failure c GateId.context_readable FailureReason.context_unreadable
        (codes ".brain/config.json" ∷ []) none)
    ++ (map (rejection_failure c) c.repeated_rejections
        ++ (when c.exhausted
              (failure c GateId.stop_loss FailureReason.stop_loss_budget task_metrics none)
            ++ (when c.tripped
                  (failure c GateId.stop_loss FailureReason.stop_loss_flag task_metrics none)
                ++ (prd_failures c c.prd_document
                    ++ (when (needs_spec c.phase && not (approved c.approvals (codes "spec") c)) (
                          failure c GateId.spec_approved FailureReason.aprovacao_spec
                            approvals_folder none)
                        ++ (when (ltb 0 c.open_gaps) (
                              failure c GateId.gaps_closed FailureReason.gaps_abertos
                                active_features none)
                            ++ (when (c.partition_required && not c.partition_approved) (
                                  failure c GateId.partition_approved FailureReason.particionamento
                                    approvals_folder none)
                                ++ (criteria_failures c (find is_incomplete c.acceptance_criteria)
                                    ++ when (is_acceptance c.phase && not c.final_acceptance) (
                                        failure c GateId.final_acceptance
                                          FailureReason.aceitacao_final approvals_folder
                                          none)))))))))

-- `evaluateGates`, the aggregation that it returns
unfoldable pub evaluate_gates : (GateId → GateId → Bool) → Context → Aggregation
evaluate_gates locale_before context = aggregate_gate_failures locale_before (gate_failures context)
