-- ===== src/Decisions/Record.antt =====
-- `decideRecordFact` (workflow/decision.ts).
use kratos_harness.Common.{
  ◌+◌, Bool, true, false, ◌&&◌, not, [], Option, none, some, Text, codes, all, is_empty, is_some,
  includes, leb, if◌then◌else◌, ◌==◌, nat_eq, text_eq, Result, ok, Thrown, ◌>>=◌,
}
use kratos_harness.Grammar.{is_id, is_feature}
use kratos_harness.Locks.Scope.{max_safe_integer}
use kratos_harness.Workflow.Model.{State, PolicyVersion, is_completed}
use kratos_harness.Decisions.Model.{
  Observation, FactRequest, FactOperation, Assignment, PhaseExecution, ObservedIdentity, Draft,
  Refusal, Transition, Unchanged, WorkflowDecision,
}
use kratos_harness.Decisions.Requests.{
  operation_id, fact_operation_name, null_or, valid_identity, valid_phase_execution,
  execution_mismatch,
}
use kratos_harness.Decisions.Drafts.{fact_reason, phase_identity}
use kratos_harness.Decisions.Start.{lacks_limits}

unfoldable pub fact_operation : FactRequest → Text
fact_operation request = operation_id (fact_operation_name request.operation) request.correlation_id

-- The condition that refuses a request, negated
unfoldable pub valid_fact_request : FactRequest → Bool
valid_fact_request request =
    is_feature request.feature
    && is_id request.run_id
    && is_id request.correlation_id
    && is_id request.event_id
    && is_id (fact_operation request)
    && leb request.expected_revision max_safe_integer
    && valid_identity request.observed_identity
    && null_or valid_phase_execution request.phase_execution
    && all (λ r. not (is_empty r)) request.artifact_refs

-- `requiresAssignment`
unfoldable pub requires_assignment : FactOperation → Bool
requires_assignment FactOperation.agent_record = true
requires_assignment _ = false

-- Whether an assignment and an execution are there as the operation needs them
unfoldable pub has_parts : FactRequest → Bool
has_parts request =
    if requires_assignment request.operation
    then is_some request.resolved_assignment && is_some request.phase_execution
    else not (is_some request.resolved_assignment) && not (is_some request.phase_execution)

unfoldable pub parts_mismatch : Option Assignment → Option PhaseExecution → Bool
parts_mismatch (some assignment) (some execution) = execution_mismatch assignment execution
parts_mismatch (some assignment) none = false
parts_mismatch none execution = false

-- The draft of a fact
unfoldable pub fact_draft : State → FactRequest → ObservedIdentity → Draft
fact_draft state request observed = record {
  event_id = request.event_id;
  event = record {
    state_contract = codes "1.2.0";
    event_type = codes "decision";
    effect = codes "state-and-artifact";
    occurred_at = request.occurred_at;
    operation = fact_operation request;
    policy_version = PolicyVersion.workflow_v2;
    prior_revision = state.revision;
    resulting_revision = state.revision + 1;
    reason_code = fact_reason request.operation;
    artifact_refs = request.artifact_refs;
    run_limits = none;
    acceptance_decision = none;
    repair_resolution = none;
    started_from_spec = none;
  };
  evidence_refs = [];
  observed_identity = observed;
  gate_failures = [];
  resolved_assignment = request.resolved_assignment;
}

-- The guards on a run that is there
unfoldable pub record_present : State → FactRequest → Result Thrown WorkflowDecision
record_present state request =
    if not (state.feature == request.feature)
    then ok (WorkflowDecision.refused Refusal.feature_mismatch)
    else if not (state.run_id == request.run_id)
    then ok (WorkflowDecision.refused Refusal.runid_mismatch)
    else if includes state.operations (fact_operation request)
    then ok (WorkflowDecision.unchanged Unchanged.duplicate)
    else if is_completed state.status
    then ok (WorkflowDecision.unchanged Unchanged.already_completed)
    else if lacks_limits state
    then ok (WorkflowDecision.refused Refusal.uso)
    else if not (request.expected_revision == state.revision)
    then ok (WorkflowDecision.refused Refusal.revision_conflict)
    else if not (has_parts request)
    then ok (WorkflowDecision.refused Refusal.uso)
    else if parts_mismatch request.resolved_assignment request.phase_execution
    then ok (WorkflowDecision.refused Refusal.execution_mismatch)
    else (do
      observed ← phase_identity request.observed_identity request.phase_execution
      ok (WorkflowDecision.recorded Transition.observed (fact_draft state request observed) none))

-- The branches by what is observed
unfoldable pub record_observed : Observation → FactRequest → Result Thrown WorkflowDecision
record_observed Observation.corrupt request = ok (WorkflowDecision.refused Refusal.state_unreadable)
record_observed (Observation.absent operations) request =
    ok (WorkflowDecision.refused Refusal.context_unreadable)
record_observed (Observation.present state) request = record_present state request

-- `decideRecordFact`
unfoldable pub decide_record_fact : Observation → FactRequest → Result Thrown WorkflowDecision
decide_record_fact observation request =
    if not (valid_fact_request request)
    then ok (WorkflowDecision.refused Refusal.uso)
    else record_observed observation request
