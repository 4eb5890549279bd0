-- ===== src/Decisions/Drafts.antt =====
-- workflow/decision.ts: the drafts of events, with the facts of `WORKFLOW_TRANSITION_FACTS` and
-- `WORKFLOW_OPERATION_FACTS` (events/semantics.ts).
use kratos_harness.Common.{
  ℕ, ◌+◌, List, [], Option, none, some, Text, codes, Result, ok, Thrown, ◌>>=◌,
}
use kratos_harness.Gates.Model.{Failure}
use kratos_harness.Workflow.Model.{Event, ReasonCode, PolicyVersion, RunLimits}
use kratos_harness.Workflow.Phases.{throw}
use kratos_harness.Decisions.Model.{
  Identity, Assignment, Provenance, PhaseExecution, FactOperation, Transition, ObservedIdentity,
  Draft,
}

-- `phaseIdentity` without an execution
unfoldable pub plain_identity : Identity → ObservedIdentity
plain_identity identity = record { host = identity.host; model = identity.model; effort = none }

-- `phaseIdentity` by the provenance of the execution
unfoldable pub executed_identity :
    Provenance → Identity → PhaseExecution → Result Thrown ObservedIdentity
executed_identity Provenance.host_reported identity execution =
    ok (record { host = identity.host; model = execution.model; effort = execution.effort })
executed_identity Provenance.unknown identity execution =
    ok (record { host = identity.host; model = none; effort = none })
executed_identity (Provenance.other s) identity execution =
    throw (codes "Unvalidated phase execution provenance")

-- `phaseIdentity`
unfoldable pub phase_identity : Identity → Option PhaseExecution → Result Thrown ObservedIdentity
unfolding plain_identity executed_identity
phase_identity identity none = ok (plain_identity identity)
phase_identity identity (some execution) = executed_identity execution.provenance identity execution

-- `MovingTransition`
pub data MovingTransition : Type 0 where
  started resumed accepted rejected completed : MovingTransition

-- `reasonCode` of `WORKFLOW_TRANSITION_FACTS`
unfoldable pub transition_reason : MovingTransition → ReasonCode
transition_reason MovingTransition.started = ReasonCode.run_started
transition_reason MovingTransition.resumed = ReasonCode.run_resumed
transition_reason MovingTransition.accepted = ReasonCode.run_transition_accepted
transition_reason MovingTransition.rejected = ReasonCode.run_transition_rejected
transition_reason MovingTransition.completed = ReasonCode.run_completed

-- `eventType` of `WORKFLOW_TRANSITION_FACTS`; the effect is the same for all of them.
unfoldable pub transition_event_type : MovingTransition → Text
transition_event_type MovingTransition.rejected = codes "decision"
transition_event_type _ = codes "transition"

-- The transition as a decision names it.
unfoldable pub decided : MovingTransition → Transition
decided MovingTransition.started = Transition.started
decided MovingTransition.resumed = Transition.resumed
decided MovingTransition.accepted = Transition.accepted
decided MovingTransition.rejected = Transition.rejected
decided MovingTransition.completed = Transition.completed

-- The first argument of `event` and of `policyUpgradeEvent`
pub record EventInput : Type 0 where
  pub event_id : Text
  pub occurred_at : Text
  pub operation : Text
  pub revision : ℕ
  pub identity : Identity

-- The event that `event` drafts
unfoldable pub moving_event : EventInput → MovingTransition → List Text → Option RunLimits → Event
moving_event input transition artifact_refs run_limits = record {
  state_contract = codes "1.2.0";
  event_type = transition_event_type transition;
  effect = codes "state";
  occurred_at = input.occurred_at;
  operation = input.operation;
  policy_version = PolicyVersion.workflow_v2;
  prior_revision = input.revision;
  resulting_revision = input.revision + 1;
  reason_code = transition_reason transition;
  artifact_refs = artifact_refs;
  run_limits = run_limits;
  acceptance_decision = none;
  repair_resolution = none;
  started_from_spec = none;
}

-- `event`, with its parts in their order
unfoldable pub draft_event :
    EventInput
    → MovingTransition
    → List Text
    → List Text
    → Option Assignment
    → Option PhaseExecution
    → Option RunLimits
    → List Failure
    → Result Thrown Draft
draft_event input transition artifact_refs evidence_refs assignment execution run_limits failures =
    do
      observed ← phase_identity input.identity execution
      ok (record {
        event_id = input.event_id;
        event = moving_event input transition artifact_refs run_limits;
        evidence_refs = evidence_refs;
        observed_identity = observed;
        gate_failures = failures;
        resolved_assignment = assignment;
      })

-- `policyUpgradeEvent`
unfoldable pub policy_upgrade_event : EventInput → RunLimits → Draft
policy_upgrade_event input run_limits = record {
  event_id = input.event_id;
  event = record {
    state_contract = codes "1.4.0";
    event_type = codes "recovery";
    effect = codes "state";
    occurred_at = input.occurred_at;
    operation = input.operation;
    policy_version = PolicyVersion.workflow_v2;
    prior_revision = input.revision;
    resulting_revision = input.revision + 1;
    reason_code = ReasonCode.run_policy_upgraded;
    artifact_refs = [];
    run_limits = some run_limits;
    acceptance_decision = none;
    repair_resolution = none;
    started_from_spec = none;
  };
  evidence_refs = [];
  observed_identity = plain_identity input.identity;
  gate_failures = [];
  resolved_assignment = none;
}

-- `reasonCode` of `WORKFLOW_OPERATION_FACTS`; the type and the effect are the same for all of them.
unfoldable pub fact_reason : FactOperation → ReasonCode
fact_reason FactOperation.agent_record = ReasonCode.run_agent_recorded
fact_reason FactOperation.gaps_record = ReasonCode.run_gap_recorded
fact_reason FactOperation.gaps_resolve = ReasonCode.run_gap_resolved
fact_reason FactOperation.gaps_waive = ReasonCode.run_gap_waived
fact_reason FactOperation.gates_record = ReasonCode.run_gates_recorded
