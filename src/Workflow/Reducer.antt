-- ===== src/Workflow/Reducer.antt =====
-- `reduceWorkflow`, the choice by reason code, `workflowReducerRegistry`'s choice by policy version,
-- and `materialize` (workflow/reducer.ts).
use kratos_harness.Common.{
  ℕ, ◌||◌, not, none, some, codes, if◌then◌else◌, is_some, get_or, ◌==◌, nat_eq, Result, ok, Thrown,
  Option, Text,
}
use kratos_harness.Workflow.Model.{
  State, Event, ReasonCode, PolicyVersion, Status, Phase, RunLineage,
}
use kratos_harness.Workflow.Phases.{throw, reduce_known_workflow_reason}
use kratos_harness.Workflow.Starts.{
  is_current, reduce_workflow_v1, reduce_policy_upgraded, reduce_started, reduce_started_from_spec,
}
use kratos_harness.Workflow.Repair.{
  reduce_acceptance_passed, reduce_repair_required, reduce_stop_loss, reduce_repair_stop_resolved,
}

-- The branches below the check that the run has its limits.
unfoldable pub reduce_limited : ReasonCode → State → Event → Result Thrown State
reduce_limited ReasonCode.run_acceptance_passed state event = reduce_acceptance_passed state event
reduce_limited ReasonCode.run_acceptance_repair_required state event =
    reduce_repair_required state event
reduce_limited ReasonCode.run_stop_loss_repeated_rejection state event =
    reduce_stop_loss state event
reduce_limited ReasonCode.run_repair_stop_resolved state event =
    reduce_repair_stop_resolved state event
reduce_limited _ state event = reduce_known_workflow_reason state event

-- `state.acceptanceAttemptCeiling === null` throws.
unfoldable pub with_limits : ReasonCode → State → Event → Result Thrown State
with_limits reason state event =
    if not (is_some state.acceptance_attempt_ceiling)
    then throw (codes "Workflow limits are missing")
    else reduce_limited reason state event

-- The branches of `reduceWorkflow` in their order.
unfoldable pub reduce_by_reason : ReasonCode → State → Event → Result Thrown State
reduce_by_reason ReasonCode.run_policy_upgraded state event = reduce_policy_upgraded state event
reduce_by_reason ReasonCode.run_started state event = reduce_started state event
reduce_by_reason ReasonCode.run_started_from_spec state event = reduce_started_from_spec state event
reduce_by_reason reason state event = with_limits reason state event

-- `reduceWorkflow`
unfoldable pub reduce_workflow : State → Event → Result Thrown State
reduce_workflow state event =
    if not (is_current event.policy_version) || not (event.prior_revision == state.revision)
    then throw (codes "Unsupported workflow event")
    else reduce_by_reason event.reason_code state event

-- `workflowReducerRegistry`: the reducer is chosen by the event's policy version; replay refuses an
-- event whose version has none.
unfoldable pub reduce_with : PolicyVersion → State → Event → Result Thrown State
reduce_with PolicyVersion.workflow_v1 state event = reduce_workflow_v1 state event
reduce_with PolicyVersion.workflow_v2 state event = reduce_workflow state event
reduce_with (PolicyVersion.other _) state event = throw (codes "unsupported_policy")

-- `EventChainCursor`
pub record Cursor : Type 0 where
  pub revision : ℕ
  pub hash : Option Text

-- `SnapshotV1`, less its two constant version fields
pub record Snapshot : Type 0 where
  pub project_id : Text
  pub run_id : Text
  pub status : Status
  pub current_step : Option Phase
  pub event_cursor : ℕ
  pub event_hash : Text
  pub policy_version : PolicyVersion
  pub lineage : RunLineage
  pub created_at : Text
  pub updated_at : Text

-- `materialize`
unfoldable pub materialize : State → Cursor → Result Thrown Snapshot
materialize state cursor = elim state.created_at [
  | none ↦ throw (codes "Workflow state cannot be materialized")
  | some created ↦ elim state.updated_at [
    | none ↦ throw (codes "Workflow state cannot be materialized")
    | some updated ↦ elim cursor.hash [
      | none ↦ throw (codes "Workflow state cannot be materialized")
      | some hash ↦
          if not (state.revision == cursor.revision)
          then throw (codes "Workflow state cannot be materialized")
          else ok (record {
            project_id = state.project_id;
            run_id = state.run_id;
            status = state.status;
            current_step = state.current_step;
            event_cursor = cursor.revision;
            event_hash = hash;
            policy_version = get_or state.policy_version PolicyVersion.workflow_v2;
            lineage = state.lineage;
            created_at = created;
            updated_at = updated;
          })
    ]
  ]
]
