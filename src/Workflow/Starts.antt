-- ===== src/Workflow/Starts.antt =====
-- The events that set a run's limits: `reduceWorkflowV1`, and of `reduceWorkflow` the policy upgrade
-- and the two starts (workflow/reducer.ts).
use kratos_harness.Common.{
  Bool, true, false, ◌&&◌, ◌||◌, not, [], ◌∷◌, ◌++◌, Option, none, some, codes, if◌then◌else◌,
  is_empty, is_some, ◌==◌, nat_eq, text_eq, starts_with, Result, ok, Thrown, ◌>>=◌,
}
use kratos_harness.Workflow.Model.{State, Event, Phase, Status, PolicyVersion, RunLimits, SpecStart}
use kratos_harness.Workflow.Phases.{throw, reduce_known_workflow_reason}

abbrev pub is_legacy : PolicyVersion → Bool
is_legacy PolicyVersion.workflow_v1 = true
is_legacy _ = false

abbrev pub is_current : PolicyVersion → Bool
is_current PolicyVersion.workflow_v2 = true
is_current _ = false

-- `reduceWorkflowV1`
unfoldable pub reduce_workflow_v1 : State → Event → Result Thrown State
reduce_workflow_v1 state event =
    if not (is_legacy event.policy_version)
    then throw (codes "Unsupported workflow event")
    else reduce_known_workflow_reason state event

-- What every branch of `reduceWorkflow` writes.
abbrev pub stamp : State → Event → State
stamp state event = record state {
  revision = event.resulting_revision;
  updated_at = some event.occurred_at;
  operations = state.operations ++ event.operation ∷ [];
  policy_version = some PolicyVersion.workflow_v2;
}

abbrev pub is_legacy_run : Option PolicyVersion → Bool
is_legacy_run none = false
is_legacy_run (some version) = is_legacy version

-- What the upgrade asks of its event, less its `runLimits`.
unfoldable pub is_upgrade_event : Event → Bool
is_upgrade_event event =
    event.state_contract == codes "1.4.0"
    && event.event_type == codes "recovery"
    && event.effect == codes "state"
    && starts_with event.operation (codes "sdd.start:")

-- What the upgrade asks of the run.
unfoldable pub is_plain_legacy : State → Bool
is_plain_legacy state =
    not (state.revision == 0)
    && is_legacy_run state.policy_version
    && not (is_some state.acceptance_attempt_ceiling)
    && not (is_some state.token_ceiling)
    && is_empty state.attempts
    && is_empty state.active_repair_stops
    && is_empty state.repair_stop_history
    && is_empty state.repair_resolutions
    && not (is_some state.specification_restart)
    && is_empty state.retired_criterion_ids
    && not (is_some state.started_from_spec)

-- `case "run.policy_upgraded"`
unfoldable pub reduce_policy_upgraded : State → Event → Result Thrown State
reduce_policy_upgraded state event = elim event.run_limits [
  | none ↦ throw (codes "Workflow policy upgrade is inconsistent")
  | some limits ↦
      if not (is_upgrade_event event && is_plain_legacy state)
      then throw (codes "Workflow policy upgrade is inconsistent")
      else ok (
          let stamped = stamp state event in
          record stamped {
            acceptance_attempt_ceiling = some limits.acceptance_attempt_ceiling;
            token_ceiling = limits.token_ceiling;
          })
]

-- `case "run.started"`
unfoldable pub reduce_started : State → Event → Result Thrown State
reduce_started state event = elim event.run_limits [
  | none ↦ throw (codes "Workflow limits are missing")
  | some limits ↦ (do
    started ← reduce_known_workflow_reason state event
    ok (record started {
      acceptance_attempt_ceiling = some limits.acceptance_attempt_ceiling;
      token_ceiling = limits.token_ceiling;
    }))
]

-- `case "run.started_from_spec"`, with its optional parts at hand
unfoldable pub start_from_spec : State → Event → RunLimits → SpecStart → Result Thrown State
start_from_spec state event limits start =
    if not (state.revision == 0) || is_empty start.retired_criterion_ids
    then throw (codes "Specification restart is inconsistent")
    else ok (record state {
      status = Status.active;
      current_step = some Phase.spec;
      revision = event.resulting_revision;
      created_at = some event.occurred_at;
      updated_at = some event.occurred_at;
      operations = event.operation ∷ [];
      policy_version = some PolicyVersion.workflow_v2;
      acceptance_attempt_ceiling = some limits.acceptance_attempt_ceiling;
      token_ceiling = limits.token_ceiling;
      retired_criterion_ids = start.retired_criterion_ids;
      started_from_spec = some (record {
        source_run_id = start.source_run_id;
        restart_ticket_ref = start.restart_ticket_ref;
        restart_ticket_digest = start.restart_ticket_digest;
      });
    })

-- `case "run.started_from_spec"`
unfoldable pub reduce_started_from_spec : State → Event → Result Thrown State
unfolding start_from_spec
reduce_started_from_spec state event = elim event.run_limits [
  | none ↦ throw (codes "Specification restart is inconsistent")
  | some limits ↦ elim event.started_from_spec [
    | none ↦ throw (codes "Specification restart is inconsistent")
    | some start ↦ start_from_spec state event limits start
  ]
]
