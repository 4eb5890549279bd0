-- ===== src/Workflow/Phases.antt =====
-- The reasons that legacy and current runs share: `reduceKnownWorkflowReason` (workflow/reducer.ts).
use kratos_harness.Common.{
  Bool, true, false, ◌&&◌, ◌||◌, not, [], ◌∷◌, ◌++◌, Option, none, some, Text, codes, if◌then◌else◌,
  is_empty, is_some, get_or, ◌==◌, nat_eq, Result, ok, err, Thrown, error, ◌>>=◌,
}
use kratos_harness.Workflow.Model.{
  State, Event, Configuration, Phase, Status, ReasonCode, is_acceptance, is_completed,
}

-- `nextPhase`, the successor in `RUN_PHASES`
unfoldable pub next_phase : Option Phase → Option Phase
next_phase none = some Phase.prd
next_phase (some Phase.prd) = some Phase.spec
next_phase (some Phase.spec) = some Phase.plan
next_phase (some Phase.plan) = some Phase.code
next_phase (some Phase.code) = some Phase.review
next_phase (some Phase.review) = some Phase.acceptance
next_phase (some Phase.acceptance) = none

-- `workflowSeed`
unfoldable pub workflow_seed : Configuration → State
workflow_seed configuration = record {
  project_id = configuration.project_id;
  feature = configuration.feature;
  run_id = configuration.run_id;
  status = Status.idle;
  current_step = none;
  revision = 0;
  lineage = configuration.lineage;
  created_at = none;
  updated_at = none;
  operations = [];
  policy_version = none;
  acceptance_attempt_ceiling = none;
  token_ceiling = none;
  attempts = [];
  active_repair_stops = [];
  repair_stop_history = [];
  repair_resolutions = [];
  specification_restart = none;
  retired_criterion_ids = [];
  started_from_spec = none;
}

abbrev pub throw {ℓ} : {A : Type ℓ} → Text → Result Thrown A
throw message = err (error message)

-- The reasons that a repair stop blocks.
abbrev pub moves_run : ReasonCode → Bool
moves_run ReasonCode.run_resumed = true
moves_run ReasonCode.run_transition_accepted = true
moves_run ReasonCode.run_completed = true
moves_run _ = false

-- `state.activeRepairStops.length !== 0 || state.specificationRestart !== null`
abbrev pub is_held : State → Bool
is_held state = not (is_empty state.active_repair_stops) || is_some state.specification_restart

-- `case "run.agent.recorded"` and the four cases with it
unfoldable pub record_fact : State → Result Thrown (Status × Option Phase)
record_fact state =
    if is_completed state.status || not (is_some state.current_step)
    then throw (codes "Run cannot record gate facts")
    else ok (state.status, state.current_step)

-- The `switch` of `reduceKnownWorkflowReason`: the new status and step.
unfoldable pub known_transition : State → ReasonCode → Result Thrown (Status × Option Phase)
unfolding record_fact next_phase
known_transition state ReasonCode.run_started =
    if not (state.revision == 0)
    then throw (codes "Run already started")
    else ok (Status.active, some Phase.prd)
known_transition state ReasonCode.run_resumed =
    if is_completed state.status
    then throw (codes "Run completed")
    else ok (
      if is_empty state.active_repair_stops then Status.active else Status.blocked,
      state.current_step,
    )
known_transition state ReasonCode.run_transition_accepted =
    if is_completed state.status || not (is_some state.current_step)
    then throw (codes "Run cannot advance")
    else elim (next_phase state.current_step) [
      | none ↦ throw (codes "Final phase needs completion")
      | some following ↦ ok (Status.active, some following)
    ]
known_transition state ReasonCode.run_transition_rejected =
    if is_completed state.status || not (is_some state.current_step)
    then throw (codes "Run cannot reject a transition")
    else ok (Status.blocked, state.current_step)
known_transition state ReasonCode.run_agent_recorded = record_fact state
known_transition state ReasonCode.run_gap_recorded = record_fact state
known_transition state ReasonCode.run_gap_resolved = record_fact state
known_transition state ReasonCode.run_gap_waived = record_fact state
known_transition state ReasonCode.run_gates_recorded = record_fact state
known_transition state ReasonCode.run_completed =
    if not (is_acceptance state.current_step)
    then throw (codes "Run is not at final acceptance")
    else ok (Status.completed, none)
known_transition state _ = throw (codes "Unsupported workflow reason")

-- `reduceKnownWorkflowReason`
unfoldable pub reduce_known_workflow_reason : State → Event → Result Thrown State
unfolding known_transition
reduce_known_workflow_reason state event =
    if not (event.prior_revision == state.revision)
    then throw (codes "Unsupported workflow event")
    else if is_held state && moves_run event.reason_code
    then throw (codes "Run is blocked by repair stop")
    else (do
      moved ← known_transition state event.reason_code
      ok (record state {
        status = moved.0;
        current_step = moved.1;
        revision = event.resulting_revision;
        created_at = some (get_or state.created_at event.occurred_at);
        updated_at = some event.occurred_at;
        operations = state.operations ++ event.operation ∷ [];
        policy_version = some event.policy_version;
      }))
