-- ===== src/Decisions/Start.antt =====
-- `decideStartWorkflow` (workflow/decision.ts).
use kratos_harness.Common.{
  ℕ, Bool, true, false, ◌&&◌, ◌||◌, not, [], ◌∷◌, ◌++◌, Option, none, some, Text, codes, is_empty,
  is_some, get_or, if◌then◌else◌, ◌==◌, text_eq, Result, ok, Thrown, ◌>>=◌,
}
use kratos_harness.Workflow.Model.{
  State, ReasonCode, PolicyVersion, RunLimits, SpecStart, is_completed,
}
use kratos_harness.Workflow.Phases.{is_held}
use kratos_harness.Workflow.Starts.{is_legacy_run, is_current}
use kratos_harness.Decisions.Model.{
  Observation, StartRequest, Refusal, Transition, Unchanged, Draft, WorkflowDecision,
}
use kratos_harness.Decisions.Requests.{operation_id, valid_start_request, has_operation}
use kratos_harness.Decisions.Drafts.{
  EventInput, MovingTransition, draft_event, plain_identity, policy_upgrade_event,
}

-- `policyVersion === WORKFLOW_POLICY_VERSION` of a run
abbrev pub is_current_run : Option PolicyVersion → Bool
is_current_run none = false
is_current_run (some version) = is_current version

-- `policyVersion !== WORKFLOW_POLICY_VERSION || acceptanceAttemptCeiling === null`
unfoldable pub lacks_limits : State → Bool
lacks_limits state =
    not (is_current_run state.policy_version) || not (is_some state.acceptance_attempt_ceiling)

-- The test of a legacy run that nothing but an upgrade may touch
unfoldable pub is_upgradable : State → Bool
is_upgradable state =
    is_legacy_run state.policy_version
    && not (is_some state.acceptance_attempt_ceiling)
    && not (is_some state.token_ceiling)
    && is_empty state.attempts
    && is_empty state.active_repair_stops
    && is_empty state.repair_stop_history
    && is_empty state.repair_resolutions
    && not (is_some state.specification_restart)
    && is_empty state.retired_criterion_ids
    && not (is_some state.started_from_spec)

-- `runLimits` of the drafts
unfoldable pub requested_limits : StartRequest → RunLimits
requested_limits request = record {
  acceptance_attempt_ceiling = get_or request.acceptance_attempt_ceiling 3;
  token_ceiling = request.token_ceiling;
}

unfoldable pub start_operation : StartRequest → Text
start_operation request = operation_id (codes "start") request.correlation_id

unfoldable pub start_input : StartRequest → ℕ → EventInput
start_input request revision = record {
  event_id = request.event_id;
  occurred_at = request.occurred_at;
  operation = start_operation request;
  revision = revision;
  identity = request.observed_identity;
}

-- The branch of a run that is there
unfoldable pub start_present : State → StartRequest → Result Thrown WorkflowDecision
start_present state request =
    if not (state.feature == request.feature)
    then ok (WorkflowDecision.refused Refusal.feature_mismatch)
    else if not (state.run_id == request.run_id)
    then ok (WorkflowDecision.refused Refusal.runid_mismatch)
    else if is_completed state.status
    then ok (WorkflowDecision.unchanged Unchanged.already_completed)
    else if is_upgradable state
    then ok (
        WorkflowDecision.recorded Transition.upgraded
          (policy_upgrade_event (start_input request state.revision) (requested_limits request))
          none)
    else if lacks_limits state
    then ok (WorkflowDecision.refused Refusal.uso)
    else if is_held state
    then ok (WorkflowDecision.refused Refusal.stop_loss_rejections)
    else (do
      draft ←
          draft_event (start_input request state.revision) MovingTransition.resumed [] [] none none
            none []
      ok (WorkflowDecision.recorded Transition.resumed draft none))

-- The draft of a run that starts from a specification
unfoldable pub restart_draft : StartRequest → SpecStart → Draft
restart_draft request start = record {
  event_id = request.event_id;
  event = record {
    state_contract = codes "1.3.0";
    event_type = codes "recovery";
    effect = codes "state-and-artifact";
    occurred_at = request.occurred_at;
    operation = codes "sdd.repair.restart:" ++ request.correlation_id;
    policy_version = PolicyVersion.workflow_v2;
    prior_revision = 0;
    resulting_revision = 1;
    reason_code = ReasonCode.run_started_from_spec;
    artifact_refs = start.restart_ticket_ref ∷ [];
    run_limits = some (requested_limits request);
    acceptance_decision = none;
    repair_resolution = none;
    started_from_spec = some start;
  };
  evidence_refs = [];
  observed_identity = plain_identity request.observed_identity;
  gate_failures = [];
  resolved_assignment = none;
}

-- The branch of a run that is not there, by `startFromSpec`
unfoldable pub start_absent : Option SpecStart → StartRequest → Result Thrown WorkflowDecision
start_absent (some start) request =
    if is_empty start.retired_criterion_ids
    then ok (WorkflowDecision.refused Refusal.uso)
    else ok (WorkflowDecision.recorded Transition.started (restart_draft request start) none)
start_absent none request = do
  draft ←
      draft_event (start_input request 0) MovingTransition.started [] [] none none
        (some (requested_limits request)) []
  ok (WorkflowDecision.recorded Transition.started draft none)

-- The branches below the guards, by what is observed; a stream that is corrupt is refused before.
unfoldable pub start_observed : Observation → StartRequest → Result Thrown WorkflowDecision
start_observed (Observation.present state) request = start_present state request
start_observed (Observation.absent operations) request =
    start_absent request.start_from_spec request
start_observed Observation.corrupt request = ok (WorkflowDecision.refused Refusal.state_unreadable)

abbrev pub is_corrupt : Observation → Bool
is_corrupt Observation.corrupt = true
is_corrupt _ = false

-- `decideStartWorkflow`
unfoldable pub decide_start_workflow : Observation → StartRequest → Result Thrown WorkflowDecision
decide_start_workflow observation request =
    if not (valid_start_request request)
    then ok (WorkflowDecision.refused Refusal.uso)
    else if is_corrupt observation
    then ok (WorkflowDecision.refused Refusal.state_unreadable)
    else if not request.objective_active
    then ok (WorkflowDecision.refused Refusal.uso)
    else if not request.worktree_clean
    then ok (WorkflowDecision.refused Refusal.worktree_dirty)
    else if has_operation observation (start_operation request)
    then ok (WorkflowDecision.unchanged Unchanged.duplicate)
    else start_observed observation request
