-- ===== src/Decisions/Continue.antt =====
-- `decideContinueWorkflow` (workflow/decision.ts).
use kratos_harness.Common.{
  ℕ, Bool, true, false, ◌&&◌, ◌||◌, not, List, [], ◌∷◌, ◌++◌, Option, none, some, Text, codes, map,
  is_empty, includes, get_or, if◌then◌else◌, ◌==◌, nat_eq, text_eq, Result, ok, Thrown, ◌>>=◌,
}
use kratos_harness.Gates.Model.{Outcome, reason_name}
use kratos_harness.Workflow.Model.{State, is_acceptance, is_completed}
use kratos_harness.Workflow.Phases.{is_held}
use kratos_harness.Decisions.Model.{
  Observation, ContinueRequest, Action, Completion, GateVerdict, Assignment, PhaseExecution,
  Refusal, Unchanged, WorkflowDecision,
}
use kratos_harness.Decisions.Requests.{
  operation_id, set_of, valid_continue_request, execution_mismatch,
}
use kratos_harness.Decisions.Drafts.{EventInput, MovingTransition, draft_event, decided}
use kratos_harness.Decisions.Start.{lacks_limits}

-- `PASS_GATE_DECISION`
abbrev pub pass_gate_decision : GateVerdict
pass_gate_decision = record { outcome = Outcome.pass; failures = [] }

-- `request.gateDecision ?? PASS_GATE_DECISION`
unfoldable pub gate_verdict : ContinueRequest → GateVerdict
gate_verdict request = get_or request.gate_decision pass_gate_decision

abbrev pub is_block : Outcome → Bool
is_block Outcome.block = true
is_block _ = false

-- `action.rejectionReasons ?? action.gateFailures ?? []`
unfoldable pub given_reasons : Completion → List Text
given_reasons action = get_or action.rejection_reasons (get_or action.gate_failures [])

-- `if (refs.length === 0 && !reasons.includes(known)) reasons.push(reason)`
unfoldable pub push_missing : List Text → Text → Text → List Text → List Text
push_missing refs known reason reasons =
    if is_empty refs && not (includes reasons known) then reasons ++ reason ∷ [] else reasons

-- `rejectionWhy`
unfoldable pub rejection_why : GateVerdict → Completion → List Text
rejection_why verdict action =
    let blocking =
      if is_block verdict.outcome
      then map (λ f. reason_name f.reason_code) verdict.failures
      else [] in
    let reasons = blocking ++ given_reasons action in
    let with_artifact =
      push_missing action.artifact_refs (codes "artifact-unreadable") (codes "artifact-missing")
        reasons in
    set_of (
      push_missing action.evidence_refs (codes "evidence-invalid") (codes "evidence-missing")
        with_artifact)

unfoldable pub continue_operation : ContinueRequest → Text
continue_operation request = operation_id (codes "continue") request.correlation_id

unfoldable pub continue_input : ContinueRequest → ℕ → EventInput
continue_input request revision = record {
  event_id = request.event_id;
  occurred_at = request.occurred_at;
  operation = continue_operation request;
  revision = revision;
  identity = request.observed_identity;
}

-- `transition === "accepted" || transition === "completed"`
unfoldable pub carries_assignment : MovingTransition → Bool
carries_assignment MovingTransition.accepted = true
carries_assignment MovingTransition.completed = true
carries_assignment _ = false

-- `recorded`
unfoldable pub recorded :
    ContinueRequest
    → ℕ
    → MovingTransition
    → List Text
    → List Text
    → Option (List Text)
    → Result Thrown WorkflowDecision
recorded request revision transition artifact_refs evidence_refs why = do
  draft ←
      draft_event (continue_input request revision) transition artifact_refs evidence_refs
        (if carries_assignment transition then request.resolved_assignment else none)
        (if carries_assignment transition then request.phase_execution else none) none
        (gate_verdict request).failures
  ok (WorkflowDecision.recorded (decided transition) draft why)

-- A completion that nothing rejects, with its assignment and its execution
unfoldable pub complete_with :
    Option Assignment
    → Option PhaseExecution
    → Completion
    → State
    → ContinueRequest
    → Result Thrown WorkflowDecision
complete_with none execution action state request = ok (WorkflowDecision.refused Refusal.uso)
complete_with (some assignment) none action state request =
    ok (WorkflowDecision.refused Refusal.uso)
complete_with (some assignment) (some execution) action state request =
    if execution_mismatch assignment execution
    then ok (WorkflowDecision.refused Refusal.execution_mismatch)
    else recorded request state.revision
        (if is_acceptance state.current_step
          then MovingTransition.completed
          else MovingTransition.accepted)
        action.artifact_refs action.evidence_refs none

-- Whether a completion is turned into a rejection
unfoldable pub is_rejected : GateVerdict → Completion → Bool
is_rejected verdict action =
    is_block verdict.outcome
    || not (is_empty (given_reasons action))
    || is_empty action.artifact_refs
    || is_empty action.evidence_refs

-- The action `complete-phase`
unfoldable pub complete_phase :
    Completion → State → ContinueRequest → Result Thrown WorkflowDecision
complete_phase action state request =
    if is_rejected (gate_verdict request) action
    then recorded request state.revision MovingTransition.rejected action.artifact_refs
        action.evidence_refs (some (rejection_why (gate_verdict request) action))
    else if is_acceptance state.current_step && not action.allow_final_completion
    then recorded request state.revision MovingTransition.rejected action.artifact_refs
        action.evidence_refs (some (codes "final-completion-not-allowed" ∷ []))
    else complete_with request.resolved_assignment request.phase_execution action state request

-- The branches by action
unfoldable pub act : Action → State → ContinueRequest → Result Thrown WorkflowDecision
act Action.resume state request =
    recorded request state.revision MovingTransition.resumed [] [] none
act (Action.reject artifact_refs evidence_refs) state request =
    recorded request state.revision MovingTransition.rejected artifact_refs evidence_refs
      (some (codes "explicit-reject" ∷ []))
act (Action.complete_phase action) state request = complete_phase action state request

abbrev pub is_reject : Action → Bool
is_reject (Action.reject artifact_refs evidence_refs) = true
is_reject _ = false

-- The guards on a run that is there
unfoldable pub continue_present : State → ContinueRequest → Result Thrown WorkflowDecision
continue_present state request =
    if not (state.feature == request.feature)
    then ok (WorkflowDecision.refused Refusal.feature_mismatch)
    else if not (state.run_id == request.run_id)
    then ok (WorkflowDecision.refused Refusal.runid_mismatch)
    else if includes state.operations (continue_operation request)
    then ok (WorkflowDecision.unchanged Unchanged.duplicate)
    else if is_completed state.status
    then ok (WorkflowDecision.unchanged Unchanged.already_completed)
    else if lacks_limits state
    then ok (WorkflowDecision.refused Refusal.uso)
    else if not (request.expected_revision == state.revision)
    then ok (WorkflowDecision.refused Refusal.revision_conflict)
    else if not (is_reject request.action) && is_held state
    then ok (WorkflowDecision.refused Refusal.stop_loss_rejections)
    else act request.action state request

-- The branches by what is observed
unfoldable pub continue_observed : Observation → ContinueRequest → Result Thrown WorkflowDecision
continue_observed Observation.corrupt request =
    ok (WorkflowDecision.refused Refusal.state_unreadable)
continue_observed (Observation.absent operations) request =
    ok (WorkflowDecision.refused Refusal.context_unreadable)
continue_observed (Observation.present state) request = continue_present state request

-- `decideContinueWorkflow`
unfoldable pub decide_continue_workflow :
    Observation → ContinueRequest → Result Thrown WorkflowDecision
decide_continue_workflow observation request =
    if not (valid_continue_request request)
    then ok (WorkflowDecision.refused Refusal.uso)
    else continue_observed observation request
