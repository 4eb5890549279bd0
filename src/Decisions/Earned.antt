-- ===== src/Decisions/Earned.antt =====
-- When a phase is left or a run ends: what `decideContinueWorkflow` has seen by then.
use kratos_harness.Common.{
  ◌≡◌, ◌≢◌, refl, Bool, true, false, List, [], Option, none, some, Text, arith, is_empty, ok,
  text_iff, text_eq,
}
use kratos_harness.Gates.Model.{Outcome}
use kratos_harness.Workflow.Model.{State, Phase}
use kratos_harness.Decisions.Model.{
  Observation, ContinueRequest, Action, Completion, Assignment, PhaseExecution, Provenance,
  Transition, Draft, WorkflowDecision,
}
use kratos_harness.Decisions.Requests.{execution_mismatch, is_host_reported}
use kratos_harness.Decisions.Drafts.{draft_event, decided}
use kratos_harness.Decisions.Continued.{decide_continue-act}
use kratos_harness.Decisions.Continue.{
  recorded, complete_with, complete_phase, act, is_rejected, given_reasons, gate_verdict,
  carries_assignment, decide_continue_workflow,
}

-- A transition that leaves a phase or ends a run
unfoldable pub is_advance : Transition → Bool
is_advance Transition.accepted = true
is_advance Transition.completed = true
is_advance _ = false

-- What a host reports of an execution is what was assigned.
pub record IsAgreed (a : Assignment) (x : PhaseExecution) : Type 0 where
  pub model : (v : Text) → x.provenance ≡ Provenance.host_reported → x.model ≡ some v → v ≡ a.model
  pub effort :
      (v : Text) → x.provenance ≡ Provenance.host_reported → x.effort ≡ some v → v ≡ a.effort

-- An assignment was resolved and an execution reported, which agree.
pub record IsExecuted (request : ContinueRequest) : Type 0 where
  pub assignment : Assignment
  pub execution : PhaseExecution
  pub resolved : request.resolved_assignment ≡ some assignment
  pub reported : request.phase_execution ≡ some execution
  pub agreed : IsAgreed assignment execution

-- What such a transition has seen of the action, the gates and the assignment
pub record IsEarned (state : State) (request : ContinueRequest) (action : Completion)
    (draft : Draft) : Type 0 where
  pub action_is : request.action ≡ Action.complete_phase action
  pub unblocked : (gate_verdict request).outcome ≢ Outcome.block
  pub unopposed : given_reasons action ≡ []
  pub artifacts : is_empty action.artifact_refs ≡ false
  pub evidence : is_empty action.evidence_refs ≡ false
  pub final : state.current_step ≡ some Phase.acceptance → action.allow_final_completion ≡ true
  pub assigned : draft.resolved_assignment ≡ request.resolved_assignment
  pub assignment : draft.resolved_assignment ≢ none
  pub agreed : IsExecuted request

pub execution_mismatch-IsAgreed :
    (a : Assignment) (x : PhaseExecution) → execution_mismatch a x ≡ false → IsAgreed a x
unfolding execution_mismatch is_host_reported
execution_mismatch-IsAgreed a x h = record {
  model = λ v p m. ground (arith, text_iff v a.model);
  effort = λ v p m. ground (arith, text_iff v a.effort);
}

complete_with-agreed :
    (assignment : Option Assignment) (execution : Option PhaseExecution) (action : Completion)
    (state : State) (request : ContinueRequest) {made : Transition} {draft : Draft}
    {reasons : Option (List Text)}
    → complete_with assignment execution action state request
      ≡ ok (WorkflowDecision.recorded made draft reasons)
    → (a : Assignment) × (x : PhaseExecution) × (assignment ≡ some a)
      × (execution ≡ some x)
      × (execution_mismatch a x ≡ false)
unfolding complete_with
complete_with-agreed none execution action state request h = ground arith
complete_with-agreed (some a) none action state request h = ground arith
complete_with-agreed (some a) (some x) action state request h = (a, x, refl, refl, ground arith)

complete_phase-complete_with :
    (action : Completion) (state : State) (request : ContinueRequest) {made : Transition}
    {draft : Draft} {reasons : Option (List Text)}
    → is_advance made ≡ true
    → complete_phase action state request ≡ ok (WorkflowDecision.recorded made draft reasons)
    → complete_with request.resolved_assignment request.phase_execution action state request
      ≡ ok (WorkflowDecision.recorded made draft reasons)
unfolding complete_phase recorded decided is_advance
complete_phase-complete_with action state request a h = ground arith

complete_phase-IsExecuted :
    (action : Completion) (state : State) (request : ContinueRequest) {made : Transition}
    {draft : Draft} {reasons : Option (List Text)}
    → is_advance made ≡ true
    → complete_phase action state request ≡ ok (WorkflowDecision.recorded made draft reasons)
    → IsExecuted request
complete_phase-IsExecuted action state request a h =
    let (assignment, execution, resolved, reported, matched) =
      complete_with-agreed request.resolved_assignment request.phase_execution action state request
        (complete_phase-complete_with action state request a h) in
    record {
      assignment = assignment;
      execution = execution;
      resolved = resolved;
      reported = reported;
      agreed = execution_mismatch-IsAgreed assignment execution matched;
    }

module _ (request : ContinueRequest) (state : State) (made : Transition) (draft : Draft)
    (reasons : Option (List Text)) where
  act_completes :
      (c : Completion)
      → act (Action.complete_phase c) state request
        ≡ ok (WorkflowDecision.recorded made draft reasons)
      → complete_phase c state request ≡ ok (WorkflowDecision.recorded made draft reasons)
  unfolding act
  act_completes c h = h

  act-IsEarned :
      (action : Action)
      → request.action ≡ action
      → is_advance made ≡ true
      → act action state request ≡ ok (WorkflowDecision.recorded made draft reasons)
      → (completion : Completion) × IsEarned state request completion draft
  unfolding act complete_phase complete_with recorded draft_event is_rejected decided is_advance
      carries_assignment
  act-IsEarned Action.resume e a h = ground arith
  act-IsEarned (Action.reject refs evidence) e a h = ground arith
  act-IsEarned (Action.complete_phase c) e a h = (
    c,
    record {
      action_is = e;
      unblocked = λ b. ground arith;
      unopposed = ground arith;
      artifacts = ground arith;
      evidence = ground arith;
      final = λ f. ground arith;
      assigned = ground arith;
      assignment = λ n. ground arith;
      agreed = complete_phase-IsExecuted c state request a (act_completes c h);
    },
  )

-- No phase is left and no run completed unless the action completes the phase, the gates do not
-- block, no reason of a rejection is given, there are artifacts and evidence, the final phase is
-- allowed to complete, the event carries the assignment that was resolved, and an execution was
-- reported: the model and the effort of it that a host reports are those of the assignment.
pub decide_continue-IsEarned :
    (state : State) (request : ContinueRequest) {made : Transition} {draft : Draft}
    {reasons : Option (List Text)}
    → is_advance made ≡ true
    → decide_continue_workflow (Observation.present state) request
      ≡ ok (WorkflowDecision.recorded made draft reasons)
    → (completion : Completion) × IsEarned state request completion draft
decide_continue-IsEarned state request {made} {draft} {reasons} a h =
    act-IsEarned request state made draft reasons request.action refl a
      (decide_continue-act state request h)
