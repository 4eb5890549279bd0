-- ===== src/Decisions/Continued.antt =====
-- `decideContinueWorkflow` and `decideRecordFact` against the reducer, and their guards.
use kratos_harness.Common.{
  ℕ, ◌≡◌, ◌≢◌, refl, sym, subst, Bool-cases, true, false, ◌&&◌, not, List, [], ◌∷◌, Option, none,
  some, Text, arith, is_some, includes, nat_eq, text_eq, text_iff, ok, inl, inr, codes,
}
use kratos_harness.Workflow.Model.{State, PolicyVersion, is_completed, is_acceptance}
use kratos_harness.Workflow.Phases.{is_held}
use kratos_harness.Workflow.Reducer.{reduce_with}
use kratos_harness.Decisions.Model.{
  Observation, ContinueRequest, Action, Completion, Assignment, PhaseExecution, Transition, Draft,
  WorkflowDecision,
}
use kratos_harness.Decisions.Requests.{execution_mismatch, valid_continue_request}
use kratos_harness.Decisions.Drafts.{MovingTransition, moving_event, draft_event, decided}
use kratos_harness.Decisions.Start.{lacks_limits}
use kratos_harness.Decisions.Continue.{
  act, complete_phase, complete_with, recorded, continue_input, continue_present, continue_observed,
  continue_operation, decide_continue_workflow, is_reject, is_rejected, gate_verdict, rejection_why,
}
use kratos_harness.Decisions.Applied.{after, Allowed, moving_event-reduces}

-- The event of a decision is accepted by the reducer of its policy, and does what the transition
-- says.
pub record Applies (transition : Transition) (operation : Text) (state : State) (draft : Draft)
    : Type 0 where
  pub recorded_operation : draft.event.operation ≡ operation
  pub version : draft.event.policy_version ≡ PolicyVersion.workflow_v2
  pub prior : draft.event.prior_revision ≡ state.revision
  pub reduced :
      reduce_with PolicyVersion.workflow_v2 state draft.event
      ≡ ok (after transition state draft.event)

-- A run that an action may move
pub record IsOpen (state : State) : Type 0 where
  pub limits : is_some state.acceptance_attempt_ceiling ≡ true
  pub step : is_some state.current_step ≡ true
  pub status : is_completed state.status ≡ false

recorded-event :
    (request : ContinueRequest) (revision : ℕ) (transition : MovingTransition)
    (refs evidence : List Text) (why : Option (List Text)) (made : Transition) (draft : Draft)
    (reasons : Option (List Text))
    → recorded request revision transition refs evidence why
      ≡ ok (WorkflowDecision.recorded made draft reasons)
    → (made ≡ decided transition)
      × (draft.event ≡ moving_event (continue_input request revision) transition refs none)
unfolding recorded draft_event
recorded-event request revision transition refs evidence why made draft reasons h = ground arith

module _ (request : ContinueRequest) (state : State) (made : Transition) (draft : Draft)
    (reasons : Option (List Text)) (open_ : IsOpen state) where
  recorded-Applies :
      (transition : MovingTransition) (refs evidence : List Text) (why : Option (List Text))
      → transition ≢ MovingTransition.started
      → Allowed transition state
      → recorded request state.revision transition refs evidence why
        ≡ ok (WorkflowDecision.recorded made draft reasons)
      → Applies made (continue_operation request) state draft
  unfolding moving_event continue_input
  recorded-Applies transition refs evidence why n a h =
      let (m, e) =
        recorded-event request state.revision transition refs evidence why made draft reasons h in
      let input = continue_input request state.revision in
      let event = moving_event input transition refs none in
      record {
        recorded_operation = rw e refl;
        version = rw e refl;
        prior = rw e refl;
        reduced =
            subst
              (λ t.
                reduce_with PolicyVersion.workflow_v2 state draft.event
                ≡ ok (after t state draft.event))
              (sym m)
              (subst
                (λ v.
                  reduce_with PolicyVersion.workflow_v2 state v
                  ≡ ok (after (decided transition) state v))
                (sym e)
                (moving_event-reduces transition state input refs n refl open_.limits open_.step
                  open_.status a));
      }

  rejected-Applies :
      (refs evidence : List Text) (why : Option (List Text))
      → recorded request state.revision MovingTransition.rejected refs evidence why
        ≡ ok (WorkflowDecision.recorded made draft reasons)
      → Applies made (continue_operation request) state draft
  unfolding Allowed
  rejected-Applies refs evidence why h =
      recorded-Applies MovingTransition.rejected refs evidence why (ground arith) tt h

  complete_with-Applies :
      (assignment : Option Assignment) (execution : Option PhaseExecution) (action : Completion)
      → is_held state ≡ false
      → complete_with assignment execution action state request
        ≡ ok (WorkflowDecision.recorded made draft reasons)
      → Applies made (continue_operation request) state draft
  unfolding complete_with Allowed
  complete_with-Applies none execution action f h = ground arith
  complete_with-Applies (some a) none action f h = ground arith
  complete_with-Applies (some a) (some x) action f h = elim (Bool-cases (execution_mismatch a x)) [
    | inl bad ↦ ground arith
    | inr fits ↦ elim (Bool-cases (is_acceptance state.current_step)) [
      | inl final ↦
          recorded-Applies MovingTransition.completed action.artifact_refs action.evidence_refs none
            (ground arith) (f, final) (ground arith)
      | inr earlier ↦
          recorded-Applies MovingTransition.accepted action.artifact_refs action.evidence_refs none
            (ground arith) (f, earlier) (ground arith)
    ]
  ]

  complete_phase-Applies :
      (action : Completion)
      → is_held state ≡ false
      → complete_phase action state request ≡ ok (WorkflowDecision.recorded made draft reasons)
      → Applies made (continue_operation request) state draft
  unfolding complete_phase
  complete_phase-Applies action f h =
      elim (Bool-cases (is_rejected (gate_verdict request) action)) [
        | inl bad ↦
            rejected-Applies action.artifact_refs action.evidence_refs
              (some (rejection_why (gate_verdict request) action)) (ground arith)
        | inr good ↦
            elim (Bool-cases
              (is_acceptance state.current_step && not action.allow_final_completion)) [
                | inl early ↦
                    rejected-Applies action.artifact_refs action.evidence_refs
                      (some (codes "final-completion-not-allowed" ∷ [])) (ground arith)
                | inr allowed ↦
                    complete_with-Applies request.resolved_assignment request.phase_execution action
                      f (ground arith)
              ]
      ]

  act-Applies :
      (action : Action)
      → (is_reject action ≡ false → is_held state ≡ false)
      → act action state request ≡ ok (WorkflowDecision.recorded made draft reasons)
      → Applies made (continue_operation request) state draft
  unfolding act Allowed
  act-Applies Action.resume f h =
      recorded-Applies MovingTransition.resumed [] [] none (ground arith) (f refl) h
  act-Applies (Action.reject refs evidence) f h =
      rejected-Applies refs evidence (some (codes "explicit-reject" ∷ [])) h
  act-Applies (Action.complete_phase action) f h = complete_phase-Applies action (f refl) h

-- What a recorded decision has found of the run and the request
pub record IsAdmitted (state : State) (request : ContinueRequest) : Type 0 where
  pub valid : valid_continue_request request ≡ true
  pub feature : state.feature ≡ request.feature
  pub run : state.run_id ≡ request.run_id
  pub revision : request.expected_revision ≡ state.revision
  pub fresh : includes state.operations (continue_operation request) ≡ false
  pub status : is_completed state.status ≡ false
  pub limits : is_some state.acceptance_attempt_ceiling ≡ true
  pub version : state.policy_version ≡ some PolicyVersion.workflow_v2
  pub free : is_reject request.action ≡ false → is_held state ≡ false

pub decide_continue-IsAdmitted :
    (state : State) (request : ContinueRequest) {made : Transition} {draft : Draft}
    {reasons : Option (List Text)}
    → decide_continue_workflow (Observation.present state) request
      ≡ ok (WorkflowDecision.recorded made draft reasons)
    → IsAdmitted state request
unfolding decide_continue_workflow continue_observed continue_present lacks_limits
decide_continue-IsAdmitted state request h =
    ground (arith, text_iff state.feature request.feature, text_iff state.run_id request.run_id)

pub decide_continue-act :
    (state : State) (request : ContinueRequest) {made : Transition} {draft : Draft}
    {reasons : Option (List Text)}
    → decide_continue_workflow (Observation.present state) request
      ≡ ok (WorkflowDecision.recorded made draft reasons)
    → act request.action state request ≡ ok (WorkflowDecision.recorded made draft reasons)
unfolding decide_continue_workflow continue_observed continue_present
decide_continue-act state request h = ground arith

-- A continuation that is recorded was asked of the run and the feature at hand, at its present
-- revision, once, with its limits, while it is not completed, and unless it rejects, while no
-- repair stop holds it; and if the run is in a phase, the reducer accepts the event, and it does
-- to the run what the transition says: resume, go to the next phase, block in the same one, or
-- complete.
pub decide_continue-Applies :
    (state : State) (request : ContinueRequest) {made : Transition} {draft : Draft}
    {reasons : Option (List Text)}
    → is_some state.current_step ≡ true
    → decide_continue_workflow (Observation.present state) request
      ≡ ok (WorkflowDecision.recorded made draft reasons)
    → IsAdmitted state request × Applies made (continue_operation request) state draft
decide_continue-Applies state request {made} {draft} {reasons} step h =
    let admitted = decide_continue-IsAdmitted state request h in
    (
      admitted,
      act-Applies request state made draft reasons
          (record { limits = admitted.limits; step = step; status = admitted.status })
          request.action admitted.free (decide_continue-act state request h),
    )
