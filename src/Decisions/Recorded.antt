-- ===== src/Decisions/Recorded.antt =====
-- `decideRecordFact` and `decideResolveRepairStop` against the reducer, and their guards.
use kratos_harness.Common.{
  ◌≡◌, ◌≢◌, none, refl, sym, subst, true, false, List, Option, some, Text, arith, is_some, includes,
  nat_eq, text_eq, text_iff, ok,
}
use kratos_harness.Workflow.Model.{State, PolicyVersion, is_completed}
use kratos_harness.Workflow.Phases.{record_fact, known_transition, reduce_known_workflow_reason}
use kratos_harness.Workflow.Reducer.{
  reduce_with, reduce_workflow, reduce_by_reason, with_limits, reduce_limited,
}
use kratos_harness.Decisions.Model.{
  Observation, FactRequest, FactOperation, Transition, Draft, ObservedIdentity, WorkflowDecision,
  Assignment, PhaseExecution,
}
use kratos_harness.Decisions.Drafts.{fact_reason}
use kratos_harness.Decisions.Start.{lacks_limits}
use kratos_harness.Decisions.Record.{
  fact_operation, fact_draft, record_present, record_observed, decide_record_fact,
  valid_fact_request, requires_assignment, has_parts, parts_mismatch,
}
use kratos_harness.Decisions.Earned.{IsAgreed, execution_mismatch-IsAgreed}
use kratos_harness.Decisions.Applied.{after, moved}
use kratos_harness.Decisions.Continued.{Applies, IsOpen}

fact_draft-reduces :
    (operation : FactOperation) (state : State) (request : FactRequest)
    (observed : ObservedIdentity)
    → request.operation ≡ operation
    → IsOpen state
    → reduce_with PolicyVersion.workflow_v2 state (fact_draft state request observed).event
      ≡ ok (after Transition.observed state (fact_draft state request observed).event)
unfolding after moved fact_draft fact_reason reduce_with reduce_workflow reduce_by_reason
    with_limits reduce_limited reduce_known_workflow_reason known_transition record_fact
fact_draft-reduces FactOperation.agent_record state request observed e o =
    ground (arith, o.limits, o.step, o.status)
fact_draft-reduces FactOperation.gaps_record state request observed e o =
    ground (arith, o.limits, o.step, o.status)
fact_draft-reduces FactOperation.gaps_resolve state request observed e o =
    ground (arith, o.limits, o.step, o.status)
fact_draft-reduces FactOperation.gaps_waive state request observed e o =
    ground (arith, o.limits, o.step, o.status)
fact_draft-reduces FactOperation.gates_record state request observed e o =
    ground (arith, o.limits, o.step, o.status)

-- What a recorded fact has found of the run and the request
pub record IsFactAdmitted (state : State) (request : FactRequest) : Type 0 where
  pub valid : valid_fact_request request ≡ true
  pub feature : state.feature ≡ request.feature
  pub run : state.run_id ≡ request.run_id
  pub revision : request.expected_revision ≡ state.revision
  pub fresh : includes state.operations (fact_operation request) ≡ false
  pub status : is_completed state.status ≡ false
  pub limits : is_some state.acceptance_attempt_ceiling ≡ true
  pub version : state.policy_version ≡ some PolicyVersion.workflow_v2
  pub agent :
      request.operation ≡ FactOperation.agent_record
      → (request.resolved_assignment ≢ none) × (request.phase_execution ≢ none)
  pub other :
      request.operation ≢ FactOperation.agent_record
      → (request.resolved_assignment ≡ none) × (request.phase_execution ≡ none)
  pub agree :
      (a : Assignment) (x : PhaseExecution)
      → request.resolved_assignment ≡ some a
      → request.phase_execution ≡ some x
      → IsAgreed a x

absent : {A : Type 0} (o : Option A) → is_some o ≡ false → o ≡ none
absent none h = refl
absent (some a) h = ground arith

agent_parts :
    (request : FactRequest)
    → has_parts request ≡ true
    → request.operation ≡ FactOperation.agent_record
    → (request.resolved_assignment ≢ none) × (request.phase_execution ≢ none)
unfolding has_parts requires_assignment
agent_parts request h e = (λ n. ground arith, λ n. ground arith)

other_operation :
    (operation : FactOperation)
    → operation ≢ FactOperation.agent_record
    → requires_assignment operation ≡ false
unfolding requires_assignment
other_operation FactOperation.agent_record n = absurd (n refl)
other_operation FactOperation.gaps_record n = refl
other_operation FactOperation.gaps_resolve n = refl
other_operation FactOperation.gaps_waive n = refl
other_operation FactOperation.gates_record n = refl

other_parts :
    (request : FactRequest)
    → has_parts request ≡ true
    → request.operation ≢ FactOperation.agent_record
    → (request.resolved_assignment ≡ none) × (request.phase_execution ≡ none)
unfolding has_parts
other_parts request h n =
    let e = other_operation request.operation n in
    (
      absent request.resolved_assignment (ground arith),
      absent request.phase_execution (ground arith),
    )

decide_record-parts :
    (state : State) (request : FactRequest) {made : Transition} {draft : Draft}
    {reasons : Option (List Text)}
    → decide_record_fact (Observation.present state) request
      ≡ ok (WorkflowDecision.recorded made draft reasons)
    → has_parts request ≡ true
unfolding decide_record_fact record_observed record_present
decide_record-parts state request h = ground arith

decide_record-agreed :
    (state : State) (request : FactRequest) {made : Transition} {draft : Draft}
    {reasons : Option (List Text)}
    → decide_record_fact (Observation.present state) request
      ≡ ok (WorkflowDecision.recorded made draft reasons)
    → parts_mismatch request.resolved_assignment request.phase_execution ≡ false
unfolding decide_record_fact record_observed record_present
decide_record-agreed state request h = ground arith

parts-IsAgreed :
    (request : FactRequest) (a : Assignment) (x : PhaseExecution)
    → parts_mismatch request.resolved_assignment request.phase_execution ≡ false
    → request.resolved_assignment ≡ some a
    → request.phase_execution ≡ some x
    → IsAgreed a x
unfolding parts_mismatch
parts-IsAgreed request a x h e f = execution_mismatch-IsAgreed a x (ground arith)

decide_record-IsFactAdmitted :
    (state : State) (request : FactRequest) {made : Transition} {draft : Draft}
    {reasons : Option (List Text)}
    → decide_record_fact (Observation.present state) request
      ≡ ok (WorkflowDecision.recorded made draft reasons)
    → IsFactAdmitted state request
unfolding decide_record_fact record_observed record_present lacks_limits
decide_record-IsFactAdmitted state request h = record {
  valid = ground arith;
  feature = (text_iff state.feature request.feature).0 (ground arith);
  run = (text_iff state.run_id request.run_id).0 (ground arith);
  revision = ground arith;
  fresh = ground arith;
  status = ground arith;
  limits = ground arith;
  version = ground arith;
  agent = agent_parts request (decide_record-parts state request h);
  other = other_parts request (decide_record-parts state request h);
  agree = λ a x. parts-IsAgreed request a x (decide_record-agreed state request h);
}

decide_record-draft :
    (state : State) (request : FactRequest) {made : Transition} {draft : Draft}
    {reasons : Option (List Text)}
    → decide_record_fact (Observation.present state) request
      ≡ ok (WorkflowDecision.recorded made draft reasons)
    → (made ≡ Transition.observed) × (draft ≡ fact_draft state request draft.observed_identity)
unfolding decide_record_fact record_observed record_present fact_draft
decide_record-draft state request h = ground arith

fact_draft-Applies :
    (state : State) (request : FactRequest) (observed : ObservedIdentity)
    → IsOpen state
    → Applies Transition.observed (fact_operation request) state (fact_draft state request observed)
unfolding fact_draft
fact_draft-Applies state request observed o = record {
  recorded_operation = refl;
  version = refl;
  prior = refl;
  reduced = fact_draft-reduces request.operation state request observed refl o;
}

-- A fact that is recorded has the guards of a continuation. The record of an agent has an
-- assignment and an execution, in which the model and the effort that a host reports are those of
-- the assignment, and any other fact has neither. If the run is in a phase, the reducer accepts
-- the event, which changes neither status nor phase.
pub decide_record-Applies :
    (state : State) (request : FactRequest) {made : Transition} {draft : Draft}
    {reasons : Option (List Text)}
    → is_some state.current_step ≡ true
    → decide_record_fact (Observation.present state) request
      ≡ ok (WorkflowDecision.recorded made draft reasons)
    → IsFactAdmitted state request × Applies made (fact_operation request) state draft
decide_record-Applies state request {made} {draft} {reasons} step h =
    let admitted = decide_record-IsFactAdmitted state request h in
    let (m, e) = decide_record-draft state request h in
    let o : IsOpen state = record {
      limits = admitted.limits;
      step = step;
      status = admitted.status;
    } in
    (
      admitted,
      subst (λ t. Applies t (fact_operation request) state draft) (sym m)
          (subst (λ d. Applies Transition.observed (fact_operation request) state d) (sym e)
            (fact_draft-Applies state request draft.observed_identity o)),
    )
