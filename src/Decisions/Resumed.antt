-- ===== src/Decisions/Resumed.antt =====
-- `decideStartWorkflow` on a run that is there: it is resumed, or its policy is upgraded.
use kratos_harness.Common.{
  ◌+◌, ◌≡◌, ◌≢◌, refl, sym, subst, Bool-cases, true, false, List, [], ◌∷◌, ◌++◌, Option, none, some,
  Text, arith, is_some, starts_with, codes, text_beq, ◌==◌, nat_eq, text_eq, ok, err, Thrown,
  returns, ◌⊎◌, inl, inr,
}
use kratos_harness.Workflow.Model.{State, Event, PolicyVersion, is_completed}
use kratos_harness.Workflow.Phases.{is_held, known_transition, reduce_known_workflow_reason}
use kratos_harness.Workflow.Starts.{
  is_upgrade_event, is_plain_legacy, is_legacy_run, reduce_policy_upgraded,
}
use kratos_harness.Workflow.Reducer.{
  reduce_with, reduce_workflow, reduce_by_reason, with_limits, reduce_limited,
}
use kratos_harness.Workflow.Run.{IsOrderly}
use kratos_harness.Decisions.Model.{Observation, StartRequest, Transition, Draft, WorkflowDecision}
use kratos_harness.Decisions.Requests.{operation_id}
use kratos_harness.Decisions.Drafts.{
  MovingTransition, moving_event, draft_event, phase_identity, policy_upgrade_event,
  transition_reason,
}
use kratos_harness.Decisions.Start.{
  lacks_limits, is_upgradable, requested_limits, start_operation, start_input, start_present,
  start_observed, decide_start_workflow,
}

-- What a start leaves of a run that was there: its phase and its history stay.
pub record IsResumed (state : State) (request : StartRequest) (next : State) : Type 0 where
  pub step : next.current_step ≡ state.current_step
  pub revision : next.revision ≡ state.revision + 1
  pub operations : next.operations ≡ state.operations ++ start_operation request ∷ []
  pub version : next.policy_version ≡ some PolicyVersion.workflow_v2
  pub ceiling : is_some next.acceptance_attempt_ceiling ≡ true
  pub attempts : next.attempts ≡ state.attempts
  pub stops : next.active_repair_stops ≡ state.active_repair_stops

-- A legacy run has had an event.
legacy-revision :
    (state : State)
    → IsOrderly state
    → is_legacy_run state.policy_version ≡ true
    → (state.revision == 0) ≡ false
legacy-revision state o h = elim (Bool-cases (state.revision == 0)) [
  | inl zero_ ↦ ground (arith, o.fresh (ground arith))
  | inr later ↦ later
]

start_operation-prefix :
    (request : StartRequest) → starts_with (start_operation request) (codes "sdd.start:") ≡ true
unfolding start_operation operation_id
start_operation-prefix request = refl

upgrade-returns :
    (state : State) (request : StartRequest)
    → is_upgradable state ≡ true
    → (state.revision == 0) ≡ false
    → (e : Thrown)
    → reduce_with PolicyVersion.workflow_v2 state
        (policy_upgrade_event (start_input request state.revision) (requested_limits request)).event
      ≢ err e
unfolding policy_upgrade_event start_input is_upgradable reduce_with reduce_workflow
    reduce_by_reason reduce_policy_upgraded is_upgrade_event is_plain_legacy text_beq
upgrade-returns state request u r e k = ground (arith, start_operation-prefix request)

upgrade-IsResumed :
    (state next : State) (request : StartRequest)
    → reduce_with PolicyVersion.workflow_v2 state
        (policy_upgrade_event (start_input request state.revision) (requested_limits request)).event
      ≡ ok next
    → IsResumed state request next
unfolding policy_upgrade_event start_input reduce_with reduce_workflow reduce_by_reason
    reduce_policy_upgraded
upgrade-IsResumed state next request k = ground arith

-- The event of a resumption
resume_event : State → StartRequest → Event
resume_event state request =
    moving_event (start_input request state.revision) MovingTransition.resumed [] none

resume-returns :
    (state : State) (request : StartRequest)
    → is_completed state.status ≡ false
    → lacks_limits state ≡ false
    → is_held state ≡ false
    → (e : Thrown)
    → reduce_with PolicyVersion.workflow_v2 state (resume_event state request) ≢ err e
unfolding resume_event start_input moving_event transition_reason lacks_limits reduce_with
    reduce_workflow reduce_by_reason with_limits reduce_limited reduce_known_workflow_reason
    known_transition
resume-returns state request c l f e k = ground arith

resume-IsResumed :
    (state next : State) (request : StartRequest)
    → lacks_limits state ≡ false
    → reduce_with PolicyVersion.workflow_v2 state (resume_event state request) ≡ ok next
    → IsResumed state request next
unfolding resume_event start_input moving_event transition_reason lacks_limits reduce_with
    reduce_workflow reduce_by_reason with_limits reduce_limited reduce_known_workflow_reason
    known_transition
resume-IsResumed state next request l k = ground arith

-- The two decisions that record an event on a run that is there
decide_start-present :
    (state : State) (request : StartRequest) {made : Transition} {draft : Draft}
    {reasons : Option (List Text)}
    → decide_start_workflow (Observation.present state) request
      ≡ ok (WorkflowDecision.recorded made draft reasons)
    → ((is_upgradable state ≡ true)
        × (draft.event
            ≡ (policy_upgrade_event
                (start_input request state.revision)
                (requested_limits request)).event))
      ⊎ ((is_completed state.status ≡ false)
          × (lacks_limits state ≡ false)
          × (is_held state ≡ false)
          × (draft.event ≡ resume_event state request))
unfolding decide_start_workflow start_observed start_present draft_event phase_identity resume_event
decide_start-present state request h = elim (Bool-cases (is_upgradable state)) [
  | inl yes_ ↦ inl (ground arith)
  | inr no_ ↦ inr (ground arith)
]

-- The run that the event of a start leads to
abbrev pub Resumes : State → StartRequest → Event → Type 0
Resumes state request event =
    (next : State) × (reduce_with event.policy_version state event ≡ ok next)
    × IsResumed state request next

upgradable-legacy :
    (state : State) → is_upgradable state ≡ true → is_legacy_run state.policy_version ≡ true
unfolding is_upgradable
upgradable-legacy state u = ground arith

upgrade-Resumes :
    (state : State) (request : StartRequest)
    → IsOrderly state
    → is_upgradable state ≡ true
    → Resumes state request
        (policy_upgrade_event (start_input request state.revision) (requested_limits request)).event
unfolding policy_upgrade_event
upgrade-Resumes state request o u =
    let (next, k) =
      returns _
        (upgrade-returns state request u (legacy-revision state o (upgradable-legacy state u))) in
    (next, k, upgrade-IsResumed state next request k)

resume-Resumes :
    (state : State) (request : StartRequest)
    → is_completed state.status ≡ false
    → lacks_limits state ≡ false
    → is_held state ≡ false
    → Resumes state request (resume_event state request)
unfolding resume_event moving_event
resume-Resumes state request c l f =
    let (next, k) = returns _ (resume-returns state request c l f) in
    (next, k, resume-IsResumed state next request l k)

-- A start that is recorded on an orderly run is accepted by the reducer, whether it resumes the
-- run or upgrades its policy: the phase, the attempts and the active stops stay, the operation is
-- noted, and the run has a ceiling of attempts under the current policy.
pub decide_start-Resumes :
    (state : State) (request : StartRequest) {made : Transition} {draft : Draft}
    {reasons : Option (List Text)}
    → IsOrderly state
    → decide_start_workflow (Observation.present state) request
      ≡ ok (WorkflowDecision.recorded made draft reasons)
    → Resumes state request draft.event
decide_start-Resumes state request o h = elim (decide_start-present state request h) [
  | inl (u, e) ↦ subst (Resumes state request) (sym e) (upgrade-Resumes state request o u)
  | inr (c, l, f, e) ↦ subst (Resumes state request) (sym e) (resume-Resumes state request c l f)
]
