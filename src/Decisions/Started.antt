-- ===== src/Decisions/Started.antt =====
-- `decideStartWorkflow` against the reducer.
use kratos_harness.Common.{
  ◌≡◌, ◌≢◌, refl, sym, subst, false, List, [], Option, none, some, Text, arith, is_some, is_empty,
  nat_eq, text_eq, ok, err, Thrown, returns, if◌then◌else◌, get_or,
}
use kratos_harness.Workflow.Model.{
  State, Event, Configuration, PolicyVersion, Phase, Status, SpecStart,
}
use kratos_harness.Workflow.Phases.{workflow_seed, known_transition, reduce_known_workflow_reason}
use kratos_harness.Workflow.Starts.{reduce_started, start_from_spec, reduce_started_from_spec}
use kratos_harness.Workflow.Reducer.{reduce_with, reduce_workflow, reduce_by_reason}
use kratos_harness.Decisions.Model.{Observation, StartRequest, Transition, Draft, WorkflowDecision}
use kratos_harness.Decisions.Drafts.{
  MovingTransition, moving_event, draft_event, phase_identity, transition_reason,
}
use kratos_harness.Decisions.Start.{
  requested_limits, start_input, restart_draft, start_absent, start_observed, decide_start_workflow,
}

-- What the start of a run leaves
pub record IsStarted (request : StartRequest) (next : State) : Type 0 where
  pub status : next.status ≡ Status.active
  pub step :
      next.current_step ≡ some (if is_some request.start_from_spec then Phase.spec else Phase.prd)
  pub revision : next.revision ≡ 1
  pub version : next.policy_version ≡ some PolicyVersion.workflow_v2
  pub ceiling : next.acceptance_attempt_ceiling ≡ some (get_or request.acceptance_attempt_ceiling 3)
  pub tokens : next.token_ceiling ≡ request.token_ceiling

-- The event of a start without a specification
start_event : StartRequest → Event
start_event request =
    moving_event (start_input request 0) MovingTransition.started []
      (some (requested_limits request))

start_event-reduces :
    (c : Configuration) (request : StartRequest)
    → request.start_from_spec ≡ none
    → (next : State) × (reduce_with
          (start_event request).policy_version
          (workflow_seed c)
          (start_event request)
        ≡ ok next)
      × IsStarted request next
unfolding start_event moving_event transition_reason start_input workflow_seed reduce_with
    reduce_workflow reduce_by_reason reduce_started reduce_known_workflow_reason known_transition
    requested_limits
start_event-reduces c request n = (
  _,
  refl,
  record {
    status = refl;
    step = rw n refl;
    revision = refl;
    version = refl;
    ceiling = refl;
    tokens = refl;
  },
)

restart_draft-returns :
    (c : Configuration) (request : StartRequest) (start : SpecStart)
    → is_empty start.retired_criterion_ids ≡ false
    → (e : Thrown)
    → reduce_with
        (restart_draft request start).event.policy_version
        (workflow_seed c)
        (restart_draft request start).event
      ≢ err e
unfolding restart_draft workflow_seed reduce_with reduce_workflow reduce_by_reason start_from_spec
    reduce_started_from_spec requested_limits
restart_draft-returns c request start h e k = ground arith

restart_draft-IsStarted :
    (c : Configuration) (request : StartRequest) (start : SpecStart) (next : State)
    → request.start_from_spec ≡ some start
    → reduce_with
        (restart_draft request start).event.policy_version
        (workflow_seed c)
        (restart_draft request start).event
      ≡ ok next
    → IsStarted request next
unfolding restart_draft workflow_seed reduce_with reduce_workflow reduce_by_reason start_from_spec
    reduce_started_from_spec requested_limits
restart_draft-IsStarted c request start next n k = ground arith

restart_draft-reduces :
    (c : Configuration) (request : StartRequest) (start : SpecStart)
    → request.start_from_spec ≡ some start
    → is_empty start.retired_criterion_ids ≡ false
    → (next : State) × (reduce_with
          (restart_draft request start).event.policy_version
          (workflow_seed c)
          (restart_draft request start).event
        ≡ ok next)
      × IsStarted request next
restart_draft-reduces c request start n h =
    let (next, k) =
      returns
        (reduce_with (restart_draft request start).event.policy_version (workflow_seed c)
          (restart_draft request start).event)
        (restart_draft-returns c request start h) in
    (next, k, restart_draft-IsStarted c request start next n k)

start_absent-none :
    (request : StartRequest) {made : Transition} {draft : Draft} {reasons : Option (List Text)}
    → start_absent none request ≡ ok (WorkflowDecision.recorded made draft reasons)
    → draft.event ≡ start_event request
unfolding start_absent draft_event phase_identity start_event
start_absent-none request h = ground arith

start_absent-some :
    (request : StartRequest) (start : SpecStart) {made : Transition} {draft : Draft}
    {reasons : Option (List Text)}
    → start_absent (some start) request ≡ ok (WorkflowDecision.recorded made draft reasons)
    → (is_empty start.retired_criterion_ids ≡ false) × (draft ≡ restart_draft request start)
unfolding start_absent
start_absent-some request start h = ground arith

-- The run that a first event leads to
abbrev pub Begins : Configuration → StartRequest → Draft → Type 0
Begins c request draft =
    (next : State) × (reduce_with draft.event.policy_version (workflow_seed c) draft.event
      ≡ ok next)
    × IsStarted request next

start_absent-Begins :
    (c : Configuration) (request : StartRequest) (start : Option SpecStart) {made : Transition}
    {draft : Draft} {reasons : Option (List Text)}
    → request.start_from_spec ≡ start
    → start_absent start request ≡ ok (WorkflowDecision.recorded made draft reasons)
    → Begins c request draft
start_absent-Begins c request none {draft = draft} n h =
    subst
      (λ v.
        (next : State) × (reduce_with v.policy_version (workflow_seed c) v ≡ ok next)
        × IsStarted request next)
      (sym (start_absent-none request h)) (start_event-reduces c request n)
start_absent-Begins c request (some start) n h =
    let (filled, e) = start_absent-some request start h in
    subst (Begins c request) (sym e) (restart_draft-reduces c request start n filled)

decide_start-absent :
    (operations : List Text) (request : StartRequest) {made : Transition} {draft : Draft}
    {reasons : Option (List Text)}
    → decide_start_workflow (Observation.absent operations) request
      ≡ ok (WorkflowDecision.recorded made draft reasons)
    → start_absent request.start_from_spec request
      ≡ ok (WorkflowDecision.recorded made draft reasons)
unfolding decide_start_workflow start_observed
decide_start-absent operations request h = ground arith

-- A start that is recorded where no run is there is accepted by the reducer on the seed of any
-- run: the run is active at `prd`, or at `spec` if it starts from a specification, at revision
-- one, with the ceilings asked for, three attempts if none was.
pub decide_start-Begins :
    (c : Configuration) (operations : List Text) (request : StartRequest) {made : Transition}
    {draft : Draft} {reasons : Option (List Text)}
    → decide_start_workflow (Observation.absent operations) request
      ≡ ok (WorkflowDecision.recorded made draft reasons)
    → Begins c request draft
decide_start-Begins c operations request h =
    start_absent-Begins c request request.start_from_spec refl
      (decide_start-absent operations request h)
