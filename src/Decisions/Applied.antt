-- ===== src/Decisions/Applied.antt =====
-- What the event of a decision does to the run that it was decided on.
use kratos_harness.Common.{
  ◌+◌, ◌≡◌, ◌≢◌, refl, true, false, List, [], ◌∷◌, ◌++◌, Option, none, some, Text, arith, is_some,
  get_or, nat_eq, text_eq, ok,
}
use kratos_harness.Workflow.Model.{
  State, Event, Phase, Status, PolicyVersion, is_completed, is_acceptance,
}
use kratos_harness.Workflow.Phases.{
  next_phase, is_held, record_fact, known_transition, reduce_known_workflow_reason,
}
use kratos_harness.Workflow.Reducer.{
  reduce_with, reduce_workflow, reduce_by_reason, with_limits, reduce_limited,
}
use kratos_harness.Decisions.Model.{Transition}
use kratos_harness.Decisions.Drafts.{
  EventInput, MovingTransition, moving_event, transition_reason, decided,
}

-- The status and the phase after a transition
unfoldable pub moved : Transition → State → Status × Option Phase
moved Transition.started state = (Status.active, some Phase.prd)
moved Transition.resumed state = (Status.active, state.current_step)
moved Transition.accepted state = (Status.active, next_phase state.current_step)
moved Transition.rejected state = (Status.blocked, state.current_step)
moved Transition.completed state = (Status.completed, none)
moved _ state = (state.status, state.current_step)

-- The run after a transition that its event records
unfoldable pub after : Transition → State → Event → State
after transition state event = record state {
  status = (moved transition state).0;
  current_step = (moved transition state).1;
  revision = state.revision + 1;
  created_at = some (get_or state.created_at event.occurred_at);
  updated_at = some event.occurred_at;
  operations = state.operations ++ event.operation ∷ [];
  policy_version = some PolicyVersion.workflow_v2;
}

-- What a decision has checked of the run, for each transition
unfoldable pub Allowed : MovingTransition → State → Type 0
Allowed MovingTransition.started state = state.revision ≡ 0
Allowed MovingTransition.resumed state = is_held state ≡ false
Allowed MovingTransition.accepted state =
    (is_held state ≡ false) × (is_acceptance state.current_step ≡ false)
Allowed MovingTransition.rejected state = Unit
Allowed MovingTransition.completed state =
    (is_held state ≡ false) × (is_acceptance state.current_step ≡ true)

pub moving_event-reduces :
    (transition : MovingTransition) (state : State) (input : EventInput) (refs : List Text)
    → transition ≢ MovingTransition.started
    → input.revision ≡ state.revision
    → is_some state.acceptance_attempt_ceiling ≡ true
    → is_some state.current_step ≡ true
    → is_completed state.status ≡ false
    → Allowed transition state
    → reduce_with PolicyVersion.workflow_v2 state (moving_event input transition refs none)
      ≡ ok (after (decided transition) state (moving_event input transition refs none))
unfolding Allowed after moved decided moving_event transition_reason reduce_with reduce_workflow
    reduce_by_reason with_limits reduce_limited reduce_known_workflow_reason known_transition
    record_fact next_phase
moving_event-reduces MovingTransition.started state input refs n e l s c a = absurd (n refl)
moving_event-reduces MovingTransition.resumed state input refs n e l s c a = ground arith
moving_event-reduces MovingTransition.accepted state input refs n e l s c a = ground arith
moving_event-reduces MovingTransition.rejected state input refs n e l s c a = ground arith
moving_event-reduces MovingTransition.completed state input refs n e l s c a = ground arith
