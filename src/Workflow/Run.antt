-- ===== src/Workflow/Run.antt =====
-- The runs that a verified event stream can replay to, and what holds of the control part of each:
-- status, phase, revision and the hold of a repair stop.
use kratos_harness.Common.{
  List, ◌∷◌, Result, Thrown, ◌>>=◌, >>=-eq-ok, ok-injective, All, subst, ◌+◌, ◌≡◌, true, false, [],
  none, some, arith, is_empty, is_some, ok, nat_eq, text_eq, ◌==◌,
}
use kratos_harness.Workflow.Model.{State, Event, Configuration, Phase, Status}
use kratos_harness.Workflow.Phases.{workflow_seed, reduce_known_workflow_reason}
use kratos_harness.Workflow.Starts.{
  is_plain_legacy, reduce_workflow_v1, reduce_policy_upgraded, reduce_started,
  reduce_started_from_spec,
}
use kratos_harness.Workflow.Acceptance.{has_canonical_acceptance_decision}
use kratos_harness.Workflow.Repair.{
  reduce_acceptance_passed, reduce_repair_required, reduce_stop_loss, reduce_repair_stop_resolved,
}
use kratos_harness.Workflow.Reducer.{
  reduce_with, reduce_workflow, reduce_by_reason, reduce_limited, with_limits,
}

-- One event of a verified stream: its revision follows the one before.
pub data Step (s : State) (t : State) : Type 0 where
  step :
      (event : Event)
      → event.resulting_revision ≡ event.prior_revision + 1
      → reduce_with event.policy_version s event ≡ ok t
      → Step s t

pub data Reach (configuration : Configuration) : State → Type 0 where
  start : Reach configuration (workflow_seed configuration)
  next : {s t : State} → Reach configuration s → Step s t → Reach configuration t

-- A run that no event has reached.
pub record IsFresh (s : State) : Type 0 where
  pub status : s.status ≡ Status.idle
  pub current_step : s.current_step ≡ none
  pub policy_version : s.policy_version ≡ none
  pub limits : s.acceptance_attempt_ceiling ≡ none
  pub attempts : s.attempts ≡ []
  pub stops : s.active_repair_stops ≡ []
  pub history : s.repair_stop_history ≡ []
  pub operations : s.operations ≡ []
  pub restart : s.specification_restart ≡ none

pub record IsOrderly (s : State) : Type 0 where
  pub fresh : s.revision ≡ 0 → IsFresh s
  pub idle : s.status ≡ Status.idle → s.revision ≡ 0
  pub completed : s.status ≡ Status.completed → s.current_step ≡ none
  pub blocked : s.status ≡ Status.blocked → is_some s.current_step ≡ true
  pub held : is_empty s.active_repair_stops ≡ false → s.status ≡ Status.blocked
  pub held_step : is_empty s.active_repair_stops ≡ false → s.current_step ≡ some Phase.acceptance
  pub unlimited : s.acceptance_attempt_ceiling ≡ none → s.attempts ≡ []
  pub unlimited_stops : s.acceptance_attempt_ceiling ≡ none → s.active_repair_stops ≡ []

pub workflow_seed-IsOrderly : (c : Configuration) → IsOrderly (workflow_seed c)
unfolding workflow_seed
workflow_seed-IsOrderly c = ground arith

is_plain_legacy-revision : (s : State) → is_plain_legacy s ≡ true → (s.revision == 0) ≡ false
unfolding is_plain_legacy
is_plain_legacy-revision s h = ground arith

module _ (s t : State) (e : Event) (h : IsOrderly s)
    (follows : e.resulting_revision ≡ e.prior_revision + 1) where
  known-IsOrderly : reduce_known_workflow_reason s e ≡ ok t → IsOrderly t
  unfolding reduce_known_workflow_reason
  known-IsOrderly eq = ground arith

  upgraded-IsOrderly : reduce_policy_upgraded s e ≡ ok t → IsOrderly t
  unfolding reduce_policy_upgraded
  upgraded-IsOrderly eq = ground (arith, is_plain_legacy-revision s)

  started-IsOrderly : reduce_started s e ≡ ok t → IsOrderly t
  unfolding reduce_started reduce_known_workflow_reason
  started-IsOrderly eq = ground arith

  from_spec-IsOrderly :
      e.prior_revision ≡ s.revision → reduce_started_from_spec s e ≡ ok t → IsOrderly t
  unfolding reduce_started_from_spec
  from_spec-IsOrderly same eq = ground arith

  passed-IsOrderly :
      e.prior_revision ≡ s.revision → reduce_acceptance_passed s e ≡ ok t → IsOrderly t
  unfolding reduce_acceptance_passed has_canonical_acceptance_decision
  passed-IsOrderly same eq = ground arith

  repair-IsOrderly : e.prior_revision ≡ s.revision → reduce_repair_required s e ≡ ok t → IsOrderly t
  unfolding reduce_repair_required has_canonical_acceptance_decision
  repair-IsOrderly same eq = ground arith

  stop_loss-IsOrderly : e.prior_revision ≡ s.revision → reduce_stop_loss s e ≡ ok t → IsOrderly t
  unfolding reduce_stop_loss has_canonical_acceptance_decision
  stop_loss-IsOrderly same eq = ground arith

  resolved-IsOrderly :
      e.prior_revision ≡ s.revision → reduce_repair_stop_resolved s e ≡ ok t → IsOrderly t
  unfolding reduce_repair_stop_resolved
  resolved-IsOrderly same eq = ground arith

  limited-IsOrderly :
      e.prior_revision ≡ s.revision → reduce_limited e.reason_code s e ≡ ok t → IsOrderly t
  unfolding reduce_limited
  limited-IsOrderly same eq = ground (
    arith, known-IsOrderly, passed-IsOrderly, repair-IsOrderly, stop_loss-IsOrderly,
    resolved-IsOrderly,
  )

  workflow-IsOrderly : reduce_workflow s e ≡ ok t → IsOrderly t
  unfolding reduce_workflow reduce_by_reason with_limits
  workflow-IsOrderly eq =
      ground (arith, upgraded-IsOrderly, started-IsOrderly, from_spec-IsOrderly, limited-IsOrderly)

  reduced-IsOrderly : reduce_with e.policy_version s e ≡ ok t → IsOrderly t
  unfolding reduce_with reduce_workflow_v1
  reduced-IsOrderly eq = ground (arith, known-IsOrderly, workflow-IsOrderly)

Step-IsOrderly : {s t : State} → IsOrderly s → Step s t → IsOrderly t
Step-IsOrderly {s} {t} h (step event follows eq) = reduced-IsOrderly s t event h follows eq

-- In every run that a verified stream replays to: a run without events is as it was seeded; an
-- idle run has had no event; a completed run has no phase and a blocked one has; a run with an
-- active repair stop is blocked at acceptance; and a run without limits has no attempts and no
-- stops.
pub Reach-IsOrderly : (c : Configuration) {s : State} → Reach c s → IsOrderly s
Reach-IsOrderly c start = workflow_seed-IsOrderly c
Reach-IsOrderly c (next r st) = Step-IsOrderly (Reach-IsOrderly c r) st

-- The loop of `replay` (events/reduce.ts) over the events of a verified stream.
unfoldable pub replay : State → List Event → Result Thrown State
replay s [] = ok s
replay s (e ∷ events) = do t ← reduce_with e.policy_version s e; replay t events

-- The revisions that a verified stream has.
abbrev pub Follows : List Event → Type 0
Follows = All (λ e. e.resulting_revision ≡ e.prior_revision + 1)

-- A run that replay ends in can be reached.
pub replay-Reach :
    (c : Configuration) (events : List Event) (s t : State)
    → Reach c s
    → Follows events
    → replay s events ≡ ok t
    → Reach c t
unfolding replay
replay-Reach c [] s t r f h = subst (Reach c) (ok-injective h) r
replay-Reach c (e ∷ events) s t r (f, g) h =
    let (u, first, rest) = >>=-eq-ok (reduce_with e.policy_version s e) _ h in
    replay-Reach c events u t (next r (step e f first)) g rest
