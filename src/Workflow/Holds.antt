-- ===== src/Workflow/Holds.antt =====
-- What a repair stop and a completion keep a run from.
use kratos_harness.Common.{◌≡◌, false, true, none, arith, is_empty, Bool, ok, nat_eq, text_eq}
use kratos_harness.Workflow.Model.{State, Event, Configuration, Status, ReasonCode}
use kratos_harness.Workflow.Phases.{reduce_known_workflow_reason}
use kratos_harness.Workflow.Acceptance.{has_canonical_acceptance_decision}
use kratos_harness.Workflow.Starts.{
  reduce_workflow_v1, reduce_policy_upgraded, reduce_started, reduce_started_from_spec,
  is_plain_legacy,
}
use kratos_harness.Workflow.Repair.{
  reduce_acceptance_passed, reduce_repair_required, reduce_stop_loss, reduce_repair_stop_resolved,
}
use kratos_harness.Workflow.Reducer.{
  reduce_with, reduce_workflow, reduce_by_reason, reduce_limited, with_limits,
}
use kratos_harness.Workflow.Run.{Reach, IsOrderly, Reach-IsOrderly}

abbrev pub resolves : ReasonCode → Bool
resolves ReasonCode.run_repair_stop_resolved = true
resolves _ = false

abbrev pub upgrades : ReasonCode → Bool
upgrades ReasonCode.run_policy_upgraded = true
upgrades _ = false

-- The event leaves the hold of the run as it is.
pub record Keeps (s t : State) : Type 0 where
  pub status : t.status ≡ Status.blocked
  pub current_step : t.current_step ≡ s.current_step
  pub stops : t.active_repair_stops ≡ s.active_repair_stops
  pub attempts : t.attempts ≡ s.attempts

module _ (s t : State) (e : Event) (h : IsOrderly s)
    (stopped : is_empty s.active_repair_stops ≡ false) where
  known-Keeps : reduce_known_workflow_reason s e ≡ ok t → Keeps s t
  unfolding reduce_known_workflow_reason
  known-Keeps eq = ground arith

  upgraded-Keeps : reduce_policy_upgraded s e ≡ ok t → ⊥
  unfolding reduce_policy_upgraded is_plain_legacy
  upgraded-Keeps eq = ground arith

  started-Keeps : e.reason_code ≡ ReasonCode.run_started → reduce_started s e ≡ ok t → ⊥
  unfolding reduce_started reduce_known_workflow_reason
  started-Keeps same eq = ground arith

  from_spec-Keeps : reduce_started_from_spec s e ≡ ok t → ⊥
  unfolding reduce_started_from_spec
  from_spec-Keeps eq = ground arith

  passed-Keeps : reduce_acceptance_passed s e ≡ ok t → ⊥
  unfolding reduce_acceptance_passed has_canonical_acceptance_decision
  passed-Keeps eq = ground arith

  repair-Keeps : reduce_repair_required s e ≡ ok t → ⊥
  unfolding reduce_repair_required has_canonical_acceptance_decision
  repair-Keeps eq = ground arith

  stop_loss-Keeps : reduce_stop_loss s e ≡ ok t → ⊥
  unfolding reduce_stop_loss has_canonical_acceptance_decision
  stop_loss-Keeps eq = ground arith

  limited-Keeps :
      resolves e.reason_code ≡ false → reduce_limited e.reason_code s e ≡ ok t → Keeps s t
  unfolding reduce_limited
  limited-Keeps other eq = ground (arith, known-Keeps, passed-Keeps, repair-Keeps, stop_loss-Keeps)

  workflow-Keeps : resolves e.reason_code ≡ false → reduce_workflow s e ≡ ok t → Keeps s t
  unfolding reduce_workflow reduce_by_reason with_limits
  workflow-Keeps other eq =
      ground (arith, upgraded-Keeps, started-Keeps, from_spec-Keeps, limited-Keeps)

  reduced-Keeps :
      resolves e.reason_code ≡ false → reduce_with e.policy_version s e ≡ ok t → Keeps s t
  unfolding reduce_with reduce_workflow_v1
  reduced-Keeps other eq = ground (arith, known-Keeps, workflow-Keeps)

-- While a run has an active repair stop, the only event that can lift it is the resolution of a
-- repair stop: any other event that is accepted leaves the run blocked, in its phase, with the
-- same active stops and the same attempts.
pub stop_holds :
    (c : Configuration) (s t : State) (e : Event)
    → Reach c s
    → is_empty s.active_repair_stops ≡ false
    → resolves e.reason_code ≡ false
    → reduce_with e.policy_version s e ≡ ok t
    → Keeps s t
stop_holds c s t e r stopped other eq = reduced-Keeps s t e (Reach-IsOrderly c r) stopped other eq

module _ (s t : State) (e : Event) (h : IsOrderly s) (done : s.status ≡ Status.completed) where
  known_final : reduce_known_workflow_reason s e ≡ ok t → ⊥
  unfolding reduce_known_workflow_reason
  known_final eq = ground arith

  started_final : reduce_started s e ≡ ok t → ⊥
  unfolding reduce_started reduce_known_workflow_reason
  started_final eq = ground arith

  from_spec_final : reduce_started_from_spec s e ≡ ok t → ⊥
  unfolding reduce_started_from_spec
  from_spec_final eq = ground arith

  passed_final : reduce_acceptance_passed s e ≡ ok t → ⊥
  unfolding reduce_acceptance_passed has_canonical_acceptance_decision
  passed_final eq = ground arith

  repair_final : reduce_repair_required s e ≡ ok t → ⊥
  unfolding reduce_repair_required has_canonical_acceptance_decision
  repair_final eq = ground arith

  stop_loss_final : reduce_stop_loss s e ≡ ok t → ⊥
  unfolding reduce_stop_loss has_canonical_acceptance_decision
  stop_loss_final eq = ground arith

  resolved_final : reduce_repair_stop_resolved s e ≡ ok t → ⊥
  unfolding reduce_repair_stop_resolved
  resolved_final eq = ground arith

  limited_final : reduce_limited e.reason_code s e ≡ ok t → ⊥
  unfolding reduce_limited
  limited_final eq =
      ground (arith, known_final, passed_final, repair_final, stop_loss_final, resolved_final)

  upgraded_final :
      reduce_policy_upgraded s e ≡ ok t → (t.status ≡ Status.completed) × (t.current_step ≡ none)
  unfolding reduce_policy_upgraded
  upgraded_final eq = ground arith

  workflow_final :
      reduce_workflow s e ≡ ok t
      → (upgrades e.reason_code ≡ true) × (t.status ≡ Status.completed) × (t.current_step ≡ none)
  unfolding reduce_workflow reduce_by_reason with_limits
  workflow_final eq = ground (arith, upgraded_final, started_final, from_spec_final, limited_final)

-- A completed run is final: it accepts no event but the upgrade of its policy version, and that
-- leaves it completed.
pub completed_final :
    (c : Configuration) (s t : State) (e : Event)
    → Reach c s
    → s.status ≡ Status.completed
    → reduce_with e.policy_version s e ≡ ok t
    → (upgrades e.reason_code ≡ true) × (t.status ≡ Status.completed) × (t.current_step ≡ none)
unfolding reduce_with reduce_workflow_v1
completed_final c s t e r done eq =
    let h = Reach-IsOrderly c r in
    ground (arith, known_final s t e h done, workflow_final s t e h done)
