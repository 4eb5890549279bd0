-- ===== src/Workflow/Diagram.antt =====
-- The phase diagram of a run, with everything but the phase left out: the abstract machine that the
-- reducers implement.
use kratos_harness.Common.{
  ◌≡◌, false, true, [], ◌∷◌, List, Option, none, some, arith, is_empty, find, Bool, ok, ◌==◌,
  text_eq,
}
use kratos_harness.Workflow.Model.{State, Event, Configuration, Phase, RepairStop, ResolutionFact}
use kratos_harness.Workflow.Phases.{reduce_known_workflow_reason}
use kratos_harness.Workflow.Acceptance.{has_canonical_acceptance_decision}
use kratos_harness.Workflow.Starts.{
  reduce_workflow_v1, reduce_policy_upgraded, reduce_started, reduce_started_from_spec,
}
use kratos_harness.Workflow.Repair.{
  reduce_acceptance_passed, reduce_repair_required, reduce_stop_loss, reduce_repair_stop_resolved,
  stop_agrees,
}
use kratos_harness.Workflow.Reducer.{
  reduce_with, reduce_workflow, reduce_by_reason, reduce_limited, with_limits,
}
use kratos_harness.Workflow.Run.{Step, step, Reach, IsOrderly, Reach-IsOrderly}

pub data Moves : Option Phase → Option Phase → Type 0 where
  begin : Moves none (some Phase.prd)
  begin_at_spec : Moves none (some Phase.spec)
  stay : {p : Option Phase} → Moves p p
  specify : Moves (some Phase.prd) (some Phase.spec)
  design : Moves (some Phase.spec) (some Phase.plan)
  implement : Moves (some Phase.plan) (some Phase.code)
  submit : Moves (some Phase.code) (some Phase.review)
  approve : Moves (some Phase.review) (some Phase.acceptance)
  repair : Moves (some Phase.acceptance) (some Phase.code)
  finish : Moves (some Phase.acceptance) none

-- The diagram as a test, in which the proofs below compute.
moves : Option Phase → Option Phase → Bool
moves none none = true
moves none (some Phase.prd) = true
moves none (some Phase.spec) = true
moves (some Phase.prd) (some Phase.prd) = true
moves (some Phase.prd) (some Phase.spec) = true
moves (some Phase.spec) (some Phase.spec) = true
moves (some Phase.spec) (some Phase.plan) = true
moves (some Phase.plan) (some Phase.plan) = true
moves (some Phase.plan) (some Phase.code) = true
moves (some Phase.code) (some Phase.code) = true
moves (some Phase.code) (some Phase.review) = true
moves (some Phase.review) (some Phase.review) = true
moves (some Phase.review) (some Phase.acceptance) = true
moves (some Phase.acceptance) (some Phase.acceptance) = true
moves (some Phase.acceptance) (some Phase.code) = true
moves (some Phase.acceptance) none = true
moves _ _ = false

moves-Moves : (p q : Option Phase) → moves p q ≡ true → Moves p q
unfolding moves
moves-Moves none none h = stay
moves-Moves none (some Phase.prd) h = begin
moves-Moves none (some Phase.spec) h = begin_at_spec
moves-Moves (some Phase.prd) (some Phase.prd) h = stay
moves-Moves (some Phase.prd) (some Phase.spec) h = specify
moves-Moves (some Phase.spec) (some Phase.spec) h = stay
moves-Moves (some Phase.spec) (some Phase.plan) h = design
moves-Moves (some Phase.plan) (some Phase.plan) h = stay
moves-Moves (some Phase.plan) (some Phase.code) h = implement
moves-Moves (some Phase.code) (some Phase.code) h = stay
moves-Moves (some Phase.code) (some Phase.review) h = submit
moves-Moves (some Phase.review) (some Phase.review) h = stay
moves-Moves (some Phase.review) (some Phase.acceptance) h = approve
moves-Moves (some Phase.acceptance) (some Phase.acceptance) h = stay
moves-Moves (some Phase.acceptance) (some Phase.code) h = repair
moves-Moves (some Phase.acceptance) none h = finish
moves-Moves _ _ h = cc

stop_agrees-nonempty :
    (p : RepairStop → Bool) (stops : List RepairStop) (r : ResolutionFact)
    → stop_agrees (find p stops) r ≡ true
    → is_empty stops ≡ false
stop_agrees-nonempty p [] r h = ground arith
stop_agrees-nonempty p (s ∷ stops) r h = ground arith

module _ (s t : State) (e : Event) (h : IsOrderly s) where
  known-moves : reduce_known_workflow_reason s e ≡ ok t → moves s.current_step t.current_step ≡ true
  unfolding reduce_known_workflow_reason moves
  known-moves eq = ground arith

  upgraded-moves : reduce_policy_upgraded s e ≡ ok t → moves s.current_step t.current_step ≡ true
  unfolding reduce_policy_upgraded moves
  upgraded-moves eq = ground arith

  started-moves : reduce_started s e ≡ ok t → moves s.current_step t.current_step ≡ true
  unfolding reduce_started reduce_known_workflow_reason moves
  started-moves eq = ground arith

  from_spec-moves : reduce_started_from_spec s e ≡ ok t → moves s.current_step t.current_step ≡ true
  unfolding reduce_started_from_spec moves
  from_spec-moves eq = ground arith

  passed-moves : reduce_acceptance_passed s e ≡ ok t → moves s.current_step t.current_step ≡ true
  unfolding reduce_acceptance_passed moves
  passed-moves eq = ground arith

  repair-moves : reduce_repair_required s e ≡ ok t → moves s.current_step t.current_step ≡ true
  unfolding reduce_repair_required has_canonical_acceptance_decision moves
  repair-moves eq = ground arith

  stop_loss-moves : reduce_stop_loss s e ≡ ok t → moves s.current_step t.current_step ≡ true
  unfolding reduce_stop_loss moves
  stop_loss-moves eq = ground arith

  resolved-moves :
      reduce_repair_stop_resolved s e ≡ ok t → moves s.current_step t.current_step ≡ true
  unfolding reduce_repair_stop_resolved moves
  resolved-moves eq = elim e.repair_resolution [
    | none ↦ ground arith
    | some r ↦ ground (
      arith,
      stop_agrees-nonempty (λ x. x.criterion_id == r.criterion_id) s.active_repair_stops r,
    )
  ]

  limited-moves :
      reduce_limited e.reason_code s e ≡ ok t → moves s.current_step t.current_step ≡ true
  unfolding reduce_limited
  limited-moves eq =
      ground (arith, known-moves, passed-moves, repair-moves, stop_loss-moves, resolved-moves)

  workflow-moves : reduce_workflow s e ≡ ok t → moves s.current_step t.current_step ≡ true
  unfolding reduce_workflow reduce_by_reason with_limits
  workflow-moves eq = ground (arith, upgraded-moves, started-moves, from_spec-moves, limited-moves)

  reduced-moves :
      reduce_with e.policy_version s e ≡ ok t → moves s.current_step t.current_step ≡ true
  unfolding reduce_with reduce_workflow_v1
  reduced-moves eq = ground (arith, known-moves, workflow-moves)

-- One event of a verified stream moves a run along one edge of the phase diagram: it stays in its
-- phase, begins at `prd` or at `spec`, goes on to the next phase, goes back from acceptance to
-- code for a repair, or ends after acceptance. No phase is skipped.
pub Step-Moves :
    (c : Configuration) (s t : State) → Reach c s → Step s t → Moves s.current_step t.current_step
Step-Moves c s t r (step e _ eq) =
    moves-Moves s.current_step t.current_step (reduced-moves s t e (Reach-IsOrderly c r) eq)
