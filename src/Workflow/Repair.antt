-- ===== src/Workflow/Repair.antt =====
-- The acceptance, stop-loss and repair-stop branches of `reduceWorkflow` (workflow/reducer.ts).
use kratos_harness.Common.{
  Bool, true, false, ◌||◌, not, List, [], ◌∷◌, ◌++◌, Option, none, some, codes, if◌then◌else◌,
  filter, find, any, is_empty, is_some, ◌==◌, text_eq, Result, ok, Thrown,
}
use kratos_harness.RepairLoop.Model.{Classification}
use kratos_harness.Workflow.Model.{
  State, Event, Phase, Status, RepairStop, ResolutionFact, AcceptanceDecision, AcceptanceOutcome,
  is_code, is_specification, is_blocked,
}
use kratos_harness.Workflow.Acceptance.{
  merge_attempts, merge_repair_stop_history, has_canonical_acceptance_decision,
}
use kratos_harness.Workflow.Phases.{throw}
use kratos_harness.Workflow.Starts.{stamp}

-- The guard of the three acceptance branches.
unfoldable pub canonical_decision :
    State → Event → AcceptanceOutcome → (AcceptanceDecision → State) → Result Thrown State
canonical_decision state event expected next = elim event.acceptance_decision [
  | none ↦ throw (codes "Acceptance decision is inconsistent")
  | some decision ↦
      if not (has_canonical_acceptance_decision state event decision expected)
      then throw (codes "Acceptance decision is inconsistent")
      else ok (next decision)
]

-- `case "run.acceptance.passed"`
unfoldable pub reduce_acceptance_passed : State → Event → Result Thrown State
unfolding canonical_decision
reduce_acceptance_passed state event =
    canonical_decision state event AcceptanceOutcome.passed (λ _. stamp state event)

-- The state after `case "run.acceptance.repair_required"`
unfoldable pub after_repair_required : State → Event → AcceptanceDecision → State
after_repair_required state event decision =
    let stamped = stamp state event in
    record stamped {
      status = Status.active;
      current_step = some Phase.code;
      attempts = merge_attempts state decision.attempts;
    }

-- `case "run.acceptance.repair_required"`
unfoldable pub reduce_repair_required : State → Event → Result Thrown State
unfolding canonical_decision after_repair_required
reduce_repair_required state event =
    canonical_decision state event AcceptanceOutcome.repair (after_repair_required state event)

-- The state after `case "run.stop_loss.repeated_rejection"`
unfoldable pub after_stop_loss : State → Event → AcceptanceDecision → State
after_stop_loss state event decision =
    let stamped = stamp state event in
    record stamped {
      status = Status.blocked;
      attempts = merge_attempts state decision.attempts;
      active_repair_stops = decision.repair_stops;
      repair_stop_history = merge_repair_stop_history state decision.repair_stops;
    }

-- `case "run.stop_loss.repeated_rejection"`
unfoldable pub reduce_stop_loss : State → Event → Result Thrown State
unfolding canonical_decision after_stop_loss
reduce_stop_loss state event =
    canonical_decision state event AcceptanceOutcome.stopped (after_stop_loss state event)

-- `===` on classifications
abbrev pub same_classification : Classification → Classification → Bool
same_classification Classification.code Classification.code = true
same_classification Classification.specification Classification.specification = true
same_classification (Classification.other s) (Classification.other t) = s == t
same_classification _ _ = false

-- `stop?.classification === resolution.classification`
abbrev pub stop_agrees : Option RepairStop → ResolutionFact → Bool
stop_agrees none resolution = false
stop_agrees (some stop) resolution =
    same_classification stop.classification resolution.classification

-- The stops that a resolution leaves.
abbrev pub remaining_stops : State → ResolutionFact → List RepairStop
remaining_stops state resolution =
    filter (λ s. not (s.criterion_id == resolution.criterion_id)) state.active_repair_stops

-- `common`
unfoldable pub resolved_common : State → Event → ResolutionFact → State
resolved_common state event resolution =
    let stamped = stamp state event in
    record stamped {
      active_repair_stops = remaining_stops state resolution;
      repair_resolutions =
          state.repair_resolutions
          ++ record {
            operation = event.operation;
            criterion_id = resolution.criterion_id;
            classification = resolution.classification;
            resolution_ref = resolution.resolution_ref;
            resolution_digest = resolution.resolution_digest;
            next_run_id = resolution.next_run_id;
            restart_ticket_ref = resolution.restart_ticket_ref;
            restart_ticket_digest = resolution.restart_ticket_digest;
          }
            ∷ [];
    }

-- A resolution of a specification stop hands the run over to a new one.
unfoldable pub resolve_specification : State → Event → ResolutionFact → Result Thrown State
unfolding resolved_common
resolve_specification state event resolution =
    if any (λ s. is_code s.classification) (remaining_stops state resolution)
    then throw (codes "Repair resolution is inconsistent")
    else elim resolution.next_run_id [
      | none ↦ throw (codes "Repair resolution is inconsistent")
      | some next ↦ elim resolution.restart_ticket_ref [
        | none ↦ throw (codes "Repair resolution is inconsistent")
        | some ticket ↦ elim resolution.restart_ticket_digest [
          | none ↦ throw (codes "Repair resolution is inconsistent")
          | some digest ↦ ok (
              let common = resolved_common state event resolution in
              record common {
                status = Status.blocked;
                specification_restart = some (record {
                  criterion_id = resolution.criterion_id;
                  next_run_id = next;
                  restart_ticket_ref = ticket;
                  restart_ticket_digest = digest;
                });
              })
        ]
      ]
    ]

-- A resolution of a code stop clears the criterion's attempts.
unfoldable pub resolve_code : State → Event → ResolutionFact → Result Thrown State
unfolding resolved_common
resolve_code state event resolution =
    if is_some resolution.next_run_id
      || is_some resolution.restart_ticket_ref
      || is_some resolution.restart_ticket_digest
    then throw (codes "Repair resolution is inconsistent")
    else ok (
        let common = resolved_common state event resolution in
        record common {
          status =
              if is_empty (remaining_stops state resolution) then Status.active else Status.blocked;
          current_step =
              if is_empty (remaining_stops state resolution)
              then some Phase.code
              else state.current_step;
          attempts = filter (λ a. not (a.criterion_id == resolution.criterion_id)) state.attempts;
        })

-- `case "run.repair_stop.resolved"`
unfoldable pub reduce_repair_stop_resolved : State → Event → Result Thrown State
unfolding resolve_specification resolve_code
reduce_repair_stop_resolved state event = elim event.repair_resolution [
  | none ↦ throw (codes "Repair resolution is inconsistent")
  | some resolution ↦
      if not (is_blocked state.status) || is_some state.specification_restart
      then throw (codes "Repair resolution is inconsistent")
      else if not (
          stop_agrees
            (find (λ s. s.criterion_id == resolution.criterion_id) state.active_repair_stops)
            resolution)
      then throw (codes "Repair resolution is inconsistent")
      else if is_specification resolution.classification
      then resolve_specification state event resolution
      else resolve_code state event resolution
]
