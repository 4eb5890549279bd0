-- ===== src/Decisions/Model.antt =====
-- workflow/model.ts: observations, requests and decisions; and the drafts of events that the
-- decisions carry, with the fields that a reducer does not read beside those that it does.
use kratos_harness.Common.{ℕ, Bool, List, Option, Text}
use kratos_harness.Gates.Model.{Outcome, Failure}
use kratos_harness.Workflow.Model.{State, RunLineage, Phase, Event, SpecStart}

-- `WorkflowObservation`
pub data Observation : Type 0 where
  absent : List Text → Observation
  present : State → Observation
  corrupt : Observation

-- `WorkflowIdentity`
pub record Identity : Type 0 where
  pub host : Text
  pub model : Option Text

-- `WorkflowAssignment`
pub record Assignment : Type 0 where
  pub phase : Phase
  pub role : Text
  pub model : Text
  pub effort : Text

-- `PhaseExecutionObservation.provenance`, any other text at run time
pub data Provenance : Type 0 where
  host_reported unknown : Provenance
  other : Text → Provenance

-- `PhaseExecutionObservation`
pub record PhaseExecution : Type 0 where
  pub assignment_digest : Text
  pub model : Option Text
  pub effort : Option Text
  pub provenance : Provenance

-- `StartWorkflowRequest`; an absent token ceiling is a null one, as its only use has it.
pub record StartRequest : Type 0 where
  pub project_id : Text
  pub feature : Text
  pub run_id : Text
  pub correlation_id : Text
  pub event_id : Text
  pub occurred_at : Text
  pub lineage : RunLineage
  pub objective_active : Bool
  pub worktree_clean : Bool
  pub observed_identity : Identity
  pub acceptance_attempt_ceiling : Option ℕ
  pub token_ceiling : Option ℕ
  pub start_from_spec : Option SpecStart

-- `gateDecision` of `ContinueWorkflowRequest`
pub record GateVerdict : Type 0 where
  pub outcome : Outcome
  pub failures : List Failure

-- The action `complete-phase`
pub record Completion : Type 0 where
  pub artifact_refs : List Text
  pub evidence_refs : List Text
  pub rejection_reasons : Option (List Text)
  pub gate_failures : Option (List Text)
  pub allow_final_completion : Bool

-- `action` of `ContinueWorkflowRequest`
pub data Action : Type 0 where
  complete_phase : Completion → Action
  resume : Action
  reject : List Text → List Text → Action

-- `ContinueWorkflowRequest`
pub record ContinueRequest : Type 0 where
  pub feature : Text
  pub run_id : Text
  pub correlation_id : Text
  pub event_id : Text
  pub occurred_at : Text
  pub expected_revision : ℕ
  pub observed_identity : Identity
  pub resolved_assignment : Option Assignment
  pub phase_execution : Option PhaseExecution
  pub gate_decision : Option GateVerdict
  pub action : Action

-- `ResolveRepairStopRequest`
pub record ResolveRequest : Type 0 where
  pub feature : Text
  pub run_id : Text
  pub criterion_id : Text
  pub correlation_id : Text
  pub event_id : Text
  pub occurred_at : Text
  pub expected_revision : ℕ
  pub resolved_by : Text
  pub observation : Text
  pub observed_identity : Identity
  pub resolution_ref : Text
  pub resolution_digest : Text
  pub next_run_id : Option Text
  pub restart_ticket_ref : Option Text
  pub restart_ticket_digest : Option Text

-- `FactOperation`
pub data FactOperation : Type 0 where
  agent_record gaps_record gaps_resolve gaps_waive gates_record : FactOperation

-- `RecordFactRequest`
pub record FactRequest : Type 0 where
  pub feature : Text
  pub run_id : Text
  pub correlation_id : Text
  pub event_id : Text
  pub occurred_at : Text
  pub expected_revision : ℕ
  pub operation : FactOperation
  pub artifact_refs : List Text
  pub observed_identity : Identity
  pub resolved_assignment : Option Assignment
  pub phase_execution : Option PhaseExecution

-- `WorkflowRefusal`
pub data Refusal : Type 0 where
  context_unreadable feature_mismatch runid_mismatch state_unreadable stop_loss_rejections
        assignment_stale execution_mismatch revision_conflict uso worktree_dirty :
      Refusal

-- `transition` of a decision that is recorded
pub data Transition : Type 0 where
  started resumed accepted rejected completed upgraded observed resolved : Transition

pub data Unchanged : Type 0 where
  duplicate already_completed : Unchanged

-- `observedIdentity` of an event
pub record ObservedIdentity : Type 0 where
  pub host : Text
  pub model : Option Text
  pub effort : Option Text

-- `SealableEventDraft`
pub record Draft : Type 0 where
  pub event_id : Text
  pub event : Event
  pub evidence_refs : List Text
  pub observed_identity : ObservedIdentity
  pub gate_failures : List Failure
  pub resolved_assignment : Option Assignment

-- `WorkflowDecision`, with `why` of a rejection
pub data WorkflowDecision : Type 0 where
  recorded : Transition → Draft → Option (List Text) → WorkflowDecision
  unchanged : Unchanged → WorkflowDecision
  refused : Refusal → WorkflowDecision
