-- ===== src/Workflow/Model.antt =====
-- workflow/model.ts: the replay state of a run, and the fields of an event that its reducers read.
-- Times and versions are texts that are stored and compared, never computed with.
use kratos_harness.Common.{ℕ, Bool, true, false, List, Option, some, Text}
use kratos_harness.RepairLoop.Model.{Attempt, Classification}

-- `RUN_PHASES`, in their order
pub data Phase : Type 0 where
  prd spec plan code review acceptance : Phase

pub data Status : Type 0 where
  idle active blocked completed : Status

pub data PolicyVersion : Type 0 where
  workflow_v1 workflow_v2 : PolicyVersion
  other : Text → PolicyVersion

pub record RunLineage : Type 0 where
  pub prd_digest : Text
  pub spec_digest : Text

-- `WorkflowRepairStop`
pub record RepairStop : Type 0 where
  pub criterion_id : Text
  pub attempt : ℕ
  pub classification : Classification
  pub artifact_ref : Text
  pub artifact_digest : Text

pub record SpecificationRestart : Type 0 where
  pub criterion_id : Text
  pub next_run_id : Text
  pub restart_ticket_ref : Text
  pub restart_ticket_digest : Text

pub record RepairResolution : Type 0 where
  pub operation : Text
  pub criterion_id : Text
  pub classification : Classification
  pub resolution_ref : Text
  pub resolution_digest : Text
  pub next_run_id : Option Text
  pub restart_ticket_ref : Option Text
  pub restart_ticket_digest : Option Text

pub record StartedFromSpec : Type 0 where
  pub source_run_id : Text
  pub restart_ticket_ref : Text
  pub restart_ticket_digest : Text

-- `WorkflowState`
pub record State : Type 0 where
  pub project_id : Text
  pub feature : Text
  pub run_id : Text
  pub status : Status
  pub current_step : Option Phase
  pub revision : ℕ
  pub lineage : RunLineage
  pub created_at : Option Text
  pub updated_at : Option Text
  pub operations : List Text
  pub policy_version : Option PolicyVersion
  pub acceptance_attempt_ceiling : Option ℕ
  pub token_ceiling : Option ℕ
  pub attempts : List Attempt
  pub active_repair_stops : List RepairStop
  pub repair_stop_history : List RepairStop
  pub repair_resolutions : List RepairResolution
  pub specification_restart : Option SpecificationRestart
  pub retired_criterion_ids : List Text
  pub started_from_spec : Option StartedFromSpec

-- `WorkflowReducerConfiguration`
pub record Configuration : Type 0 where
  pub project_id : Text
  pub feature : Text
  pub run_id : Text
  pub lineage : RunLineage

pub data ReasonCode : Type 0 where
  run_started run_resumed run_transition_accepted run_transition_rejected : ReasonCode
  run_agent_recorded run_gap_recorded run_gap_resolved run_gap_waived run_gates_recorded :
      ReasonCode
  run_completed run_policy_upgraded run_started_from_spec run_acceptance_passed : ReasonCode
  run_acceptance_repair_required run_stop_loss_repeated_rejection : ReasonCode
  run_repair_stop_resolved : ReasonCode
  other : Text → ReasonCode

pub record RunLimits : Type 0 where
  pub acceptance_attempt_ceiling : ℕ
  pub token_ceiling : Option ℕ

pub data AcceptanceOutcome : Type 0 where
  passed repair stopped : AcceptanceOutcome

-- `acceptanceDecision` of an event, and `AcceptanceDecisionMetadata` of the repair loop
pub record AcceptanceDecision : Type 0 where
  pub outcome : AcceptanceOutcome
  pub attempts : List Attempt
  pub repair_stops : List RepairStop

-- `repairResolution` of an event
pub record ResolutionFact : Type 0 where
  pub criterion_id : Text
  pub classification : Classification
  pub resolution_ref : Text
  pub resolution_digest : Text
  pub next_run_id : Option Text
  pub restart_ticket_ref : Option Text
  pub restart_ticket_digest : Option Text

-- `startedFromSpec` of an event
pub record SpecStart : Type 0 where
  pub source_run_id : Text
  pub restart_ticket_ref : Text
  pub restart_ticket_digest : Text
  pub retired_criterion_ids : List Text

-- `WorkflowReducerEvent`, with the optional parts of `WorkflowV2Event`
pub record Event : Type 0 where
  pub state_contract : Text
  pub event_type : Text
  pub effect : Text
  pub occurred_at : Text
  pub operation : Text
  pub policy_version : PolicyVersion
  pub prior_revision : ℕ
  pub resulting_revision : ℕ
  pub reason_code : ReasonCode
  pub artifact_refs : List Text
  pub run_limits : Option RunLimits
  pub acceptance_decision : Option AcceptanceDecision
  pub repair_resolution : Option ResolutionFact
  pub started_from_spec : Option SpecStart

abbrev pub is_code : Classification → Bool
is_code Classification.code = true
is_code _ = false

abbrev pub is_specification : Classification → Bool
is_specification Classification.specification = true
is_specification _ = false

abbrev pub is_acceptance : Option Phase → Bool
is_acceptance (some Phase.acceptance) = true
is_acceptance _ = false

abbrev pub is_completed : Status → Bool
is_completed Status.completed = true
is_completed _ = false

abbrev pub is_blocked : Status → Bool
is_blocked Status.blocked = true
is_blocked _ = false
