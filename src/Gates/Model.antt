-- ===== src/Gates/Model.antt =====
-- gates/model.ts and the parts of the contracts that the evaluation of gates reads.
use kratos_harness.Common.{ℕ, Bool, List, Option, Text, codes}
use kratos_harness.Workflow.Model.{Phase}

pub data GateMode : Type 0 where
  shadow warn enforce : GateMode

-- `GATE_IDS`
pub data GateId : Type 0 where
  context_readable stop_loss prd_present spec_approved gaps_closed partition_approved
        acceptance_criteria final_acceptance :
      GateId

-- `ProjectPolicyMode`
pub data PolicyMode : Type 0 where
  standard strict : PolicyMode

-- `GateOutcome`
pub data Outcome : Type 0 where
  pass warn block : Outcome

abbrev pub GateModes : Type 0
GateModes = GateId → GateMode

-- `GATE_PRIORITIES`
unfoldable pub gate_priority : GateId → ℕ
gate_priority GateId.context_readable = 10
gate_priority GateId.stop_loss = 20
gate_priority GateId.prd_present = 30
gate_priority GateId.spec_approved = 40
gate_priority GateId.gaps_closed = 50
gate_priority GateId.partition_approved = 60
gate_priority GateId.acceptance_criteria = 70
gate_priority GateId.final_acceptance = 80

-- `GateFailureReason`
pub data FailureReason : Type 0 where
  context_unreadable stop_loss_budget stop_loss_flag stop_loss_rejections aceitacao_final
        ac_incomplete aprovacao_spec gaps_abertos particionamento prd_ausente prd_section_missing
        prd_untouched :
      FailureReason

-- The reason as the source writes it
unfoldable pub reason_name : FailureReason → Text
reason_name FailureReason.context_unreadable = codes "blocked.context_unreadable"
reason_name FailureReason.stop_loss_budget = codes "blocked.stop_loss_budget"
reason_name FailureReason.stop_loss_flag = codes "blocked.stop_loss_flag"
reason_name FailureReason.stop_loss_rejections = codes "blocked.stop_loss_rejections"
reason_name FailureReason.aceitacao_final = codes "gate.aceitacao_final"
reason_name FailureReason.ac_incomplete = codes "gate.ac_incomplete"
reason_name FailureReason.aprovacao_spec = codes "gate.aprovacao_spec"
reason_name FailureReason.gaps_abertos = codes "gate.gaps_abertos"
reason_name FailureReason.particionamento = codes "gate.particionamento"
reason_name FailureReason.prd_ausente = codes "gate.prd_ausente"
reason_name FailureReason.prd_section_missing = codes "gate.prd_section_missing"
reason_name FailureReason.prd_untouched = codes "gate.prd_untouched"

-- `RepeatedRejectionGateState.classification`
pub data RejectionClassification : Type 0 where
  code specification : RejectionClassification

-- `RepeatedRejectionGateState`
pub record Rejection : Type 0 where
  pub criterion_id : Text
  pub attempt : ℕ
  pub classification : RejectionClassification
  pub artifact_ref : Text

pub data CriterionState : Type 0 where
  passed failed not_run unreported : CriterionState

-- `AcceptanceCriterionGateState`
pub record GateCriterion : Type 0 where
  pub criterion_id : Text
  pub state : CriterionState
  pub checked : Bool
  pub evidence_valid : Bool

-- `GateFailure`
pub record Failure : Type 0 where
  pub gate_id : GateId
  pub reason_code : FailureReason
  pub priority : ℕ
  pub mode : GateMode
  pub evidence_refs : List Text
  pub detail : Option Text

-- `GateAggregation`
pub record Aggregation : Type 0 where
  pub outcome : Outcome
  pub primary : Option Failure
  pub failures : List Failure

-- `PrdDocumentObservation`
pub data PrdDocument : Type 0 where
  complete missing untouched : PrdDocument
  incomplete : Text → PrdDocument

-- What `approved` reads of `ApprovalV1`
pub record Approval : Type 0 where
  pub gate : Text
  pub approved : Bool
  pub prd_digest : Text
  pub spec_digest : Text

-- `GateContext`, without the language policy, which yields advisories and no failure; the optional
-- lists are empty where they are absent.
pub record Context : Type 0 where
  pub gate_modes : GateModes
  pub phase : Phase
  pub context_readable : Bool
  pub tripped : Bool
  pub exhausted : Bool
  pub repeated_rejections : List Rejection
  pub prd_digest : Option Text
  pub prd_document : PrdDocument
  pub spec_digest : Option Text
  pub approvals : List Approval
  pub open_gaps : ℕ
  pub partition_required : Bool
  pub partition_approved : Bool
  pub final_acceptance : Bool
  pub acceptance_criteria : List GateCriterion
