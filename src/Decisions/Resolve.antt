-- ===== src/Decisions/Resolve.antt =====
-- `decideResolveRepairStop` (workflow/decision.ts).
use kratos_harness.Common.{
  ◌+◌, Bool, true, false, ◌&&◌, ◌||◌, not, List, [], ◌∷◌, ◌++◌, Option, none, some, Text, codes,
  any, find, length, trim, includes, is_some, leb, ltb, if◌then◌else◌, ◌==◌, nat_eq, text_eq,
}
use kratos_harness.Criterion.{is_acceptance_criterion_id}
use kratos_harness.Grammar.{is_id, is_feature, is_sha256, is_reference, has_control}
use kratos_harness.Locks.Scope.{max_safe_integer}
use kratos_harness.RepairLoop.Model.{Classification}
use kratos_harness.Workflow.Model.{
  State, ReasonCode, PolicyVersion, RepairStop, RepairResolution, is_code, is_specification,
  is_blocked,
}
use kratos_harness.Workflow.Repair.{same_classification}
use kratos_harness.Decisions.Model.{
  Observation, ResolveRequest, Draft, Refusal, Transition, Unchanged, WorkflowDecision,
}
use kratos_harness.Decisions.Requests.{null_or, valid_identity}
use kratos_harness.Decisions.Drafts.{plain_identity}
use kratos_harness.Decisions.Start.{is_current_run}

unfoldable pub resolve_operation : ResolveRequest → Text
resolve_operation request = codes "sdd.repair.resolve:" ++ request.correlation_id

-- The condition that refuses a request, negated
unfoldable pub valid_resolve_request : ResolveRequest → Bool
valid_resolve_request request =
    is_feature request.feature
    && is_id request.run_id
    && is_acceptance_criterion_id request.criterion_id
    && is_id request.correlation_id
    && is_id request.event_id
    && is_id (resolve_operation request)
    && leb request.expected_revision max_safe_integer
    && is_id request.resolved_by
    && ltb 0 (length (trim request.observation))
    && leb (length request.observation) 2048
    && not (has_control request.observation)
    && valid_identity request.observed_identity
    && is_reference request.resolution_ref
    && is_sha256 request.resolution_digest

-- `===` on texts that may be null
abbrev pub same_text : Option Text → Option Text → Bool
same_text none none = true
same_text (some s) (some t) = s == t
same_text _ _ = false

-- The classification that a request without its stop stands for
abbrev pub request_classification : ResolveRequest → Classification
request_classification request =
    if is_some request.next_run_id then Classification.specification else Classification.code

-- Whether a resolution recorded before is the one that is asked for
unfoldable pub same_resolution : Option RepairResolution → ResolveRequest → Bool
same_resolution none request = false
same_resolution (some prior) request =
    prior.criterion_id == request.criterion_id
    && same_classification prior.classification (request_classification request)
    && prior.resolution_ref == request.resolution_ref
    && prior.resolution_digest == request.resolution_digest
    && same_text prior.next_run_id request.next_run_id
    && same_text prior.restart_ticket_ref request.restart_ticket_ref
    && same_text prior.restart_ticket_digest request.restart_ticket_digest

-- `a === b` on Booleans
abbrev pub same_test : Bool → Bool → Bool
same_test true b = b
same_test false b = not b

-- Whether the next run and its ticket are there as the classification needs them, and well formed
unfoldable pub valid_restart_parts : Bool → ResolveRequest → Bool
valid_restart_parts specification request =
    same_test specification (is_some request.next_run_id)
    && same_test specification (is_some request.restart_ticket_ref)
    && same_test specification (is_some request.restart_ticket_digest)
    && null_or (λ r. is_id r && not (r == request.run_id)) request.next_run_id
    && null_or is_reference request.restart_ticket_ref
    && null_or is_sha256 request.restart_ticket_digest

abbrev pub ticket_refs : Option Text → List Text
ticket_refs none = []
ticket_refs (some ref) = ref ∷ []

-- The draft of a resolution
unfoldable pub resolve_draft : State → RepairStop → ResolveRequest → Draft
resolve_draft state stop request = record {
  event_id = request.event_id;
  event = record {
    state_contract = codes "1.3.0";
    event_type = codes "recovery";
    effect = codes "state-and-artifact";
    occurred_at = request.occurred_at;
    operation = resolve_operation request;
    policy_version = PolicyVersion.workflow_v2;
    prior_revision = state.revision;
    resulting_revision = state.revision + 1;
    reason_code = ReasonCode.run_repair_stop_resolved;
    artifact_refs = request.resolution_ref ∷ ticket_refs request.restart_ticket_ref;
    run_limits = none;
    acceptance_decision = none;
    repair_resolution = some (record {
      criterion_id = request.criterion_id;
      classification = stop.classification;
      resolution_ref = request.resolution_ref;
      resolution_digest = request.resolution_digest;
      next_run_id = request.next_run_id;
      restart_ticket_ref = request.restart_ticket_ref;
      restart_ticket_digest = request.restart_ticket_digest;
    });
    started_from_spec = none;
  };
  evidence_refs = [];
  observed_identity = plain_identity request.observed_identity;
  gate_failures = [];
  resolved_assignment = none;
}

-- The stop that a request is about
unfoldable pub active_stop : State → ResolveRequest → Option RepairStop
active_stop state request =
    find (λ s. s.criterion_id == request.criterion_id) state.active_repair_stops

-- The branches below the search of the stop
unfoldable pub resolve_stop : Option RepairStop → State → ResolveRequest → WorkflowDecision
resolve_stop none state request = WorkflowDecision.refused Refusal.uso
resolve_stop (some stop) state request =
    if is_specification stop.classification
      && any (λ s. is_code s.classification) state.active_repair_stops
    then WorkflowDecision.refused Refusal.stop_loss_rejections
    else if not (valid_restart_parts (is_specification stop.classification) request)
    then WorkflowDecision.refused Refusal.uso
    else WorkflowDecision.recorded Transition.resolved (resolve_draft state stop request) none

-- The guards on a run that is there
unfoldable pub resolve_present : State → ResolveRequest → WorkflowDecision
resolve_present state request =
    if not (state.feature == request.feature)
    then WorkflowDecision.refused Refusal.feature_mismatch
    else if not (state.run_id == request.run_id)
    then WorkflowDecision.refused Refusal.runid_mismatch
    else if includes state.operations (resolve_operation request)
    then (if same_resolution
          (find (λ r. r.operation == resolve_operation request) state.repair_resolutions) request
        then WorkflowDecision.unchanged Unchanged.duplicate
        else WorkflowDecision.refused Refusal.revision_conflict)
    else if not (is_current_run state.policy_version)
        || not (is_blocked state.status)
        || is_some state.specification_restart
    then WorkflowDecision.refused Refusal.uso
    else if not (request.expected_revision == state.revision)
    then WorkflowDecision.refused Refusal.revision_conflict
    else resolve_stop (active_stop state request) state request

-- The branches by what is observed
unfoldable pub resolve_observed : Observation → ResolveRequest → WorkflowDecision
resolve_observed Observation.corrupt request = WorkflowDecision.refused Refusal.state_unreadable
resolve_observed (Observation.absent operations) request =
    WorkflowDecision.refused Refusal.context_unreadable
resolve_observed (Observation.present state) request = resolve_present state request

-- `decideResolveRepairStop`
unfoldable pub decide_resolve_repair_stop : Observation → ResolveRequest → WorkflowDecision
decide_resolve_repair_stop observation request =
    if not (valid_resolve_request request)
    then WorkflowDecision.refused Refusal.uso
    else resolve_observed observation request
