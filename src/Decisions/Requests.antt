-- ===== src/Decisions/Requests.antt =====
-- workflow/decision.ts: which requests are well formed.
use kratos_harness.Common.{
  ℕ, Bool, true, false, ◌&&◌, ◌||◌, not, List, [], ◌∷◌, ◌++◌, Option, none, some, Text, codes, leb,
  ltb, all, length, includes, if◌then◌else◌, ◌==◌, nat_eq, text_eq,
}
use kratos_harness.Criterion.{is_acceptance_criterion_id}
use kratos_harness.Grammar.{is_id, is_feature, is_sha256, is_reference}
use kratos_harness.Locks.Scope.{max_safe_integer}
use kratos_harness.Workflow.Model.{SpecStart}
use kratos_harness.Decisions.Model.{
  Observation, Identity, Assignment, Provenance, PhaseExecution, StartRequest, ContinueRequest,
  FactOperation,
}

unfoldable pub fact_operation_name : FactOperation → Text
fact_operation_name FactOperation.agent_record = codes "agent.record"
fact_operation_name FactOperation.gaps_record = codes "gaps.record"
fact_operation_name FactOperation.gaps_resolve = codes "gaps.resolve"
fact_operation_name FactOperation.gaps_waive = codes "gaps.waive"
fact_operation_name FactOperation.gates_record = codes "gates.record"

-- `operationId`
unfoldable pub operation_id : Text → Text → Text
operation_id name correlation_id = codes "sdd." ++ (name ++ (codes ":" ++ correlation_id))

-- `value === null || test(value)`, and the same for a part that is absent
abbrev pub null_or {ℓ} : {A : Type ℓ} → (A → Bool) → Option A → Bool
null_or test none = true
null_or test (some value) = test value

-- `Number.isSafeInteger(value) && value > 0`
unfoldable pub is_positive_safe : ℕ → Bool
is_positive_safe value = leb value max_safe_integer && ltb 0 value

-- `new Set(xs)`, after the elements seen
unfoldable pub set_from : List Text → List Text → List Text
set_from seen [] = seen
set_from seen (x ∷ xs) = set_from (if includes seen x then seen else seen ++ x ∷ []) xs

-- `[...new Set(xs)]`
unfoldable pub set_of : List Text → List Text
unfolding set_from
set_of xs = set_from [] xs

unfoldable pub valid_identity : Identity → Bool
valid_identity identity = is_id identity.host && null_or is_id identity.model

unfoldable pub valid_spec_start : Text → SpecStart → Bool
valid_spec_start run_id start =
    is_id start.source_run_id
    && not (start.source_run_id == run_id)
    && is_reference start.restart_ticket_ref
    && is_sha256 start.restart_ticket_digest
    && ltb 0 (length start.retired_criterion_ids)
    && length (set_of start.retired_criterion_ids) == length start.retired_criterion_ids
    && all is_acceptance_criterion_id start.retired_criterion_ids

-- `validStartRequest`
unfoldable pub valid_start_request : StartRequest → Bool
valid_start_request request =
    is_id request.project_id
    && is_feature request.feature
    && is_id request.run_id
    && is_id request.correlation_id
    && is_id request.event_id
    && is_id (operation_id (codes "start") request.correlation_id)
    && valid_identity request.observed_identity
    && is_sha256 request.lineage.prd_digest
    && is_sha256 request.lineage.spec_digest
    && null_or is_positive_safe request.acceptance_attempt_ceiling
    && null_or is_positive_safe request.token_ceiling
    && null_or (valid_spec_start request.run_id) request.start_from_spec

unfoldable pub known_provenance : Provenance → Bool
known_provenance Provenance.host_reported = true
known_provenance Provenance.unknown = true
known_provenance (Provenance.other s) = false

-- `validPhaseExecution`
unfoldable pub valid_phase_execution : PhaseExecution → Bool
unfolding known_provenance
valid_phase_execution execution =
    known_provenance execution.provenance
    && is_sha256 execution.assignment_digest
    && null_or is_id execution.model
    && null_or is_id execution.effort

-- `validContinueRequest`
unfoldable pub valid_continue_request : ContinueRequest → Bool
valid_continue_request request =
    is_feature request.feature
    && is_id request.run_id
    && is_id request.correlation_id
    && is_id request.event_id
    && is_id (operation_id (codes "continue") request.correlation_id)
    && leb request.expected_revision max_safe_integer
    && valid_identity request.observed_identity
    && null_or valid_phase_execution request.phase_execution

unfoldable pub is_host_reported : Provenance → Bool
is_host_reported Provenance.host_reported = true
is_host_reported _ = false

-- `value !== null && value !== other`
abbrev pub differs : Option Text → Text → Bool
differs none other = false
differs (some value) other = not (value == other)

-- `executionMismatch`
unfoldable pub execution_mismatch : Assignment → PhaseExecution → Bool
unfolding is_host_reported
execution_mismatch assignment execution =
    is_host_reported execution.provenance
    && (differs execution.model assignment.model || differs execution.effort assignment.effort)

-- `hasOperation`
unfoldable pub has_operation : Observation → Text → Bool
has_operation (Observation.absent operations) operation = includes operations operation
has_operation (Observation.present state) operation = includes state.operations operation
has_operation Observation.corrupt operation = false
