-- ===== src/Decisions/Tests.antt =====
-- A run from its start to a repair stop, and the theorems about the decisions on it.
use kratos_harness.Common.{
  ◌≡◌, refl, true, List, [], ◌∷◌, none, some, is_some, Text, codes, ok, nat_eq, text_eq, text_beq,
  trim,
}
use kratos_harness.Criterion.{is_acceptance_criterion_id}
use kratos_harness.Grammar.{is_id, is_feature, is_sha256, is_reference}
use kratos_harness.RepairLoop.Model.{Classification}
use kratos_harness.Workflow.Model.{State, Phase, RepairStop}
use kratos_harness.Workflow.Reducer.{reduce_with}
use kratos_harness.Workflow.Run.{Reach-IsOrderly}
use kratos_harness.Workflow.Tests.{
  checkout, state_after, to_second_verdict, to_stop, verdict_run, criterion,
}
use kratos_harness.Decisions.Model.{
  Observation, Identity, Assignment, Provenance, PhaseExecution, StartRequest, ContinueRequest,
  Action, Completion, ResolveRequest, FactOperation, FactRequest, Transition, Unchanged, Draft,
  WorkflowDecision,
}
use kratos_harness.Decisions.Requests.{
  operation_id, fact_operation_name, is_positive_safe, set_of, valid_identity, valid_spec_start,
  valid_start_request, valid_phase_execution, valid_continue_request, execution_mismatch,
  has_operation,
}
use kratos_harness.Decisions.Drafts.{
  MovingTransition, moving_event, draft_event, phase_identity, plain_identity, transition_reason,
  transition_event_type, decided, fact_reason, EventInput,
}
use kratos_harness.Decisions.Start.{
  lacks_limits, is_upgradable, requested_limits, start_operation, start_input, start_present,
  start_absent, start_observed, decide_start_workflow,
}
use kratos_harness.Decisions.Continue.{
  gate_verdict, given_reasons, push_missing, rejection_why, continue_operation, continue_input,
  carries_assignment, recorded, complete_with, is_rejected, complete_phase, act, continue_present,
  continue_observed, decide_continue_workflow,
}
use kratos_harness.Decisions.Record.{
  fact_operation, valid_fact_request, requires_assignment, has_parts, parts_mismatch, fact_draft,
  record_present, record_observed, decide_record_fact,
}
use kratos_harness.Decisions.Resolve.{
  resolve_operation, valid_resolve_request, valid_restart_parts, resolve_draft, active_stop,
  resolve_stop, resolve_present, resolve_observed, decide_resolve_repair_stop,
}
use kratos_harness.Decisions.Applied.{after, moved}
use kratos_harness.Decisions.Continued.{Applies, IsAdmitted, decide_continue-Applies}
use kratos_harness.Decisions.Redelivered.{continue_redelivered}
use kratos_harness.Decisions.Earned.{is_advance, IsEarned, decide_continue-IsEarned}
use kratos_harness.Decisions.Recorded.{IsFactAdmitted, decide_record-Applies}
use kratos_harness.Decisions.Resolved.{IsResolved, decide_resolve-reduces}
use kratos_harness.Decisions.Started.{Begins, decide_start-Begins}
use kratos_harness.Decisions.Resumed.{Resumes, decide_start-Resumes}
use kratos_harness.Decisions.Total.{Returns, decisions_total}

-- All that a decision computes with.
decisions : Unit {0}
unfolding state_after is_id is_feature is_sha256 is_reference is_acceptance_criterion_id text_beq
    trim operation_id fact_operation_name is_positive_safe set_of valid_identity valid_spec_start
    valid_start_request valid_phase_execution valid_continue_request execution_mismatch
    has_operation moving_event draft_event phase_identity plain_identity transition_reason
    transition_event_type decided fact_reason lacks_limits is_upgradable requested_limits
    start_operation start_input start_present start_absent start_observed decide_start_workflow
    gate_verdict given_reasons push_missing rejection_why continue_operation continue_input
    carries_assignment recorded complete_with is_rejected complete_phase act continue_present
    continue_observed decide_continue_workflow fact_operation valid_fact_request requires_assignment
    has_parts parts_mismatch fact_draft record_present record_observed decide_record_fact
    resolve_operation valid_resolve_request valid_restart_parts resolve_draft active_stop
    resolve_stop resolve_present resolve_observed decide_resolve_repair_stop
decisions = tt

abbrev digest : Text
digest = codes "0123456789abcdef0123456789abcdef0123456789abcdef0123456789abcdef"

abbrev identity : Identity
identity = record { host = codes "codex"; model = none }

abbrev start_request : StartRequest
start_request = record {
  project_id = codes "shop";
  feature = codes "checkout";
  run_id = codes "run-1";
  correlation_id = codes "c-1";
  event_id = codes "e-1";
  occurred_at = codes "2026-01-01T00:00:00Z";
  lineage = record { prd_digest = digest; spec_digest = digest };
  objective_active = true;
  worktree_clean = true;
  observed_identity = identity;
  acceptance_attempt_ceiling = some 2;
  token_ceiling = none;
  start_from_spec = none;
}

-- A draft without what only a phase execution adds
abbrev draft_of : EventInput → MovingTransition → List Text → List Text → Draft
draft_of input transition refs evidence = record {
  event_id = input.event_id;
  event = moving_event input transition refs none;
  evidence_refs = evidence;
  observed_identity = plain_identity input.identity;
  gate_failures = [];
  resolved_assignment = none;
}

abbrev start_draft : Draft
start_draft = record {
  event_id = codes "e-1";
  event =
      moving_event (start_input start_request 0) MovingTransition.started []
        (some (requested_limits start_request));
  evidence_refs = [];
  observed_identity = plain_identity identity;
  gate_failures = [];
  resolved_assignment = none;
}

starts :
    decide_start_workflow (Observation.absent []) start_request
    ≡ ok (WorkflowDecision.recorded Transition.started start_draft none)
unfolding decisions
starts = refl

decide_start-Begins_example : Begins checkout start_request start_draft
decide_start-Begins_example =
    decide_start-Begins checkout [] start_request {made = Transition.started} {draft = start_draft}
      {reasons = none} starts

-- The run at its second verdict
abbrev at_verdict : State
at_verdict = state_after to_second_verdict

abbrev resume_draft : Draft
resume_draft = draft_of (start_input start_request 9) MovingTransition.resumed [] []

resumes :
    decide_start_workflow (Observation.present at_verdict) start_request
    ≡ ok (WorkflowDecision.recorded Transition.resumed resume_draft none)
unfolding decisions
resumes = refl

decide_start-Resumes_example : Resumes at_verdict start_request resume_draft.event
decide_start-Resumes_example =
    decide_start-Resumes at_verdict start_request {made = Transition.resumed} {draft = resume_draft}
      {reasons = none} (Reach-IsOrderly checkout verdict_run) resumes

abbrev assignment : Assignment
assignment = record {
  phase = Phase.acceptance;
  role = codes "judge";
  model = codes "m-1";
  effort = codes "high";
}

abbrev execution : PhaseExecution
execution = record {
  assignment_digest = digest;
  model = some (codes "m-1");
  effort = none;
  provenance = Provenance.host_reported;
}

abbrev completion : Completion
completion = record {
  artifact_refs = codes "report.md" ∷ [];
  evidence_refs = codes "evidence.json" ∷ [];
  rejection_reasons = none;
  gate_failures = none;
  allow_final_completion = true;
}

abbrev finish : ContinueRequest
finish = record {
  feature = codes "checkout";
  run_id = codes "run-1";
  correlation_id = codes "c-9";
  event_id = codes "e-9";
  occurred_at = codes "2026-01-02T00:00:00Z";
  expected_revision = 9;
  observed_identity = identity;
  resolved_assignment = some assignment;
  phase_execution = some execution;
  gate_decision = none;
  action = Action.complete_phase completion;
}

abbrev finish_draft : Draft
finish_draft = record {
  event_id = codes "e-9";
  event =
      moving_event (continue_input finish 9) MovingTransition.completed completion.artifact_refs
        none;
  evidence_refs = completion.evidence_refs;
  observed_identity = record { host = codes "codex"; model = some (codes "m-1"); effort = none };
  gate_failures = [];
  resolved_assignment = some assignment;
}

finishes :
    decide_continue_workflow (Observation.present at_verdict) finish
    ≡ ok (WorkflowDecision.recorded Transition.completed finish_draft none)
unfolding decisions
finishes = refl

at_phase : is_some at_verdict.current_step ≡ true
unfolding decisions
at_phase = refl

decide_continue-Applies_example :
    IsAdmitted at_verdict finish
    × Applies Transition.completed (continue_operation finish) at_verdict finish_draft
decide_continue-Applies_example =
    decide_continue-Applies at_verdict finish {made = Transition.completed} {draft = finish_draft}
      {reasons = none} at_phase finishes

finish_reduced :
    reduce_with finish_draft.event.policy_version at_verdict finish_draft.event
    ≡ ok (after Transition.completed at_verdict finish_draft.event)
unfolding decisions after moved
finish_reduced = refl

continue_redelivered_example :
    decide_continue_workflow
      (Observation.present (after Transition.completed at_verdict finish_draft.event))
      finish
    ≡ ok (WorkflowDecision.unchanged Unchanged.duplicate)
continue_redelivered_example =
    continue_redelivered at_verdict (after Transition.completed at_verdict finish_draft.event)
      finish {made = Transition.completed} {draft = finish_draft} {reasons = none} at_phase finishes
      finish_reduced

is_advance_completed : is_advance Transition.completed ≡ true
unfolding is_advance
is_advance_completed = refl

decide_continue-IsEarned_example :
    (done : Completion) × IsEarned at_verdict finish done finish_draft
decide_continue-IsEarned_example =
    decide_continue-IsEarned at_verdict finish {made = Transition.completed} {draft = finish_draft}
      {reasons = none} is_advance_completed finishes

-- Without evidence, the completion is recorded as a rejection.
without_evidence :
    decide_continue_workflow
      (Observation.present at_verdict)
      (record finish { action = Action.complete_phase (record completion { evidence_refs = [] }) })
    ≡ ok (
        WorkflowDecision.recorded Transition.rejected
          (draft_of (continue_input finish 9) MovingTransition.rejected completion.artifact_refs [])
          (some (codes "evidence-missing" ∷ [])))
unfolding decisions
without_evidence = refl

abbrev gap : FactRequest
gap = record {
  feature = codes "checkout";
  run_id = codes "run-1";
  correlation_id = codes "g-1";
  event_id = codes "e-10";
  occurred_at = codes "2026-01-02T00:00:00Z";
  expected_revision = 9;
  operation = FactOperation.gaps_record;
  artifact_refs = codes "gaps.json" ∷ [];
  observed_identity = identity;
  resolved_assignment = none;
  phase_execution = none;
}

abbrev gap_draft : Draft
gap_draft = fact_draft at_verdict gap (plain_identity identity)

records_gap :
    decide_record_fact (Observation.present at_verdict) gap
    ≡ ok (WorkflowDecision.recorded Transition.observed gap_draft none)
unfolding decisions
records_gap = refl

decide_record-Applies_example :
    IsFactAdmitted at_verdict gap
    × Applies Transition.observed (fact_operation gap) at_verdict gap_draft
decide_record-Applies_example =
    decide_record-Applies at_verdict gap {made = Transition.observed} {draft = gap_draft}
      {reasons = none} at_phase records_gap

-- The run with an active repair stop
abbrev at_stop : State
at_stop = state_after to_stop

abbrev resolution : ResolveRequest
resolution = record {
  feature = codes "checkout";
  run_id = codes "run-1";
  criterion_id = criterion;
  correlation_id = codes "r-1";
  event_id = codes "e-11";
  occurred_at = codes "2026-01-03T00:00:00Z";
  expected_revision = 10;
  resolved_by = codes "ana";
  observation = codes "The rounding is fixed.";
  observed_identity = identity;
  resolution_ref = codes "resolution.json";
  resolution_digest = digest;
  next_run_id = none;
  restart_ticket_ref = none;
  restart_ticket_digest = none;
}

abbrev stop : RepairStop
stop = record {
  criterion_id = criterion;
  attempt = 2;
  classification = Classification.code;
  artifact_ref = codes "stop.json";
  artifact_digest = codes "d";
}

abbrev resolution_draft : Draft
resolution_draft = resolve_draft at_stop stop resolution

resolves :
    decide_resolve_repair_stop (Observation.present at_stop) resolution
    ≡ WorkflowDecision.recorded Transition.resolved resolution_draft none
unfolding decisions
resolves = refl

limited : is_some at_stop.acceptance_attempt_ceiling ≡ true
unfolding decisions
limited = refl

decide_resolve-reduces_example :
    (next : State) × (reduce_with resolution_draft.event.policy_version at_stop
        resolution_draft.event
      ≡ ok next)
    × IsResolved at_stop resolution next
decide_resolve-reduces_example =
    decide_resolve-reduces at_stop resolution {made = Transition.resolved}
      {draft = resolution_draft} {reasons = none} limited resolves

decisions_total_example :
    Returns (decide_start_workflow (Observation.present at_verdict) start_request)
    × Returns (decide_continue_workflow (Observation.present at_verdict) finish)
    × Returns (decide_record_fact (Observation.present at_verdict) gap)
decisions_total_example = decisions_total (Observation.present at_verdict) start_request finish gap
