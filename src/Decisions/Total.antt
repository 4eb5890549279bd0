-- ===== src/Decisions/Total.antt =====
-- No decision throws: the error of an unvalidated provenance is never reached.
use kratos_harness.Common.{
  ℕ, ◌≡◌, ◌≢◌, refl, Bool-cases, true, codes, List, [], ◌∷◌, Option, none, some, Text, arith, ok,
  err, Result, Thrown, returns, inl, inr, if◌then◌else◌,
}
use kratos_harness.Workflow.Model.{State, SpecStart, is_acceptance}
use kratos_harness.Decisions.Model.{
  Observation, StartRequest, ContinueRequest, FactRequest, Identity, Assignment, PhaseExecution,
  Provenance, Action, Completion, WorkflowDecision,
}
use kratos_harness.Decisions.Requests.{
  null_or, known_provenance, valid_phase_execution, valid_continue_request,
}
use kratos_harness.Decisions.Drafts.{
  MovingTransition, executed_identity, phase_identity, draft_event,
}
use kratos_harness.Decisions.Start.{
  start_present, start_absent, start_observed, decide_start_workflow,
}
use kratos_harness.Decisions.Continue.{
  recorded, carries_assignment, continue_input, rejection_why, gate_verdict, complete_with,
  complete_phase, act, continue_present, continue_observed, decide_continue_workflow,
}
use kratos_harness.Decisions.Record.{
  record_present, record_observed, decide_record_fact, valid_fact_request,
}

executed_identity_total :
    (p : Provenance) (identity : Identity) (execution : PhaseExecution)
    → known_provenance p ≡ true
    → (e : Thrown) → executed_identity p identity execution ≢ err e
unfolding executed_identity known_provenance
executed_identity_total Provenance.host_reported identity execution h e k = cc
executed_identity_total Provenance.unknown identity execution h e k = cc
executed_identity_total (Provenance.other s) identity execution h e k = cc

phase_identity_total :
    (identity : Identity) (execution : Option PhaseExecution) (e : Thrown)
    → null_or valid_phase_execution execution ≡ true
    → phase_identity identity execution ≢ err e
unfolding phase_identity valid_phase_execution
phase_identity_total identity none e h k = cc
phase_identity_total identity (some x) e h k =
    executed_identity_total x.provenance identity x (ground arith) e k

module _ (request : ContinueRequest)
    (valid : null_or valid_phase_execution request.phase_execution ≡ true) where
  recorded_total :
      (revision : ℕ) (transition : MovingTransition) (refs evidence : List Text)
      (why : Option (List Text)) (e : Thrown)
      → recorded request revision transition refs evidence why ≢ err e
  unfolding recorded draft_event
  recorded_total revision transition refs evidence why e k =
      elim (Bool-cases (carries_assignment transition)) [
        | inl with_ ↦ ground (
          arith,
          phase_identity_total (continue_input request revision).identity request.phase_execution e
              valid,
        )
        | inr without ↦
            ground
              (arith, phase_identity_total (continue_input request revision).identity none e refl)
      ]

  complete_with_total :
      (assignment : Option Assignment) (execution : Option PhaseExecution) (action : Completion)
      (state : State) (e : Thrown)
      → complete_with assignment execution action state request ≢ err e
  unfolding complete_with
  complete_with_total none execution action state e k = cc
  complete_with_total (some a) none action state e k = cc
  complete_with_total (some a) (some x) action state e k = ground (
    arith,
    recorded_total state.revision
        (if is_acceptance state.current_step
          then MovingTransition.completed
          else MovingTransition.accepted)
        action.artifact_refs action.evidence_refs none e,
  )

  act_total : (action : Action) (state : State) (e : Thrown) → act action state request ≢ err e
  unfolding act complete_phase
  act_total Action.resume state e k =
      recorded_total state.revision MovingTransition.resumed [] [] none e k
  act_total (Action.reject refs evidence) state e k =
      recorded_total state.revision MovingTransition.rejected refs evidence
        (some (codes "explicit-reject" ∷ [])) e k
  act_total (Action.complete_phase action) state e k = ground (
    arith,
    recorded_total state.revision MovingTransition.rejected action.artifact_refs
        action.evidence_refs (some (rejection_why (gate_verdict request) action)) e,
    recorded_total state.revision MovingTransition.rejected action.artifact_refs
        action.evidence_refs (some (codes "final-completion-not-allowed" ∷ [])) e,
    complete_with_total request.resolved_assignment request.phase_execution action state e,
  )

valid_continue_request-execution :
    (request : ContinueRequest)
    → valid_continue_request request ≡ true
    → null_or valid_phase_execution request.phase_execution ≡ true
unfolding valid_continue_request
valid_continue_request-execution request h = ground arith

continue_present-ne-err :
    (state : State) (request : ContinueRequest) (e : Thrown)
    → null_or valid_phase_execution request.phase_execution ≡ true
    → continue_present state request ≢ err e
unfolding continue_present
continue_present-ne-err state request e v k =
    ground (arith, act_total request v request.action state e)

continue-ne-err :
    (observation : Observation) (request : ContinueRequest) (e : Thrown)
    → decide_continue_workflow observation request ≢ err e
unfolding decide_continue_workflow continue_observed
continue-ne-err Observation.corrupt request e k = ground arith
continue-ne-err (Observation.absent operations) request e k = ground arith
continue-ne-err (Observation.present state) request e k =
    ground
      (arith, continue_present-ne-err state request e, valid_continue_request-execution request)

record-ne-err :
    (observation : Observation) (request : FactRequest) (e : Thrown)
    → decide_record_fact observation request ≢ err e
unfolding decide_record_fact record_observed record_present valid_fact_request
record-ne-err Observation.corrupt request e k = ground arith
record-ne-err (Observation.absent operations) request e k = ground arith
record-ne-err (Observation.present state) request e k =
    ground (arith, phase_identity_total request.observed_identity request.phase_execution e)

start_absent-ne-err :
    (start : Option SpecStart) (request : StartRequest) (e : Thrown)
    → start_absent start request ≢ err e
unfolding start_absent draft_event phase_identity
start_absent-ne-err none request e k = ground arith
start_absent-ne-err (some start) request e k = ground arith

start-ne-err :
    (observation : Observation) (request : StartRequest) (e : Thrown)
    → decide_start_workflow observation request ≢ err e
unfolding decide_start_workflow start_observed start_present draft_event phase_identity
start-ne-err Observation.corrupt request e k = ground arith
start-ne-err (Observation.absent operations) request e k =
    ground (arith, start_absent-ne-err request.start_from_spec request e)
start-ne-err (Observation.present state) request e k = ground arith

-- The code returns and does not throw.
abbrev pub Returns : Result Thrown WorkflowDecision → Type 0
Returns result = (decision : WorkflowDecision) × (result ≡ ok decision)

-- A start, a continuation and the record of a fact never throw, whatever is observed and asked:
-- the error for a provenance that was not validated is not reached.
pub decisions_total :
    (observation : Observation) (start : StartRequest) (continue : ContinueRequest)
    (fact : FactRequest)
    → Returns (decide_start_workflow observation start)
      × Returns (decide_continue_workflow observation continue)
      × Returns (decide_record_fact observation fact)
decisions_total observation start continue fact = (
  returns (decide_start_workflow observation start) (start-ne-err observation start),
  returns (decide_continue_workflow observation continue) (continue-ne-err observation continue),
  returns (decide_record_fact observation fact) (record-ne-err observation fact),
)
