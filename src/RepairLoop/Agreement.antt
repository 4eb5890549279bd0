-- ===== src/RepairLoop/Agreement.antt =====
-- The two halves of the stop-loss contract between the repair loop and the run it decides for.
use kratos_harness.Common.{
  ℕ, ◌≤◌, ◌<◌, ◌≡◌, inl, inr, true, List, [], ◌∷◌, Option, none, some, Text, arith, is_some, get_or,
  put, includes, All, All-both, Bool-cases, ◌++◌, ◌≢◌, nat_eq, text_eq, Result, ok, err, Thrown,
  filter, map, not,
}
use kratos_harness.RepairLoop.Model.{Attempt, Criterion, Fault, Candidate, Decision, Reason}
use kratos_harness.RepairLoop.Decision.{
  Refusal, read_attempts, read_criteria, read_faults, valid_positive_integer, decide_verdict,
  or_refuse, decide_repair_loop,
}
use kratos_harness.RepairLoop.Artifact.{Binding, build_acceptance_decision_metadata}
use kratos_harness.RepairLoop.Verdict.{IsDecided, decide_repair_loop-IsDecided}
use kratos_harness.RepairLoop.Accepted.{
  IsRecorded, passed-IsRecorded, repair-IsRecorded, stopped-IsRecorded,
}
use kratos_harness.Workflow.Model.{
  State, Event, Configuration, AcceptanceDecision, AcceptanceOutcome, Phase, ReasonCode,
  PolicyVersion, Status,
}
use kratos_harness.Workflow.Acceptance.{
  has_canonical_acceptance_decision, merge_attempts, merge_repair_stop_history,
}
use kratos_harness.Workflow.Repair.{
  canonical_decision, after_repair_required, after_stop_loss, reduce_acceptance_passed,
  reduce_repair_required, reduce_stop_loss,
}
use kratos_harness.Workflow.Reducer.{reduce_workflow, reduce_by_reason, reduce_limited, with_limits}
use kratos_harness.Workflow.Run.{Reach}
use kratos_harness.Workflow.Counts.{IsTracked}
use kratos_harness.Workflow.Attempts.{Reach-IsCounted}

-- The metadata of every decision pass the reducer's checks.
decision-IsRecorded :
    (c : Candidate) (d : Decision) (bindings : List Binding) (e : Event) (m : AcceptanceDecision)
    → All (λ b. includes e.artifact_refs b.artifact_ref ≡ true) bindings
    → decide_repair_loop c ≡ ok d
    → build_acceptance_decision_metadata d bindings ≡ ok (some m)
    → IsRecorded c bindings e m
unfolding build_acceptance_decision_metadata
decision-IsRecorded c d bindings e m cited h built = elim (decide_repair_loop-IsDecided c d h) [
  | inl (r, refusal) ↦ absurd (refused_unbuilt r (rw refusal at built))
  | inr decided ↦ by_kind d decided built
]
  where
    refused_unbuilt :
        (r : Refusal)
        → build_acceptance_decision_metadata (Decision.refused r.0 r.1) bindings ≡ ok (some m)
        → ⊥
    refused_unbuilt r q = ground arith

    by_kind :
        (d : Decision)
        → IsDecided c d
        → build_acceptance_decision_metadata d bindings ≡ ok (some m)
        → IsRecorded c bindings e m
    by_kind (Decision.passed l) i q = passed-IsRecorded c bindings e m l q
    by_kind (Decision.repair l) i q = repair-IsRecorded c bindings e m l i q
    by_kind (Decision.stopped l stops) i q = stopped-IsRecorded c bindings e m l stops cited i q
    by_kind (Decision.refused r id) i q = absurd (refused_unbuilt (r, id) q)

-- The reason code with which a decision is recorded.
abbrev pub reason_of : AcceptanceOutcome → ReasonCode
reason_of AcceptanceOutcome.passed = ReasonCode.run_acceptance_passed
reason_of AcceptanceOutcome.repair = ReasonCode.run_acceptance_repair_required
reason_of AcceptanceOutcome.stopped = ReasonCode.run_stop_loss_repeated_rejection

-- The attempts after a decision: those of the decision, then the others as they were.
abbrev attempts_after : State → AcceptanceDecision → List Attempt
attempts_after s m =
    m.attempts
    ++ filter (λ a. not (includes (map (λ x. x.criterion_id) m.attempts) a.criterion_id)) s.attempts

-- The state that a decision is meant to lead to, field by field.
abbrev pub after_decision : State → Event → AcceptanceDecision → AcceptanceOutcome → State
after_decision s e m AcceptanceOutcome.passed = record s {
  revision = e.resulting_revision;
  updated_at = some e.occurred_at;
  operations = s.operations ++ e.operation ∷ [];
  policy_version = some PolicyVersion.workflow_v2;
}
after_decision s e m AcceptanceOutcome.repair = record s {
  revision = e.resulting_revision;
  updated_at = some e.occurred_at;
  operations = s.operations ++ e.operation ∷ [];
  policy_version = some PolicyVersion.workflow_v2;
  status = Status.active;
  current_step = some Phase.code;
  attempts = attempts_after s m;
}
after_decision s e m AcceptanceOutcome.stopped = record s {
  revision = e.resulting_revision;
  updated_at = some e.occurred_at;
  operations = s.operations ++ e.operation ∷ [];
  policy_version = some PolicyVersion.workflow_v2;
  status = Status.blocked;
  attempts = attempts_after s m;
  active_repair_stops = m.repair_stops;
  repair_stop_history =
      s.repair_stop_history
      ++ filter
          (λ x. not (includes (map (λ y. y.criterion_id) s.repair_stop_history) x.criterion_id))
          m.repair_stops;
}

reduce_decision :
    (s : State) (e : Event) (m : AcceptanceDecision) (x : AcceptanceOutcome)
    → e.policy_version ≡ PolicyVersion.workflow_v2
    → e.prior_revision ≡ s.revision
    → e.reason_code ≡ reason_of x
    → e.acceptance_decision ≡ some m
    → is_some s.acceptance_attempt_ceiling ≡ true
    → has_canonical_acceptance_decision s e m x ≡ true
    → reduce_workflow s e ≡ ok (after_decision s e m x)
unfolding reduce_workflow reduce_by_reason with_limits reduce_limited reduce_acceptance_passed
    reduce_repair_required reduce_stop_loss canonical_decision after_repair_required after_stop_loss
    merge_attempts merge_repair_stop_history
reduce_decision s e m AcceptanceOutcome.passed v p r a l h = ground arith
reduce_decision s e m AcceptanceOutcome.repair v p r a l h = ground arith
reduce_decision s e m AcceptanceOutcome.stopped v p r a l h = ground arith

canonical_of_IsRecorded :
    (s : State) (c : Candidate) (bindings : List Binding) (e : Event) (m : AcceptanceDecision)
    → s.acceptance_attempt_ceiling ≡ some c.attempt_ceiling
    → c.attempts ≡ s.attempts
    → s.current_step ≡ some Phase.acceptance
    → s.active_repair_stops ≡ []
    → IsRecorded c bindings e m
    → has_canonical_acceptance_decision s e m m.outcome ≡ true
unfolding has_canonical_acceptance_decision
canonical_of_IsRecorded s c bindings e m l a p n r = ground arith

-- Take a run at acceptance without an active repair stop, and a candidate with the run's attempts
-- and ceiling. Whatever the repair loop decides, if metadata are built for the decision from
-- bindings whose artifacts the event refers to, then the reducer accepts the event that records
-- them. A pass changes only what every event stamps. A repair sends the run back to code, active,
-- with the attempts of the decision in place of those of the same criteria. A stop blocks it at
-- acceptance, with those attempts, and with the decision's stops as the active ones; in the
-- history those of new criteria follow the earlier ones.
pub decision_accepted :
    (s : State) (c : Candidate) (d : Decision) (bindings : List Binding) (e : Event)
    (m : AcceptanceDecision)
    → s.acceptance_attempt_ceiling ≡ some c.attempt_ceiling
    → c.attempts ≡ s.attempts
    → s.current_step ≡ some Phase.acceptance
    → s.active_repair_stops ≡ []
    → e.policy_version ≡ PolicyVersion.workflow_v2
    → e.prior_revision ≡ s.revision
    → e.reason_code ≡ reason_of m.outcome
    → e.acceptance_decision ≡ some m
    → All (λ b. includes e.artifact_refs b.artifact_ref ≡ true) bindings
    → decide_repair_loop c ≡ ok d
    → build_acceptance_decision_metadata d bindings ≡ ok (some m)
    → reduce_workflow s e ≡ ok (after_decision s e m m.outcome)
decision_accepted s c d bindings e m l a p n v r reason carried cited decided built =
    reduce_decision s e m m.outcome v r reason carried (ground arith) (
      canonical_of_IsRecorded s c bindings e m l a p n
        (decision-IsRecorded c d bindings e m cited decided built))

-- Counts below the ceiling are no active stops.
read_attempts-below :
    (k : ℕ) (l : List Attempt) (m : List (Text × ℕ)) (id : Option Text)
    → All (λ a. a.attempt < k) l
    → read_attempts k l m ≡ err (Reason.active_stop, id)
    → ⊥
unfolding read_attempts
read_attempts-below k [] m id _ h = cc
read_attempts-below k (a ∷ l) m id (p, b) h =
    ground (arith, read_attempts-below k l (put a.criterion_id a.attempt m) id b)

read_criteria-active_stop :
    (l : List Criterion) (seen : List Text) (id : Option Text)
    → read_criteria l seen ≡ err (Reason.active_stop, id)
    → ⊥
unfolding read_criteria
read_criteria-active_stop [] seen id h = cc
read_criteria-active_stop (c ∷ l) seen id h =
    ground (arith, read_criteria-active_stop l (seen ++ c.criterion_id ∷ []) id)

read_faults-active_stop :
    (l : List Fault) (m : List (Text × Fault)) (id : Option Text)
    → read_faults l m ≡ err (Reason.active_stop, id)
    → ⊥
unfolding read_faults
read_faults-active_stop [] m id h = cc
read_faults-active_stop (f ∷ l) m id h =
    ground (arith, read_faults-active_stop l (put f.criterion_id f m) id)

decide_verdict-active_stop :
    (c : Candidate) (prior : List (Text × ℕ)) (faults : List (Text × Fault)) (id : Option Text)
    → decide_verdict c prior faults ≡ ok (Decision.refused Reason.active_stop id)
    → ⊥
unfolding decide_verdict
decide_verdict-active_stop c prior faults id h = ground arith

or_refuse-active_stop {ℓ} :
    {A : Type ℓ} (m : Result Refusal A) (k : A → Result Thrown Decision) (id : Option Text)
    → (m ≡ err (Reason.active_stop, id) → ⊥)
    → ((a : A) → k a ≡ ok (Decision.refused Reason.active_stop id) → ⊥)
    → or_refuse m k ≡ ok (Decision.refused Reason.active_stop id)
    → ⊥
or_refuse-active_stop (ok a) k id p q h = q a h
or_refuse-active_stop (err (reason, id')) k id p q h = p (ground arith)

-- A run that a verified stream replays to, that has no active repair stop and was not handed over
-- to a new specification, is never refused for an active stop: whatever criteria and faults a
-- candidate with the run's attempts and ceiling reports, the loop's answer is another one.
pub unstopped_never_refused :
    (configuration : Configuration) (s : State) (c : Candidate) (id : Option Text)
    → Reach configuration s
    → s.active_repair_stops ≡ []
    → s.specification_restart ≡ none
    → s.acceptance_attempt_ceiling ≡ some c.attempt_ceiling
    → c.attempts ≡ s.attempts
    → decide_repair_loop c ≢ ok (Decision.refused Reason.active_stop id)
unfolding decide_repair_loop
unstopped_never_refused configuration s c id r stops restart limit same h =
    let counted = Reach-IsCounted configuration r in
    let below : All (λ a. a.attempt < c.attempt_ceiling) c.attempts = rw same (
      All-both (λ a. (1 ≤ a.attempt) × (a.attempt ≤ get_or s.acceptance_attempt_ceiling 0))
        (IsTracked s.acceptance_attempt_ceiling s.active_repair_stops s.specification_restart)
        (λ a. a.attempt < c.attempt_ceiling) (λ a p q. ground arith) s.attempts counted.bounded
        counted.tracked) in
    elim (Bool-cases (valid_positive_integer c.attempt_ceiling)) [
      | inr invalid ↦ ground (arith, invalid)
      | inl valid ↦
          or_refuse-active_stop (read_attempts c.attempt_ceiling c.attempts []) _ id
            (read_attempts-below c.attempt_ceiling c.attempts [] id below)
            (λ prior.
              or_refuse-active_stop (read_criteria c.criteria []) _ id
                (read_criteria-active_stop c.criteria [] id)
                (λ _.
                  or_refuse-active_stop (read_faults c.faults []) _ id
                    (read_faults-active_stop c.faults [] id)
                    (λ faults. decide_verdict-active_stop c prior faults id)))
            (rw valid at h)
    ]
