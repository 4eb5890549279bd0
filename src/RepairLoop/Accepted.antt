-- ===== src/RepairLoop/Accepted.antt =====
-- The repair loop and the workflow reducer agree: the reducer accepts every decision of the loop.
use kratos_harness.Common.{
  ℕ, ◌≡◌, true, false, List, [], some, Text, arith, is_empty, get, includes, All, nat_eq, text_eq,
  ok,
}
use kratos_harness.RepairLoop.Model.{Attempt, Fault, Stop, Candidate, Decision}
use kratos_harness.RepairLoop.Decision.{
  valid_positive_integer, next_attempts, tripping, stops_of, decide_verdict,
}
use kratos_harness.RepairLoop.Artifact.{
  Binding, binding_map, bind_stops, unbound, build_acceptance_decision_metadata,
}
use kratos_harness.RepairLoop.Reading.{
  read_attempts-attempt_map, read_attempts-IsBelow, read_faults-IsClassified, read_faults-IsKeyed,
  next_attempts-canonical, tripping-at_ceiling,
}
use kratos_harness.RepairLoop.Verdict.{IsDecided}
use kratos_harness.RepairLoop.Recorded.{binding_map-IsCited, bound-stops_match}
use kratos_harness.Workflow.Model.{Event, AcceptanceDecision, AcceptanceOutcome}
use kratos_harness.Workflow.Acceptance.{
  attempt_map, canonical_attempts, at_ceiling, canonical_outcome,
}
use kratos_harness.Workflow.Canonical.{canonical-bounded}

-- The new attempts of a candidate, by the map that the reducer builds.
abbrev new_attempts : Candidate → List Attempt
new_attempts c = next_attempts (attempt_map c.attempts []) c.criteria

module _ (c : Candidate) (d : Decision) (i : IsDecided c d) where
  decided-canonical :
      canonical_attempts (attempt_map c.attempts []) c.attempt_ceiling [] (new_attempts c) ≡ true
  unfolding valid_positive_integer get
  decided-canonical =
      next_attempts-canonical c.attempt_ceiling (attempt_map c.attempts []) c.criteria [] [] i.seen
        (rw (← read_attempts-attempt_map c.attempt_ceiling c.attempts [] i.attempts) (
          read_attempts-IsBelow c.attempt_ceiling c.attempts [] (λ id. ground (arith, i.ceiling))
            i.attempts))
        (λ id h. h) i.criteria

  decided-trips :
      tripping c.attempt_ceiling (new_attempts c) ≡ at_ceiling c.attempt_ceiling (new_attempts c)
  decided-trips =
      tripping-at_ceiling c.attempt_ceiling (new_attempts c)
        (canonical-bounded _ c.attempt_ceiling [] (new_attempts c) decided-canonical)

  decided_verdict : decide_verdict c (attempt_map c.attempts []) i.faults ≡ ok d
  decided_verdict =
      rw (← read_attempts-attempt_map c.attempt_ceiling c.attempts [] i.attempts) i.verdict

-- What each kind of verdict says of the new attempts.
verdict_repair :
    (c : Candidate) (prior : List (Text × ℕ)) (faults : List (Text × Fault)) (l : List Attempt)
    → decide_verdict c prior faults ≡ ok (Decision.repair l)
    → (l ≡ next_attempts prior c.criteria)
      × (is_empty (next_attempts prior c.criteria) ≡ false)
      × (is_empty (tripping c.attempt_ceiling (next_attempts prior c.criteria)) ≡ true)
unfolding decide_verdict
verdict_repair c prior faults l h = ground arith

verdict_stopped :
    (c : Candidate) (prior : List (Text × ℕ)) (faults : List (Text × Fault)) (l : List Attempt)
    (stops : List Stop)
    → decide_verdict c prior faults ≡ ok (Decision.stopped l stops)
    → (l ≡ next_attempts prior c.criteria)
      × (is_empty (next_attempts prior c.criteria) ≡ false)
      × (is_empty (tripping c.attempt_ceiling (next_attempts prior c.criteria)) ≡ false)
      × (stops_of faults (tripping c.attempt_ceiling (next_attempts prior c.criteria)) ≡ ok stops)
unfolding decide_verdict
verdict_stopped c prior faults l stops h = ground arith

metadata_stopped :
    (l : List Attempt) (stops : List Stop) (bindings : List Binding) (m : AcceptanceDecision)
    → build_acceptance_decision_metadata (Decision.stopped l stops) bindings ≡ ok (some m)
    → (m.outcome ≡ AcceptanceOutcome.stopped)
      × (m.attempts ≡ l)
      × (bind_stops (binding_map bindings []) stops ≡ ok m.repair_stops)
unfolding build_acceptance_decision_metadata
metadata_stopped l stops bindings m h = ground arith

module _ (c : Candidate) (bindings : List Binding) (e : Event) (m : AcceptanceDecision) where
  -- The metadata of a decision that is no refusal pass the reducer's check of the outcome.
  abbrev pub IsRecorded : Type 0
  IsRecorded =
      (canonical_attempts (attempt_map c.attempts []) c.attempt_ceiling [] m.attempts ≡ true)
      × (canonical_outcome c.attempt_ceiling e m m.outcome ≡ true)

  pub passed-IsRecorded :
      (l : List Attempt)
      → build_acceptance_decision_metadata (Decision.passed l) bindings ≡ ok (some m)
      → IsRecorded
  unfolding build_acceptance_decision_metadata unbound canonical_attempts canonical_outcome
  passed-IsRecorded l h = ground arith

  pub repair-IsRecorded :
      (l : List Attempt)
      → IsDecided c (Decision.repair l)
      → build_acceptance_decision_metadata (Decision.repair l) bindings ≡ ok (some m)
      → IsRecorded
  unfolding build_acceptance_decision_metadata unbound canonical_outcome
  repair-IsRecorded l i h =
      let (same, some_failed, none_trips) = verdict_repair c _ i.faults l (decided_verdict c _ i) in
      let canonical = decided-canonical c _ i in let trips = decided-trips c _ i in ground arith

  pub stopped-IsRecorded :
      (l : List Attempt) (stops : List Stop)
      → All (λ b. includes e.artifact_refs b.artifact_ref ≡ true) bindings
      → IsDecided c (Decision.stopped l stops)
      → build_acceptance_decision_metadata (Decision.stopped l stops) bindings ≡ ok (some m)
      → IsRecorded
  unfolding canonical_outcome get
  stopped-IsRecorded l stops cited i h =
      let (same, some_failed, some_trip, made) =
        verdict_stopped c _ i.faults l stops (decided_verdict c _ i) in
      let (outcome, kept, bound) = metadata_stopped l stops bindings m h in
      let (lengths, matched) =
        bound-stops_match e.artifact_refs i.faults (binding_map bindings [])
          (tripping c.attempt_ceiling (new_attempts c)) stops m.repair_stops
          (read_faults-IsClassified c.faults [] (λ id f q. absurd (ground arith)) i.classified)
          (read_faults-IsKeyed c.faults [] (λ id f q. absurd (ground arith)) i.classified)
          (binding_map-IsCited e.artifact_refs bindings [] (λ id b q. absurd (ground arith)) cited)
          made bound in
      let canonical = decided-canonical c _ i in let trips = decided-trips c _ i in ground arith
