-- ===== src/Workflow/Acceptance.antt =====
-- The acceptance decisions that an event carries (workflow/reducer.ts): their merge into the state,
-- and the check that one is canonical for it.
use kratos_harness.Common.{
  ℕ, ◌+◌, Bool, true, false, ◌&&◌, ◌||◌, not, List, [], ◌∷◌, ◌++◌, map, none, some, Text, leb,
  if◌then◌else◌, filter, is_empty, length, get, get_or, put, includes, ◌==◌, nat_eq, text_eq,
}
use kratos_harness.Criterion.{is_acceptance_criterion_id}
use kratos_harness.RepairLoop.Model.{Attempt}
use kratos_harness.RepairLoop.Decision.{is_known}
use kratos_harness.Workflow.Model.{
  State, Event, RepairStop, AcceptanceDecision, AcceptanceOutcome, is_acceptance,
}

abbrev pub attempt_ids : List Attempt → List Text
attempt_ids = map (λ a. a.criterion_id)

abbrev pub stop_ids : List RepairStop → List Text
stop_ids = map (λ s. s.criterion_id)

-- `mergeAttempts`
unfoldable pub merge_attempts : State → List Attempt → List Attempt
merge_attempts state updates =
    updates ++ filter (λ a. not (includes (attempt_ids updates) a.criterion_id)) state.attempts

-- `mergeRepairStopHistory`
unfoldable pub merge_repair_stop_history : State → List RepairStop → List RepairStop
merge_repair_stop_history state stops =
    state.repair_stop_history
    ++ filter (λ s. not (includes (stop_ids state.repair_stop_history) s.criterion_id)) stops

-- `new Map(attempts.map(({ criterionId, attempt }) => [criterionId, attempt]))`
unfoldable pub attempt_map : List Attempt → List (Text × ℕ) → List (Text × ℕ)
attempt_map [] m = m
attempt_map (a ∷ rest) m = attempt_map rest (put a.criterion_id a.attempt m)

-- The loop over `decision.attempts`; `false` is its `return false`.
unfoldable pub canonical_attempts : List (Text × ℕ) → ℕ → List Text → List Attempt → Bool
canonical_attempts previous ceiling seen [] = true
canonical_attempts previous ceiling seen (a ∷ rest) =
    let continued = canonical_attempts previous ceiling (seen ++ a.criterion_id ∷ []) rest in
    if not (is_acceptance_criterion_id a.criterion_id)
      || includes seen a.criterion_id
      || not (a.attempt == get_or (get a.criterion_id previous) 0 + 1)
      || not (leb a.attempt ceiling)
    then false
    else continued

-- The attempts that stand at the ceiling.
abbrev pub at_ceiling : ℕ → List Attempt → List Attempt
at_ceiling ceiling = filter (λ a. a.attempt == ceiling)

-- `repairStops.every(…)`, each stop held against the tripping attempt at its index.
unfoldable pub stops_match : List Text → List RepairStop → List Attempt → Bool
stops_match refs [] trips = true
stops_match refs (s ∷ stops) [] = false
stops_match refs (s ∷ stops) (a ∷ trips) =
    (a.criterion_id == s.criterion_id
      && a.attempt == s.attempt
      && is_known s.classification
      && includes refs s.artifact_ref)
    && stops_match refs stops trips

-- The part of the check that depends on the outcome.
unfoldable pub canonical_outcome : ℕ → Event → AcceptanceDecision → AcceptanceOutcome → Bool
unfolding stops_match
canonical_outcome ceiling event decision AcceptanceOutcome.passed =
    is_empty decision.attempts && is_empty decision.repair_stops
canonical_outcome ceiling event decision AcceptanceOutcome.repair =
    not (is_empty decision.attempts)
    && is_empty (at_ceiling ceiling decision.attempts)
    && is_empty decision.repair_stops
canonical_outcome ceiling event decision AcceptanceOutcome.stopped =
    let trips = at_ceiling ceiling decision.attempts in
    not (is_empty decision.attempts)
    && not (is_empty trips || not (length decision.repair_stops == length trips))
    && stops_match event.artifact_refs decision.repair_stops trips

abbrev pub same_outcome : AcceptanceOutcome → AcceptanceOutcome → Bool
same_outcome AcceptanceOutcome.passed AcceptanceOutcome.passed = true
same_outcome AcceptanceOutcome.repair AcceptanceOutcome.repair = true
same_outcome AcceptanceOutcome.stopped AcceptanceOutcome.stopped = true
same_outcome _ _ = false

-- `hasCanonicalAcceptanceDecision`
unfoldable pub has_canonical_acceptance_decision :
    State → Event → AcceptanceDecision → AcceptanceOutcome → Bool
unfolding attempt_map canonical_attempts canonical_outcome
has_canonical_acceptance_decision state event decision expected =
    elim state.acceptance_attempt_ceiling [
      | none ↦ false
      | some ceiling ↦
          if not (is_acceptance state.current_step)
            || not (is_empty state.active_repair_stops)
            || not (same_outcome decision.outcome expected)
          then false
          else canonical_attempts (attempt_map state.attempts []) ceiling [] decision.attempts
            && canonical_outcome ceiling event decision expected
    ]
