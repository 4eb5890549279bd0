-- ===== src/Workflow/Canonical.antt =====
-- What a canonical acceptance decision says of the attempts and the stops that it carries.
use kratos_harness.Common.{
  ℕ, ◌≤◌, ◌≡◌, refl, true, false, List, [], ◌∷◌, ◌++◌, Option, none, some, Text, arith, length,
  includes, includes-append, Distinct, All, All-mono, nat_eq, text_eq, text_iff, text_refl, ok,
}
use kratos_harness.RepairLoop.Model.{Attempt}
use kratos_harness.Workflow.Model.{
  State, Event, RepairStop, AcceptanceDecision, AcceptanceOutcome, Phase,
}
use kratos_harness.Workflow.Acceptance.{
  attempt_ids, stop_ids, attempt_map, canonical_attempts, at_ceiling, stops_match,
  canonical_outcome, has_canonical_acceptance_decision,
}
use kratos_harness.Workflow.Repair.{canonical_decision}

pub canonical-bounded :
    (previous : List (Text × ℕ)) (k : ℕ) (seen : List Text) (l : List Attempt)
    → canonical_attempts previous k seen l ≡ true
    → All (λ a. (1 ≤ a.attempt) × (a.attempt ≤ k)) l
unfolding canonical_attempts
canonical-bounded previous k seen [] h = tt
canonical-bounded previous k seen (a ∷ l) h =
    (ground arith, canonical-bounded previous k (seen ++ a.criterion_id ∷ []) l (ground arith))

canonical-unseen :
    (previous : List (Text × ℕ)) (k : ℕ) (seen : List Text) (l : List Attempt)
    → canonical_attempts previous k seen l ≡ true
    → All (λ a. includes seen a.criterion_id ≡ false) l
unfolding canonical_attempts
canonical-unseen previous k seen [] h = tt
canonical-unseen previous k seen (a ∷ l) h = (
  ground arith,
  All-mono (λ b. includes (seen ++ a.criterion_id ∷ []) b.criterion_id ≡ false)
      (λ b. includes seen b.criterion_id ≡ false)
      (λ b p. ground (arith, includes-append seen (a.criterion_id ∷ []) b.criterion_id)) l
      (canonical-unseen previous k (seen ++ a.criterion_id ∷ []) l (ground arith)),
)

-- A text that differs from each identifier is not among them.
not-among :
    (seen : List Text) (s : Text) (l : List Attempt)
    → All (λ b. includes (seen ++ s ∷ []) b.criterion_id ≡ false) l
    → includes (attempt_ids l) s ≡ false
not-among seen s [] _ = refl
not-among seen s (a ∷ l) (p, h) = ground (
  arith,
  not-among seen s l h,
  includes-append seen (s ∷ []) a.criterion_id,
  text_iff s a.criterion_id,
  text_iff a.criterion_id s,
)

pub canonical-Distinct :
    (previous : List (Text × ℕ)) (k : ℕ) (seen : List Text) (l : List Attempt)
    → canonical_attempts previous k seen l ≡ true
    → Distinct (attempt_ids l)
unfolding canonical_attempts
canonical-Distinct previous k seen [] h = tt
canonical-Distinct previous k seen (a ∷ l) h =
    let rest : canonical_attempts previous k (seen ++ a.criterion_id ∷ []) l ≡ true =
      ground arith in
    (
      not-among seen a.criterion_id l
          (canonical-unseen previous k (seen ++ a.criterion_id ∷ []) l rest),
      canonical-Distinct previous k (seen ++ a.criterion_id ∷ []) l rest,
    )

-- Stops that match the tripping attempts name the same criteria in the same order.
pub stops_match-ids :
    (refs : List Text) (stops : List RepairStop) (trips : List Attempt)
    → length stops ≡ length trips
    → stops_match refs stops trips ≡ true
    → stop_ids stops ≡ attempt_ids trips
unfolding stops_match
stops_match-ids refs [] [] n h = refl
stops_match-ids refs [] (a ∷ trips) n h = absurd (omega arith)
stops_match-ids refs (s ∷ stops) [] n h = absurd (omega arith)
stops_match-ids refs (s ∷ stops) (a ∷ trips) n h =
    ground (arith, text_iff a.criterion_id s.criterion_id, stops_match-ids refs stops trips)

-- Every attempt at the ceiling is among those that trip.
pub at_ceiling-includes :
    (k : ℕ) (l : List Attempt)
    → All (λ a. a.attempt ≡ k → includes (attempt_ids (at_ceiling k l)) a.criterion_id ≡ true) l
at_ceiling-includes k [] = tt
at_ceiling-includes k (a ∷ l) = (
  λ e. ground (arith, text_refl a.criterion_id),
  All-mono (λ b. b.attempt ≡ k → includes (attempt_ids (at_ceiling k l)) b.criterion_id ≡ true)
      (λ b. b.attempt ≡ k → includes (attempt_ids (at_ceiling k (a ∷ l))) b.criterion_id ≡ true)
      (λ b p e. ground (arith, p e)) l (at_ceiling-includes k l),
)

-- The parts of the check, at the ceiling of the run.
pub record IsCanonical (s : State) (e : Event) (d : AcceptanceDecision) (x : AcceptanceOutcome)
    : Type 0 where
  pub ceiling : ℕ
  pub limited : s.acceptance_attempt_ceiling ≡ some ceiling
  pub at_acceptance : s.current_step ≡ some Phase.acceptance
  pub unstopped : s.active_repair_stops ≡ []
  pub counted : canonical_attempts (attempt_map s.attempts []) ceiling [] d.attempts ≡ true
  pub settled : canonical_outcome ceiling e d x ≡ true

pub has_canonical_acceptance_decision-IsCanonical :
    (s : State) (e : Event) (d : AcceptanceDecision) (x : AcceptanceOutcome)
    → has_canonical_acceptance_decision s e d x ≡ true
    → IsCanonical s e d x
unfolding has_canonical_acceptance_decision
has_canonical_acceptance_decision-IsCanonical s e d x h = go s.acceptance_attempt_ceiling refl
  where
    go : (o : Option ℕ) → s.acceptance_attempt_ceiling ≡ o → IsCanonical s e d x
    go none p = ground arith
    go (some k) p = record {
      ceiling = k;
      limited = p;
      at_acceptance = ground arith;
      unstopped = ground arith;
      counted = ground arith;
      settled = ground arith;
    }

-- What an accepted acceptance event carries.
pub canonical_decision-eq-ok :
    (s t : State) (e : Event) (x : AcceptanceOutcome) (f : AcceptanceDecision → State)
    → canonical_decision s e x f ≡ ok t
    → (d : AcceptanceDecision) × IsCanonical s e d x × (f d ≡ t)
unfolding canonical_decision
canonical_decision-eq-ok s t e x f h = go e.acceptance_decision refl
  where
    go :
        (o : Option AcceptanceDecision)
        → e.acceptance_decision ≡ o
        → (d : AcceptanceDecision) × IsCanonical s e d x × (f d ≡ t)
    go none p = ground arith
    go (some d) p =
        (d, has_canonical_acceptance_decision-IsCanonical s e d x (ground arith), ground arith)
