-- ===== src/Workflow/Counts.antt =====
-- The bookkeeping of acceptance attempts in every run that a verified stream replays to.
use kratos_harness.Common.{
  ℕ, ◌≤◌, ◌≡◌, refl, ap, inl, inr, true, false, ◌||◌, not, List, [], ◌∷◌, ◌++◌, Option, none, some,
  Text, arith, filter, is_some, get_or, includes, Distinct, Distinct-append, Distinct-map-filter,
  All, All-mono, All-append, All-filter, Bool-cases, nat_eq, text_eq, ok,
}
use kratos_harness.RepairLoop.Model.{Attempt}
use kratos_harness.Workflow.Model.{
  State, Event, Configuration, RepairStop, AcceptanceDecision, AcceptanceOutcome,
  SpecificationRestart,
}
use kratos_harness.Workflow.Acceptance.{attempt_ids, stop_ids, merge_attempts}
use kratos_harness.Workflow.Canonical.{IsCanonical, canonical-bounded, canonical-Distinct}
use kratos_harness.Workflow.Phases.{workflow_seed, reduce_known_workflow_reason}
use kratos_harness.Workflow.Repair.{reduce_acceptance_passed}

-- An attempt at the ceiling is one of a stopped criterion, or the run was handed over to a new
-- specification.
abbrev pub IsTracked : Option ℕ → List RepairStop → Option SpecificationRestart → Attempt → Type 0
IsTracked ceiling stops restart a =
    ceiling ≡ some a.attempt → (includes (stop_ids stops) a.criterion_id || is_some restart) ≡ true

pub record Counted (ceiling : Option ℕ) (attempts : List Attempt) (stops : List RepairStop)
    (restart : Option SpecificationRestart) : Type 0 where
  pub bounded : All (λ a. (1 ≤ a.attempt) × (a.attempt ≤ get_or ceiling 0)) attempts
  pub distinct : Distinct (attempt_ids attempts)
  pub tracked : All (IsTracked ceiling stops restart) attempts

abbrev pub IsCounted : State → Type 0
IsCounted s =
    Counted s.acceptance_attempt_ceiling s.attempts s.active_repair_stops s.specification_restart

-- A run without attempts.
pub Counted-nil :
    (ceiling : Option ℕ) {attempts : List Attempt} (stops : List RepairStop)
    (restart : Option SpecificationRestart)
    → attempts ≡ []
    → Counted ceiling attempts stops restart
Counted-nil ceiling stops restart e = rw e (record { bounded = tt; distinct = tt; tracked = tt })

pub workflow_seed-IsCounted : (c : Configuration) → IsCounted (workflow_seed c)
unfolding workflow_seed
workflow_seed-IsCounted c = Counted-nil none [] none refl

-- The two states agree on the bookkeeping.
pub record Agrees (s t : State) : Type 0 where
  pub ceiling : t.acceptance_attempt_ceiling ≡ s.acceptance_attempt_ceiling
  pub attempts : t.attempts ≡ s.attempts
  pub stops : t.active_repair_stops ≡ s.active_repair_stops
  pub restart : t.specification_restart ≡ s.specification_restart

pub Agrees-IsCounted : (s t : State) → Agrees s t → IsCounted s → IsCounted t
Agrees-IsCounted s t a h = rw (a.ceiling, a.attempts, a.stops, a.restart) h

pub known-Agrees : (s t : State) (e : Event) → reduce_known_workflow_reason s e ≡ ok t → Agrees s t
unfolding reduce_known_workflow_reason
known-Agrees s t e eq = ground arith

pub passed-Agrees : (s t : State) (e : Event) → reduce_acceptance_passed s e ≡ ok t → Agrees s t
unfolding reduce_acceptance_passed
passed-Agrees s t e eq = ground arith

-- The attempts that the updates leave alone have other criteria.
filter-apart :
    (ids : List Text) (l : List Attempt)
    → All
        (λ y. includes ids y ≡ false)
        (attempt_ids (filter (λ a. not (includes ids a.criterion_id)) l))
filter-apart ids [] = tt
filter-apart ids (a ∷ l) = elim (Bool-cases (includes ids a.criterion_id)) [
  | inl old ↦ rw old (filter-apart ids l)
  | inr new ↦ rw new (new, filter-apart ids l)
]

attempt_ids-append : (l m : List Attempt) → attempt_ids (l ++ m) ≡ attempt_ids l ++ attempt_ids m
attempt_ids-append [] m = refl
attempt_ids-append (a ∷ l) m = ap (λ r. a.criterion_id ∷ r) (attempt_ids-append l m)

-- Merging canonical updates keeps the bookkeeping, if the merged attempts are tracked.
pub merge_attempts-Counted :
    (s : State) (e : Event) (d : AcceptanceDecision) (x : AcceptanceOutcome)
    (stops : List RepairStop)
    → IsCounted s
    → (c : IsCanonical s e d x)
    → All (IsTracked s.acceptance_attempt_ceiling stops s.specification_restart) d.attempts
    → Counted s.acceptance_attempt_ceiling
        (merge_attempts s d.attempts)
        stops
        s.specification_restart
unfolding merge_attempts
merge_attempts-Counted s e d x stops h c fresh = record {
  bounded =
      All-append _ d.attempts _
        (rw c.limited (canonical-bounded _ c.ceiling [] d.attempts c.counted))
        (All-filter _ _ s.attempts h.bounded);
  distinct = rw (attempt_ids-append d.attempts _) (
      Distinct-append (attempt_ids d.attempts) _
        (canonical-Distinct _ c.ceiling [] d.attempts c.counted)
        (Distinct-map-filter (λ a. a.criterion_id) _ s.attempts h.distinct)
        (filter-apart (attempt_ids d.attempts) s.attempts));
  tracked = All-append _ d.attempts _ fresh (
      All-filter _ _ s.attempts (
        All-mono
          (IsTracked s.acceptance_attempt_ceiling s.active_repair_stops s.specification_restart)
          (IsTracked s.acceptance_attempt_ceiling stops s.specification_restart)
          (λ a p q. ground (arith, p q, c.unstopped)) s.attempts h.tracked));
}
