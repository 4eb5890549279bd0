-- ===== src/Workflow/Attempts.antt =====
-- Every event of a verified stream keeps the bookkeeping of acceptance attempts.
use kratos_harness.Common.{
  ℕ, ◌≡◌, refl, subst, inl, inr, true, false, not, List, [], ◌∷◌, Option, none, some, Text, arith,
  filter, is_some, includes, Distinct-map-filter, All, All-mono, All-filter, Bool-cases, ◌==◌,
  nat_eq, text_eq, text_iff, ok,
}
use kratos_harness.RepairLoop.Model.{Attempt}
use kratos_harness.Workflow.Model.{
  State, Event, Configuration, RepairStop, AcceptanceDecision, AcceptanceOutcome,
  SpecificationRestart, ResolutionFact, ReasonCode, PolicyVersion, is_specification,
}
use kratos_harness.Workflow.Acceptance.{attempt_ids, stop_ids, at_ceiling, canonical_outcome}
use kratos_harness.Workflow.Canonical.{
  canonical_decision-eq-ok, stops_match-ids, at_ceiling-includes,
}
use kratos_harness.Workflow.Counts.{
  IsCounted, IsTracked, Counted-nil, Agrees-IsCounted, known-Agrees, passed-Agrees,
  merge_attempts-Counted, workflow_seed-IsCounted,
}
use kratos_harness.Workflow.Phases.{reduce_known_workflow_reason}
use kratos_harness.Workflow.Starts.{
  reduce_workflow_v1, reduce_policy_upgraded, reduce_started, reduce_started_from_spec,
  is_plain_legacy,
}
use kratos_harness.Workflow.Repair.{
  reduce_acceptance_passed, reduce_repair_required, reduce_stop_loss, reduce_repair_stop_resolved,
  resolve_code, resolve_specification,
}
use kratos_harness.Workflow.Reducer.{
  reduce_with, reduce_workflow, reduce_by_reason, reduce_limited, with_limits,
}
use kratos_harness.Workflow.Run.{step, Reach, start, next, IsOrderly, Reach-IsOrderly}

-- A decision to repair has no attempt at the ceiling.
repair-IsTracked :
    (limit : Option ℕ) (k : ℕ) (e : Event) (d : AcceptanceDecision) (stops : List RepairStop)
    (restart : Option SpecificationRestart)
    → limit ≡ some k
    → canonical_outcome k e d AcceptanceOutcome.repair ≡ true
    → All (IsTracked limit stops restart) d.attempts
unfolding canonical_outcome
repair-IsTracked limit k e d stops restart l h =
    let untripped : at_ceiling k d.attempts ≡ [] = ground arith in
    All-mono _ (IsTracked limit stops restart)
      (λ a p q. ground (arith, untripped, p (ground arith))) d.attempts
      (at_ceiling-includes k d.attempts)

-- A decision to stop names a stop for every attempt at the ceiling.
stopped-IsTracked :
    (limit : Option ℕ) (k : ℕ) (e : Event) (d : AcceptanceDecision)
    (restart : Option SpecificationRestart)
    → limit ≡ some k
    → canonical_outcome k e d AcceptanceOutcome.stopped ≡ true
    → All (IsTracked limit d.repair_stops restart) d.attempts
unfolding canonical_outcome
stopped-IsTracked limit k e d restart l h =
    let same : stop_ids d.repair_stops ≡ attempt_ids (at_ceiling k d.attempts) =
      stops_match-ids e.artifact_refs d.repair_stops (at_ceiling k d.attempts) (ground arith)
        (ground arith) in
    All-mono _ (IsTracked limit d.repair_stops restart)
      (λ a p q. ground (arith, same, p (ground arith))) d.attempts
      (at_ceiling-includes k d.attempts)

repair-IsCounted :
    (s t : State) (e : Event) → IsCounted s → reduce_repair_required s e ≡ ok t → IsCounted t
unfolding reduce_repair_required
repair-IsCounted s t e h eq =
    let (d, c, same) = canonical_decision-eq-ok s t e AcceptanceOutcome.repair _ eq in
    subst IsCounted same (
      merge_attempts-Counted s e d AcceptanceOutcome.repair s.active_repair_stops h c
        (repair-IsTracked _ c.ceiling e d _ _ c.limited c.settled))

stop_loss-IsCounted :
    (s t : State) (e : Event) → IsCounted s → reduce_stop_loss s e ≡ ok t → IsCounted t
unfolding reduce_stop_loss
stop_loss-IsCounted s t e h eq =
    let (d, c, same) = canonical_decision-eq-ok s t e AcceptanceOutcome.stopped _ eq in
    subst IsCounted same (
      merge_attempts-Counted s e d AcceptanceOutcome.stopped d.repair_stops h c
        (stopped-IsTracked _ c.ceiling e d _ c.limited c.settled))

-- A stop of another criterion is still active.
includes-remaining :
    (stops : List RepairStop) (id s : Text)
    → (s == id) ≡ false
    → includes (stop_ids stops) s ≡ true
    → includes (stop_ids (filter (λ x. not (x.criterion_id == id)) stops)) s ≡ true
includes-remaining [] id s ne h = h
includes-remaining (x ∷ stops) id s ne h = ground (
  arith,
  includes-remaining stops id s ne,
  text_iff x.criterion_id s,
  text_iff x.criterion_id id,
  text_iff s id,
)

-- The attempts of other criteria are tracked by the stops that a resolution leaves.
remaining-IsTracked :
    (ceiling : Option ℕ) (stops : List RepairStop) (restart : Option SpecificationRestart)
    (id : Text) (l : List Attempt)
    → All (IsTracked ceiling stops restart) l
    → All
        (IsTracked ceiling (filter (λ x. not (x.criterion_id == id)) stops) restart)
        (filter (λ a. not (a.criterion_id == id)) l)
remaining-IsTracked ceiling stops restart id [] _ = tt
remaining-IsTracked ceiling stops restart id (a ∷ l) (p, h) =
    elim (Bool-cases (a.criterion_id == id)) [
      | inl same ↦ rw same (remaining-IsTracked ceiling stops restart id l h)
      | inr ne ↦ rw ne (
        λ q. ground (arith, p q, includes-remaining stops id a.criterion_id ne),
        remaining-IsTracked ceiling stops restart id l h,
      )
    ]

module _ (s t : State) (e : Event) (r : ResolutionFact) (h : IsCounted s) where
  resolve_specification-IsCounted : resolve_specification s e r ≡ ok t → IsCounted t
  unfolding resolve_specification
  resolve_specification-IsCounted eq =
      let kept : (t.attempts ≡ s.attempts)
          × (t.acceptance_attempt_ceiling ≡ s.acceptance_attempt_ceiling)
          × (is_some t.specification_restart ≡ true) =
        ground arith in
      record {
        bounded = rw (kept.0, kept.1) h.bounded;
        distinct = rw kept.0 h.distinct;
        tracked = rw kept.0 (All-mono _ _ (λ a p q. ground (arith, kept.2)) s.attempts h.tracked);
      }

  resolve_code-IsCounted : resolve_code s e r ≡ ok t → IsCounted t
  unfolding resolve_code
  resolve_code-IsCounted eq =
      let kept : (t.attempts ≡ filter (λ a. not (a.criterion_id == r.criterion_id)) s.attempts)
          × (t.acceptance_attempt_ceiling ≡ s.acceptance_attempt_ceiling)
          × (t.specification_restart ≡ s.specification_restart)
          × (t.active_repair_stops
              ≡ filter (λ x. not (x.criterion_id == r.criterion_id)) s.active_repair_stops) =
        ground arith in
      rw (kept.0, kept.1, kept.2, kept.3)
        (record {
          bounded = All-filter _ _ s.attempts h.bounded;
          distinct = Distinct-map-filter (λ a. a.criterion_id) _ s.attempts h.distinct;
          tracked = remaining-IsTracked _ _ _ r.criterion_id s.attempts h.tracked;
        })

module _ (s t : State) (e : Event) (o : IsOrderly s) (h : IsCounted s) where
  resolved-IsCounted : reduce_repair_stop_resolved s e ≡ ok t → IsCounted t
  unfolding reduce_repair_stop_resolved
  resolved-IsCounted eq = go e.repair_resolution refl
    where
      go : (m : Option ResolutionFact) → e.repair_resolution ≡ m → IsCounted t
      go none p = absurd (ground arith)
      go (some r) p = elim (Bool-cases (is_specification r.classification)) [
        | inl spec ↦ resolve_specification-IsCounted s t e r h (ground arith)
        | inr other ↦ resolve_code-IsCounted s t e r h (ground arith)
      ]

  -- A start or an upgrade finds a run without attempts.
  upgraded-IsCounted : reduce_policy_upgraded s e ≡ ok t → IsCounted t
  unfolding reduce_policy_upgraded is_plain_legacy
  upgraded-IsCounted eq = Counted-nil _ _ _ (ground arith)

  started-IsCounted :
      e.reason_code ≡ ReasonCode.run_started → reduce_started s e ≡ ok t → IsCounted t
  unfolding reduce_started reduce_known_workflow_reason
  started-IsCounted same eq = Counted-nil _ _ _ (ground arith)

  from_spec-IsCounted : reduce_started_from_spec s e ≡ ok t → IsCounted t
  unfolding reduce_started_from_spec
  from_spec-IsCounted eq = Counted-nil _ _ _ (ground arith)

  known-IsCounted : reduce_known_workflow_reason s e ≡ ok t → IsCounted t
  known-IsCounted eq = Agrees-IsCounted s t (known-Agrees s t e eq) h

  passed-IsCounted : reduce_acceptance_passed s e ≡ ok t → IsCounted t
  passed-IsCounted eq = Agrees-IsCounted s t (passed-Agrees s t e eq) h

  limited-IsCounted : (r : ReasonCode) → reduce_limited r s e ≡ ok t → IsCounted t
  unfolding reduce_limited
  limited-IsCounted ReasonCode.run_acceptance_passed eq = passed-IsCounted eq
  limited-IsCounted ReasonCode.run_acceptance_repair_required eq = repair-IsCounted s t e h eq
  limited-IsCounted ReasonCode.run_stop_loss_repeated_rejection eq = stop_loss-IsCounted s t e h eq
  limited-IsCounted ReasonCode.run_repair_stop_resolved eq = resolved-IsCounted eq
  limited-IsCounted _ eq = known-IsCounted eq

  with_limits-IsCounted : (r : ReasonCode) → with_limits r s e ≡ ok t → IsCounted t
  unfolding with_limits
  with_limits-IsCounted r eq = limited-IsCounted r (ground arith)

  by_reason-IsCounted :
      (r : ReasonCode) → e.reason_code ≡ r → reduce_by_reason r s e ≡ ok t → IsCounted t
  unfolding reduce_by_reason
  by_reason-IsCounted ReasonCode.run_policy_upgraded same eq = upgraded-IsCounted eq
  by_reason-IsCounted ReasonCode.run_started same eq = started-IsCounted same eq
  by_reason-IsCounted ReasonCode.run_started_from_spec same eq = from_spec-IsCounted eq
  by_reason-IsCounted r same eq = with_limits-IsCounted r eq

  workflow-IsCounted : reduce_workflow s e ≡ ok t → IsCounted t
  unfolding reduce_workflow
  workflow-IsCounted eq = by_reason-IsCounted e.reason_code refl (ground arith)

  reduced-IsCounted : (v : PolicyVersion) → reduce_with v s e ≡ ok t → IsCounted t
  unfolding reduce_with reduce_workflow_v1
  reduced-IsCounted PolicyVersion.workflow_v1 eq = known-IsCounted (ground arith)
  reduced-IsCounted PolicyVersion.workflow_v2 eq = workflow-IsCounted eq
  reduced-IsCounted (PolicyVersion.other _) eq = absurd (ground arith)

-- In every run that a verified stream replays to, each criterion has at most one attempt count,
-- the count is between one and the run's ceiling, and a criterion that stands at the ceiling has
-- an active repair stop, unless the run was handed over to a new specification.
pub Reach-IsCounted : (c : Configuration) {s : State} → Reach c s → IsCounted s
Reach-IsCounted c start = workflow_seed-IsCounted c
Reach-IsCounted c (next {s} {t} r (step e _ eq)) =
    reduced-IsCounted s t e (Reach-IsOrderly c r) (Reach-IsCounted c r) e.policy_version eq
