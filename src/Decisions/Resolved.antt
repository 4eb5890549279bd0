-- ===== src/Decisions/Resolved.antt =====
-- `decideResolveRepairStop` against the reducer.
use kratos_harness.Common.{
  ◌+◌, ◌≡◌, ◌≢◌, refl, sym, subst, Bool, Bool-cases, Option-cases, true, false, not, List, [], ◌∷◌,
  ◌++◌, Option, none, some, Text, arith, is_some, any, filter, includes, ◌==◌, nat_eq, text_eq,
  text_iff, text_refl, ok, err, Thrown, returns, inl, inr,
}
use kratos_harness.RepairLoop.Model.{Classification}
use kratos_harness.Workflow.Model.{
  State, PolicyVersion, RepairStop, is_code, is_specification, is_blocked,
}
use kratos_harness.Workflow.Repair.{
  same_classification, resolved_common, resolve_specification, resolve_code,
  reduce_repair_stop_resolved,
}
use kratos_harness.Workflow.Reducer.{
  reduce_with, reduce_workflow, reduce_by_reason, with_limits, reduce_limited,
}
use kratos_harness.Decisions.Model.{
  Observation, ResolveRequest, Transition, Draft, WorkflowDecision,
}
use kratos_harness.Decisions.Resolve.{
  resolve_operation, resolve_draft, active_stop, resolve_stop, resolve_present, resolve_observed,
  decide_resolve_repair_stop, valid_restart_parts, valid_resolve_request,
}

same_classification_refl : (c : Classification) → same_classification c c ≡ true
same_classification_refl Classification.code = refl
same_classification_refl Classification.specification = refl
same_classification_refl (Classification.other s) = text_refl s

-- Fewer stops have no more code stops.
any-filter :
    (p q : RepairStop → Bool) (xs : List RepairStop)
    → any p xs ≡ false
    → any p (filter q xs) ≡ false
any-filter p q [] h = refl
any-filter p q (x ∷ xs) h = ground (arith, any-filter p q xs)

-- What a recorded resolution has found of the run and the request
pub record IsResolvable (state : State) (request : ResolveRequest) (stop : RepairStop)
    : Type 0 where
  pub valid : valid_resolve_request request ≡ true
  pub feature : state.feature ≡ request.feature
  pub run : state.run_id ≡ request.run_id
  pub revision : request.expected_revision ≡ state.revision
  pub fresh : includes state.operations (resolve_operation request) ≡ false
  pub blocked : is_blocked state.status ≡ true
  pub restart : is_some state.specification_restart ≡ false
  pub active : active_stop state request ≡ some stop
  pub ordered :
      is_specification stop.classification ≡ true
      → any (λ s. is_code s.classification) state.active_repair_stops ≡ false
  pub parts : valid_restart_parts (is_specification stop.classification) request ≡ true

decide_resolve-stop :
    (state : State) (request : ResolveRequest) {made : Transition} {draft : Draft}
    {reasons : Option (List Text)}
    → decide_resolve_repair_stop (Observation.present state) request
      ≡ WorkflowDecision.recorded made draft reasons
    → resolve_stop (active_stop state request) state request
      ≡ WorkflowDecision.recorded made draft reasons
unfolding decide_resolve_repair_stop resolve_observed resolve_present
decide_resolve-stop state request h = ground arith

resolve_stop-IsResolvable :
    (state : State) (request : ResolveRequest) (stop : RepairStop) {made : Transition}
    {draft : Draft} {reasons : Option (List Text)}
    → active_stop state request ≡ some stop
    → decide_resolve_repair_stop (Observation.present state) request
      ≡ WorkflowDecision.recorded made draft reasons
    → IsResolvable state request stop
      × (made ≡ Transition.resolved)
      × (draft ≡ resolve_draft state stop request)
unfolding decide_resolve_repair_stop resolve_observed resolve_present resolve_stop
resolve_stop-IsResolvable state request stop a h =
    ground (arith, text_iff state.feature request.feature, text_iff state.run_id request.run_id)

-- What a resolution leaves of the run
pub record IsResolved (state : State) (request : ResolveRequest) (next : State) : Type 0 where
  pub revision : next.revision ≡ state.revision + 1
  pub operations : next.operations ≡ state.operations ++ resolve_operation request ∷ []
  pub stops :
      next.active_repair_stops
      ≡ filter (λ s. not (s.criterion_id == request.criterion_id)) state.active_repair_stops
  pub history : next.repair_stop_history ≡ state.repair_stop_history
  pub handed_over : is_some next.specification_restart ≡ is_some request.next_run_id

resolve_draft-returns :
    (state : State) (request : ResolveRequest) (stop : RepairStop)
    → IsResolvable state request stop
    → is_some state.acceptance_attempt_ceiling ≡ true
    → (e : Thrown)
    → reduce_with PolicyVersion.workflow_v2 state (resolve_draft state stop request).event ≢ err e
unfolding resolve_draft reduce_with reduce_workflow reduce_by_reason with_limits reduce_limited
    reduce_repair_stop_resolved resolve_specification resolve_code valid_restart_parts active_stop
resolve_draft-returns state request stop h l e k =
    elim (Bool-cases (is_specification stop.classification)) [
      | inl specification ↦ ground (
        arith,
        h.blocked,
        h.restart,
        h.active,
        h.parts,
        h.ordered specification,
        same_classification_refl stop.classification,
        any-filter (λ s. is_code s.classification)
            (λ s. not (s.criterion_id == request.criterion_id)) state.active_repair_stops,
      )
      | inr code ↦ ground (
        arith,
        h.blocked,
        h.restart,
        h.active,
        h.parts,
        same_classification_refl stop.classification,
      )
    ]

resolve_draft-IsResolved :
    (state next : State) (request : ResolveRequest) (stop : RepairStop)
    → IsResolvable state request stop
    → reduce_with PolicyVersion.workflow_v2 state (resolve_draft state stop request).event ≡ ok next
    → IsResolved state request next
unfolding resolve_draft reduce_with reduce_workflow reduce_by_reason with_limits reduce_limited
    reduce_repair_stop_resolved resolve_specification resolve_code resolved_common
resolve_draft-IsResolved state next request stop h k = ground (arith, h.restart)

resolve_draft-reduces :
    (state : State) (request : ResolveRequest) (stop : RepairStop)
    → IsResolvable state request stop
    → is_some state.acceptance_attempt_ceiling ≡ true
    → (next : State) × (reduce_with PolicyVersion.workflow_v2 state
          (resolve_draft state stop request).event
        ≡ ok next)
      × IsResolved state request next
resolve_draft-reduces state request stop h l =
    let (next, k) =
      returns (reduce_with PolicyVersion.workflow_v2 state (resolve_draft state stop request).event)
        (resolve_draft-returns state request stop h l) in
    (next, k, resolve_draft-IsResolved state next request stop h k)

resolve_draft-version :
    (state : State) (request : ResolveRequest) (stop : RepairStop)
    → (resolve_draft state stop request).event.policy_version ≡ PolicyVersion.workflow_v2
unfolding resolve_draft
resolve_draft-version state request stop = refl

-- The resolution, once its stop is known
resolve-IsResolved_with :
    (state : State) (request : ResolveRequest) (stop : RepairStop) {made : Transition}
    {draft : Draft} {reasons : Option (List Text)}
    → is_some state.acceptance_attempt_ceiling ≡ true
    → active_stop state request ≡ some stop
    → decide_resolve_repair_stop (Observation.present state) request
      ≡ WorkflowDecision.recorded made draft reasons
    → (next : State) × (reduce_with draft.event.policy_version state draft.event ≡ ok next)
      × IsResolved state request next
resolve-IsResolved_with state request stop {draft = draft} l a h =
    let (resolvable, _, e) = resolve_stop-IsResolvable state request stop a h in
    let (next, k, r) = resolve_draft-reduces state request stop resolvable l in
    (
      next,
      subst (λ d. reduce_with d.event.policy_version state d.event ≡ ok next) (sym e)
          (subst (λ v. reduce_with v state (resolve_draft state stop request).event ≡ ok next)
            (sym (resolve_draft-version state request stop)) k),
      r,
    )

no_stop :
    (state : State) (request : ResolveRequest) {made : Transition} {draft : Draft}
    {reasons : Option (List Text)}
    → active_stop state request ≡ none
    → decide_resolve_repair_stop (Observation.present state) request
      ≢ WorkflowDecision.recorded made draft reasons
unfolding decide_resolve_repair_stop resolve_observed resolve_present resolve_stop
no_stop state request a h = ground arith

-- The resolution of a repair stop that is recorded on a run with limits is accepted by the
-- reducer: exactly the stops of the named criterion go, the history of stops stays, the operation
-- is noted, and the run is handed over exactly if a next run is named.
pub decide_resolve-reduces :
    (state : State) (request : ResolveRequest) {made : Transition} {draft : Draft}
    {reasons : Option (List Text)}
    → is_some state.acceptance_attempt_ceiling ≡ true
    → decide_resolve_repair_stop (Observation.present state) request
      ≡ WorkflowDecision.recorded made draft reasons
    → (next : State) × (reduce_with draft.event.policy_version state draft.event ≡ ok next)
      × IsResolved state request next
decide_resolve-reduces state request l h = elim (Option-cases (active_stop state request)) [
  | inl missing ↦ absurd (no_stop state request missing h)
  | inr (stop, a) ↦ resolve-IsResolved_with state request stop l a h
]
