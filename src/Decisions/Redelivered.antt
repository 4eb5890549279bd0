-- ===== src/Decisions/Redelivered.antt =====
-- A request that is delivered again after its event was recorded changes nothing.
use kratos_harness.Common.{
  ◌≡◌, refl, sym, ◌∙◌, subst, ok-injective, true, List, [], ◌∷◌, ◌++◌, Option, Text, arith, is_some,
  includes, text_refl, nat_eq, text_eq, text_iff, ok,
}
use kratos_harness.Workflow.Model.{State}
use kratos_harness.Workflow.Reducer.{reduce_with}
use kratos_harness.Decisions.Model.{
  Observation, ContinueRequest, Transition, Draft, Unchanged, WorkflowDecision,
}
use kratos_harness.Decisions.Continue.{
  continue_present, continue_observed, continue_operation, decide_continue_workflow,
}
use kratos_harness.Decisions.Applied.{after}
use kratos_harness.Decisions.Continued.{Applies, IsAdmitted, decide_continue-Applies}

includes-last : (xs : List Text) (x : Text) → includes (xs ++ x ∷ []) x ≡ true
includes-last [] x = rw (text_refl x) refl
includes-last (y ∷ xs) x = ground (arith, includes-last xs x)

after-includes :
    (made : Transition) (operation : Text) (state : State) (draft : Draft)
    → Applies made operation state draft
    → includes (after made state draft.event).operations operation ≡ true
unfolding after
after-includes made operation state draft a =
    rw a.recorded_operation (includes-last state.operations operation)

duplicate-continue :
    (state next : State) (request : ContinueRequest)
    → IsAdmitted state request
    → next.feature ≡ state.feature
    → next.run_id ≡ state.run_id
    → includes next.operations (continue_operation request) ≡ true
    → decide_continue_workflow (Observation.present next) request
      ≡ ok (WorkflowDecision.unchanged Unchanged.duplicate)
unfolding decide_continue_workflow continue_observed continue_present
duplicate-continue state next request a f r i = ground (
  arith,
  a.valid,
  a.feature,
  a.run,
  text_iff next.feature request.feature,
  text_iff next.run_id request.run_id,
)

-- The reducer leads nowhere else.
next-after :
    (made : Transition) (operation : Text) (state next : State) (draft : Draft)
    → Applies made operation state draft
    → reduce_with draft.event.policy_version state draft.event ≡ ok next
    → after made state draft.event ≡ next
next-after made operation state next draft a k =
    ok-injective
      (sym a.reduced ∙ subst (λ v. reduce_with v state draft.event ≡ ok next) a.version k)

continue_after :
    (state : State) (request : ContinueRequest) (made : Transition) (draft : Draft)
    → IsAdmitted state request
    → Applies made (continue_operation request) state draft
    → decide_continue_workflow (Observation.present (after made state draft.event)) request
      ≡ ok (WorkflowDecision.unchanged Unchanged.duplicate)
unfolding after
continue_after state request made draft admitted applies =
    duplicate-continue state (after made state draft.event) request admitted refl refl
      (after-includes made (continue_operation request) state draft applies)

-- A continuation is idempotent: when it was recorded for a run in a phase and its event reduced,
-- the same request on the run after it is answered as a duplicate and records nothing.
pub continue_redelivered :
    (state next : State) (request : ContinueRequest) {made : Transition} {draft : Draft}
    {reasons : Option (List Text)}
    → is_some state.current_step ≡ true
    → decide_continue_workflow (Observation.present state) request
      ≡ ok (WorkflowDecision.recorded made draft reasons)
    → reduce_with draft.event.policy_version state draft.event ≡ ok next
    → decide_continue_workflow (Observation.present next) request
      ≡ ok (WorkflowDecision.unchanged Unchanged.duplicate)
continue_redelivered state next request {made} {draft} {reasons} step h k =
    let (admitted, applies) = decide_continue-Applies state request step h in
    subst
      (λ t.
        decide_continue_workflow (Observation.present t) request
        ≡ ok (WorkflowDecision.unchanged Unchanged.duplicate))
      (next-after made (continue_operation request) state next draft applies k)
      (continue_after state request made draft admitted applies)
