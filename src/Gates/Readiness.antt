-- ===== src/Gates/Readiness.antt =====
-- When a run passes its gates.
use kratos_harness.Common.{◌≡◌, ◌≢◌, Bool, true, false, [], arith, All, All-mono, Any}
use kratos_harness.Workflow.Model.{Phase}
use kratos_harness.Gates.Model.{GateMode, GateId, Outcome, PrdDocument, Context}
use kratos_harness.Gates.Evaluate.{needs_spec, is_acceptance, evaluate_gates}
use kratos_harness.Gates.Approvals.{
  IsApproval, IsComplete, approved-Any, Any-approved, is_incomplete-IsComplete,
  IsComplete-is_incomplete,
}
use kratos_harness.Gates.Clearance.{IsClear, enforced-IsClear, IsClear-pass}

-- All that the gates ask for
pub record IsReady (context : Context) : Type 0 where
  pub readable : context.context_readable ≡ true
  pub rejections : context.repeated_rejections ≡ []
  pub exhausted : context.exhausted ≡ false
  pub tripped : context.tripped ≡ false
  pub prd : context.prd_document ≡ PrdDocument.complete
  pub spec :
      context.phase ≢ Phase.prd
      → context.phase ≢ Phase.spec
      → Any (IsApproval context) context.approvals
  pub gaps : context.open_gaps ≡ 0
  pub partition : context.partition_required ≡ true → context.partition_approved ≡ true
  pub criteria : context.phase ≡ Phase.acceptance → All IsComplete context.acceptance_criteria
  pub final : context.phase ≡ Phase.acceptance → context.final_acceptance ≡ true

needs_spec-later : (p : Phase) → p ≢ Phase.prd → p ≢ Phase.spec → needs_spec p ≡ true
unfolding needs_spec
needs_spec-later p h k = ground arith

needs_spec-not_prd : (p : Phase) → needs_spec p ≡ true → p ≢ Phase.prd
unfolding needs_spec
needs_spec-not_prd p h k = ground arith

needs_spec-not_spec : (p : Phase) → needs_spec p ≡ true → p ≢ Phase.spec
unfolding needs_spec
needs_spec-not_spec p h k = ground arith

is_acceptance-eq : (p : Phase) → is_acceptance p ≡ true → p ≡ Phase.acceptance
unfolding is_acceptance
is_acceptance-eq p h = ground arith

at-is_acceptance : (p : Phase) → p ≡ Phase.acceptance → is_acceptance p ≡ true
unfolding is_acceptance
at-is_acceptance p h = ground arith

IsClear-IsReady : (c : Context) → IsClear c → IsReady c
IsClear-IsReady c h = record {
  readable = h.readable;
  rejections = h.rejections;
  exhausted = h.exhausted;
  tripped = h.tripped;
  prd = h.prd;
  spec = λ p s. approved-Any c (h.spec (needs_spec-later c.phase p s));
  gaps = h.gaps;
  partition = h.partition;
  criteria = λ a.
      All-mono _ _ is_incomplete-IsComplete c.acceptance_criteria
        (h.criteria (at-is_acceptance c.phase a));
  final = λ a. h.final (at-is_acceptance c.phase a);
}

IsReady-IsClear : (c : Context) → IsReady c → IsClear c
IsReady-IsClear c h = record {
  readable = h.readable;
  rejections = h.rejections;
  exhausted = h.exhausted;
  tripped = h.tripped;
  prd = h.prd;
  spec =
      λ n. Any-approved c (h.spec (needs_spec-not_prd c.phase n) (needs_spec-not_spec c.phase n));
  gaps = h.gaps;
  partition = h.partition;
  criteria = λ a.
      All-mono _ _ IsComplete-is_incomplete c.acceptance_criteria
        (h.criteria (is_acceptance-eq c.phase a));
  final = λ a. h.final (is_acceptance-eq c.phase a);
}

-- When every gate is enforced and the evaluation does not block, the run has all that the gates
-- ask for: a readable context, no stop of any kind, a complete PRD, no open gap, a partition that
-- is approved if one is required, from the plan on an approval of this very PRD and specification,
-- and at acceptance only criteria that passed, are checked and have valid evidence, and the final
-- acceptance.
pub enforced_gates_hold :
    (locale_before : GateId → GateId → Bool) (c : Context)
    → ((id : GateId) → c.gate_modes id ≡ GateMode.enforce)
    → (evaluate_gates locale_before c).outcome ≢ Outcome.block
    → IsReady c
enforced_gates_hold locale_before c h k = IsClear-IsReady c (enforced-IsClear locale_before c h k)

-- A run that has all that the gates ask for passes, in whatever mode each gate is.
pub ready_gates_pass :
    (locale_before : GateId → GateId → Bool) (c : Context)
    → IsReady c
    → (evaluate_gates locale_before c).outcome ≡ Outcome.pass
ready_gates_pass locale_before c h = IsClear-pass locale_before c (IsReady-IsClear c h)
