-- ===== src/Gates/Approvals.antt =====
-- What the approval of a specification and the completeness of the criteria amount to.
use kratos_harness.Common.{
  ◌≡◌, sym, ap, Bool-cases, true, false, List, [], ◌∷◌, Option, none, some, Text, text_iff, text_eq,
  text_refl, codes, arith, any, Any, inl, inr,
}
use kratos_harness.Gates.Model.{Approval, Context, CriterionState, GateCriterion}
use kratos_harness.Gates.Evaluate.{is_digest_of, approves, approved, is_incomplete}

-- An approval of this very PRD and specification
pub record IsApproval (context : Context) (a : Approval) : Type 0 where
  pub gate : a.gate ≡ codes "spec"
  pub decision : a.approved ≡ true
  pub prd : context.prd_digest ≡ some a.prd_digest
  pub spec : context.spec_digest ≡ some a.spec_digest

is_digest_of-eq : (o : Option Text) (d : Text) → is_digest_of o d ≡ true → o ≡ some d
is_digest_of-eq none d h = ground arith
is_digest_of-eq (some e) d h = ap some (sym ((text_iff d e).0 h))

is_digest_of-some : (o : Option Text) (d : Text) → o ≡ some d → is_digest_of o d ≡ true
is_digest_of-some o d h = rw h (text_refl d)

approves-IsApproval :
    (c : Context) (a : Approval) → approves c (codes "spec") a ≡ true → IsApproval c a
unfolding approves
approves-IsApproval c a h = record {
  gate = (text_iff a.gate (codes "spec")).0 (ground arith);
  decision = ground arith;
  prd = is_digest_of-eq c.prd_digest a.prd_digest (ground arith);
  spec = is_digest_of-eq c.spec_digest a.spec_digest (ground arith);
}

IsApproval-approves :
    (c : Context) (a : Approval) → IsApproval c a → approves c (codes "spec") a ≡ true
unfolding approves
IsApproval-approves c a h = ground (
  arith,
  text_iff a.gate (codes "spec"),
  h.gate,
  h.decision,
  is_digest_of-some c.prd_digest a.prd_digest h.prd,
  is_digest_of-some c.spec_digest a.spec_digest h.spec,
)

any-Any :
    (c : Context) (xs : List Approval)
    → any (approves c (codes "spec")) xs ≡ true
    → Any (IsApproval c) xs
any-Any c [] h = ground arith
any-Any c (a ∷ xs) h = elim (Bool-cases (approves c (codes "spec") a)) [
  | inl yes_ ↦ inl (approves-IsApproval c a yes_)
  | inr no_ ↦ inr (any-Any c xs (ground arith))
]

Any-any :
    (c : Context) (xs : List Approval)
    → Any (IsApproval c) xs
    → any (approves c (codes "spec")) xs ≡ true
Any-any c [] h = absurd h
Any-any c (a ∷ xs) (inl h) = ground (arith, IsApproval-approves c a h)
Any-any c (a ∷ xs) (inr h) = ground (arith, Any-any c xs h)

pub approved-Any :
    (c : Context) → approved c.approvals (codes "spec") c ≡ true → Any (IsApproval c) c.approvals
unfolding approved
approved-Any c h = any-Any c c.approvals h

pub Any-approved :
    (c : Context) → Any (IsApproval c) c.approvals → approved c.approvals (codes "spec") c ≡ true
unfolding approved
Any-approved c h = Any-any c c.approvals h

-- A criterion that passed, is checked and has valid evidence
pub record IsComplete (x : GateCriterion) : Type 0 where
  pub state : x.state ≡ CriterionState.passed
  pub checked : x.checked ≡ true
  pub evidence : x.evidence_valid ≡ true

pub is_incomplete-IsComplete : (x : GateCriterion) → is_incomplete x ≡ false → IsComplete x
is_incomplete-IsComplete x h = ground arith

pub IsComplete-is_incomplete : (x : GateCriterion) → IsComplete x → is_incomplete x ≡ false
IsComplete-is_incomplete x h = ground arith
