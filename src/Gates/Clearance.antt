-- ===== src/Gates/Clearance.antt =====
-- The tests behind an evaluation without failures.
use kratos_harness.Common.{
  ◌≡◌, ◌≢◌, refl, ◌∙◌, Bool, Bool-cases, true, false, not, ◌&&◌, List, [], ◌∷◌, ◌++◌, Option, none,
  some, Text, codes, arith, find, map, All, inl, inr, ltb, All-append,
}
use kratos_harness.Gates.Model.{
  GateMode, GateId, Outcome, Failure, FailureReason, PrdDocument, Rejection, GateCriterion, Context,
}
use kratos_harness.Gates.Evaluate.{
  failure, approved, when, rejection_failure, prd_failures, needs_spec, is_acceptance,
  is_incomplete, criteria_failures, gate_failures, evaluate_gates,
}
use kratos_harness.Gates.Outcomes.{is_enforced, worst, aggregate_gate_failures-worst}

-- The tests of the evaluation, none of which fails
pub record IsClear (context : Context) : Type 0 where
  pub readable : context.context_readable ≡ true
  pub rejections : context.repeated_rejections ≡ []
  pub exhausted : context.exhausted ≡ false
  pub tripped : context.tripped ≡ false
  pub prd : context.prd_document ≡ PrdDocument.complete
  pub spec :
      needs_spec context.phase ≡ true → approved context.approvals (codes "spec") context ≡ true
  pub gaps : context.open_gaps ≡ 0
  pub partition : context.partition_required ≡ true → context.partition_approved ≡ true
  pub criteria :
      is_acceptance context.phase ≡ true
      → All (λ c. is_incomplete c ≡ false) context.acceptance_criteria
  pub final : is_acceptance context.phase ≡ true → context.final_acceptance ≡ true

append-empty : (xs ys : List Failure) → xs ++ ys ≡ [] → (xs ≡ []) × (ys ≡ [])
append-empty [] ys h = (refl, h)
append-empty (x ∷ xs) ys h = ground arith

when-empty : (test : Bool) (f : Failure) → when test f ≡ [] → test ≡ false
unfolding when
when-empty test f h = ground arith

map-empty : (f : Rejection → Failure) (xs : List Rejection) → map f xs ≡ [] → xs ≡ []
map-empty f [] h = refl
map-empty f (x ∷ xs) h = ground arith

prd-empty : (c : Context) (d : PrdDocument) → prd_failures c d ≡ [] → d ≡ PrdDocument.complete
unfolding prd_failures
prd-empty c PrdDocument.complete h = refl
prd-empty c PrdDocument.missing h = ground arith
prd-empty c PrdDocument.untouched h = ground arith
prd-empty c (PrdDocument.incomplete s) h = ground arith

find-none :
    (p : GateCriterion → Bool) (cs : List GateCriterion)
    → find p cs ≡ none
    → All (λ c. p c ≡ false) cs
find-none p [] h = tt
find-none p (c ∷ cs) h = elim (Bool-cases (p c)) [
  | inl yes_ ↦ ground arith
  | inr no_ ↦ (no_, find-none p cs (ground arith))
]

criteria-empty :
    (c : Context) (o : Option GateCriterion)
    → criteria_failures c o ≡ []
    → is_acceptance c.phase ≡ true
    → o ≡ none
unfolding criteria_failures when
criteria-empty c none h a = refl
criteria-empty c (some x) h a = ground arith

gate_failures-IsClear : (c : Context) → gate_failures c ≡ [] → IsClear c
unfolding gate_failures
gate_failures-IsClear c h =
    let (readable, h) = append-empty _ _ h in
    let (rejections, h) = append-empty _ _ h in
    let (exhausted, h) = append-empty _ _ h in
    let (tripped, h) = append-empty _ _ h in
    let (prd, h) = append-empty _ _ h in
    let (spec, h) = append-empty _ _ h in
    let (gaps, h) = append-empty _ _ h in
    let (partition, h) = append-empty _ _ h in
    let (criteria, final) = append-empty _ _ h in
    record {
      readable = (let test = when-empty (not c.context_readable) _ readable in ground arith);
      rejections = map-empty (rejection_failure c) c.repeated_rejections rejections;
      exhausted = (let test = when-empty c.exhausted _ exhausted in ground arith);
      tripped = (let test = when-empty c.tripped _ tripped in ground arith);
      prd = prd-empty c c.prd_document prd;
      spec = λ n.
          (let test =
              when-empty (needs_spec c.phase && not (approved c.approvals (codes "spec") c)) _
                spec in
            ground arith);
      gaps = (let test = when-empty (ltb 0 c.open_gaps) _ gaps in ground arith);
      partition = λ n.
          (let test = when-empty (c.partition_required && not c.partition_approved) _ partition in
            ground arith);
      criteria = λ a. find-none is_incomplete c.acceptance_criteria (criteria-empty c _ criteria a);
      final = λ a.
          (let test = when-empty (is_acceptance c.phase && not c.final_acceptance) _ final in
            ground arith);
    }

find-All :
    (p : GateCriterion → Bool) (cs : List GateCriterion)
    → All (λ c. p c ≡ false) cs
    → find p cs ≡ none
find-All p [] h = refl
find-All p (c ∷ cs) (h, hs) = rw h (find-All p cs hs)

criteria-before :
    (c : Context) (o : Option GateCriterion)
    → is_acceptance c.phase ≡ false
    → criteria_failures c o ≡ []
unfolding criteria_failures when
criteria-before c none h = refl
criteria-before c (some x) h = rw h refl

criteria-clear :
    (c : Context)
    → (is_acceptance c.phase ≡ true → All (λ x. is_incomplete x ≡ false) c.acceptance_criteria)
    → criteria_failures c (find is_incomplete c.acceptance_criteria) ≡ []
unfolding criteria_failures when
criteria-clear c h = elim (Bool-cases (is_acceptance c.phase)) [
  | inl yes_ ↦ rw (find-All is_incomplete c.acceptance_criteria (h yes_)) refl
  | inr no_ ↦ criteria-before c (find is_incomplete c.acceptance_criteria) no_
]

IsClear-gate_failures : (c : Context) → IsClear c → gate_failures c ≡ []
unfolding gate_failures when prd_failures needs_spec approved failure criteria_failures
IsClear-gate_failures c h = rw h.readable (
    rw h.rejections (
      rw h.exhausted (
        rw h.tripped (
          rw h.prd (
            rw h.gaps
              (rw (criteria-clear c h.criteria) (ground (arith, h.spec, h.partition, h.final))))))))

module _ (c : Context) (P : Failure → Type 0)
    (every : (id : GateId) (r : FailureReason) (e : List Text) (d : Option Text)
      → P (failure c id r e d)) where
  when-All :
      (test : Bool) (id : GateId) (r : FailureReason) (e : List Text) (d : Option Text)
      → All P (when test (failure c id r e d))
  unfolding when
  when-All true id r e d = (every id r e d, tt)
  when-All false id r e d = tt

  rejections-All : (rs : List Rejection) → All P (map (rejection_failure c) rs)
  unfolding rejection_failure
  rejections-All [] = tt
  rejections-All (r ∷ rs) = (every _ _ _ _, rejections-All rs)

  prd-All : (d : PrdDocument) → All P (prd_failures c d)
  unfolding prd_failures
  prd-All PrdDocument.complete = tt
  prd-All PrdDocument.missing = (every _ _ _ _, tt)
  prd-All PrdDocument.untouched = (every _ _ _ _, tt)
  prd-All (PrdDocument.incomplete s) = (every _ _ _ _, tt)

  criteria-All : (o : Option GateCriterion) → All P (criteria_failures c o)
  unfolding criteria_failures
  criteria-All none = tt
  criteria-All (some x) = when-All (is_acceptance c.phase) _ _ _ _

  -- What holds of every failure of the context holds of those that are collected.
  gate_failures-All : All P (gate_failures c)
  unfolding gate_failures
  gate_failures-All = All-append P _ _ (when-All _ _ _ _ _) (
      All-append P _ _ (rejections-All c.repeated_rejections) (
        All-append P _ _ (when-All _ _ _ _ _) (
          All-append P _ _ (when-All _ _ _ _ _) (
            All-append P _ _ (prd-All c.prd_document) (
              All-append P _ _ (when-All _ _ _ _ _) (
                All-append P _ _ (when-All _ _ _ _ _) (
                  All-append P _ _ (when-All _ _ _ _ _)
                    (All-append P _ _ (criteria-All _) (when-All _ _ _ _ _)))))))))

unblocked-empty :
    (fs : List Failure) → All (λ f. is_enforced f ≡ true) fs → worst fs ≢ Outcome.block → fs ≡ []
unfolding worst
unblocked-empty [] h k = refl
unblocked-empty (f ∷ fs) (h, hs) k = ground arith

failure-enforced :
    (c : Context)
    → ((id : GateId) → c.gate_modes id ≡ GateMode.enforce)
    → (id : GateId) (r : FailureReason) (e : List Text) (d : Option Text)
    → is_enforced (failure c id r e d) ≡ true
unfolding is_enforced failure
failure-enforced c h id r e d = rw (h id) refl

pub enforced-IsClear :
    (locale_before : GateId → GateId → Bool) (c : Context)
    → ((id : GateId) → c.gate_modes id ≡ GateMode.enforce)
    → (evaluate_gates locale_before c).outcome ≢ Outcome.block
    → IsClear c
unfolding evaluate_gates
enforced-IsClear locale_before c h k = gate_failures-IsClear c (
    unblocked-empty (gate_failures c)
      (gate_failures-All c (λ f. is_enforced f ≡ true) (failure-enforced c h))
      (λ e. k (aggregate_gate_failures-worst locale_before (gate_failures c) ∙ e)))

pub IsClear-pass :
    (locale_before : GateId → GateId → Bool) (c : Context)
    → IsClear c
    → (evaluate_gates locale_before c).outcome ≡ Outcome.pass
unfolding evaluate_gates worst
IsClear-pass locale_before c h =
    aggregate_gate_failures-worst locale_before (gate_failures c)
    ∙ rw (IsClear-gate_failures c h) refl
