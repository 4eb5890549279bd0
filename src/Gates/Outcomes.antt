-- ===== src/Gates/Outcomes.antt =====
-- What the outcome of an aggregation says of the failures.
use kratos_harness.Common.{
  ℕ, ◌≤◌, ◌≡◌, refl, ◌∙◌, Bool, true, false, List, [], ◌∷◌, arith, any, All, if◌then◌else◌, ltb,
}
use kratos_harness.Gates.Model.{GateMode, GateId, Outcome, Failure}
use kratos_harness.Gates.Policy.{
  outcome_for_mode, severity, failure_severity, sort, aggregate_sorted, aggregate_gate_failures,
}
use kratos_harness.Gates.Sorting.{IsGraded, count, count-sort, sort-IsGraded}

unfoldable pub is_enforced : Failure → Bool
is_enforced f = elim f.mode [ GateMode.enforce ↦ true | _ ↦ false ]

unfoldable pub is_warned : Failure → Bool
is_warned f = elim f.mode [ GateMode.warn ↦ true | _ ↦ false ]

-- The gravest of the outcomes of the failures
unfoldable pub worst : List Failure → Outcome
worst fs =
    if any is_enforced fs
    then Outcome.block
    else if any is_warned fs
    then Outcome.warn
    else Outcome.pass

any-count : (p : Failure → Bool) (fs : List Failure) → any p fs ≡ ltb 0 (count p fs)
unfolding count
any-count p [] = refl
any-count p (f ∷ fs) = ground (arith, any-count p fs)

worst-sort :
    (locale_before : GateId → GateId → Bool) (fs : List Failure)
    → worst (sort locale_before fs) ≡ worst fs
unfolding worst
worst-sort locale_before fs = rw (any-count is_enforced (sort locale_before fs)) (
    rw (any-count is_warned (sort locale_before fs)) (
      rw (any-count is_enforced fs) (
        rw (any-count is_warned fs) (
          rw (count-sort locale_before is_enforced fs)
            (rw (count-sort locale_before is_warned fs) refl)))))

none_enforced :
    (n : ℕ) (fs : List Failure)
    → 1 ≤ n
    → All (λ g. n ≤ failure_severity g) fs
    → any is_enforced fs ≡ false
unfolding is_enforced failure_severity severity outcome_for_mode
none_enforced n [] l h = refl
none_enforced n (f ∷ fs) l (k, ks) = ground (arith, none_enforced n fs l ks)

none_warned :
    (n : ℕ) (fs : List Failure)
    → 2 ≤ n
    → All (λ g. n ≤ failure_severity g) fs
    → any is_warned fs ≡ false
unfolding is_warned failure_severity severity outcome_for_mode
none_warned n [] l h = refl
none_warned n (f ∷ fs) l (k, ks) = ground (arith, none_warned n fs l ks)

empty_worst : Outcome.pass ≡ worst []
unfolding worst
empty_worst = refl

-- The first of the failures is the gravest.
first-worst :
    (mode : GateMode) (f : Failure) (fs : List Failure)
    → f.mode ≡ mode
    → All (λ g. failure_severity f ≤ failure_severity g) fs
    → outcome_for_mode mode ≡ worst (f ∷ fs)
unfolding worst is_enforced is_warned failure_severity severity outcome_for_mode
first-worst GateMode.enforce f fs e h = ground arith
first-worst GateMode.warn f fs e h =
    ground (arith, none_enforced (failure_severity f) fs (ground arith) h)
first-worst GateMode.shadow f fs e h = ground (
  arith,
  none_enforced (failure_severity f) fs (ground arith) h,
  none_warned (failure_severity f) fs (ground arith) h,
)

aggregate_sorted-worst :
    (fs : List Failure) → IsGraded fs → (aggregate_sorted fs).outcome ≡ worst fs
unfolding aggregate_sorted IsGraded
aggregate_sorted-worst [] h = empty_worst
aggregate_sorted-worst (f ∷ fs) (h, _) = first-worst f.mode f fs refl h

-- The outcome of an aggregation, which is read off the first failure after sorting, is the gravest
-- among the failures, however they are ordered and however identifiers compare: a block if one of
-- them is enforced, else a warning if one of them warns, else a pass.
pub aggregate_gate_failures-worst :
    (locale_before : GateId → GateId → Bool) (fs : List Failure)
    → (aggregate_gate_failures locale_before fs).outcome ≡ worst fs
unfolding aggregate_gate_failures
aggregate_gate_failures-worst locale_before fs =
    aggregate_sorted-worst (sort locale_before fs) (sort-IsGraded locale_before fs)
    ∙ worst-sort locale_before fs
