-- ===== src/Transactions/Legal.antt =====
-- `assertPhaseTransition` of packages/runtime/src/domain/transactions/transition.ts, and that the
-- recovery loop never makes it throw.
use kratos_harness.Common.{
  ◌≡◌, inl, inr, Bool, true, false, Result, ok, Thrown, error, codes, require, ap,
}
use kratos_harness.Transactions.Model.{
  Manifest, TransactionPhase, Progress, Observed, RecoveryDecision,
}
use kratos_harness.Transactions.Recovery.{decide_recovery}
use kratos_harness.Transactions.Warranted.{IsGrounded, decide_recovery-IsGrounded}

-- `legalTransitions`
abbrev pub is_legal_transition : TransactionPhase → TransactionPhase → Bool
is_legal_transition TransactionPhase.begun TransactionPhase.prepared = true
is_legal_transition TransactionPhase.begun TransactionPhase.aborted = true
is_legal_transition TransactionPhase.prepared TransactionPhase.publishing = true
is_legal_transition TransactionPhase.prepared TransactionPhase.aborted = true
is_legal_transition TransactionPhase.publishing TransactionPhase.committed = true
is_legal_transition _ _ = false

-- `assertPhaseTransition`
abbrev pub assert_phase_transition : TransactionPhase → TransactionPhase → Result Thrown (Unit {0})
assert_phase_transition from to =
    require (is_legal_transition from to) (error (codes "Illegal transaction phase transition"))

-- The transition that a decision asks for in the loop is asserted, and returns.
pub IsAsserted : Progress → RecoveryDecision → Type 0
IsAsserted p RecoveryDecision.abort =
    assert_phase_transition p.phase TransactionPhase.aborted ≡ ok tt
IsAsserted p RecoveryDecision.commit =
    assert_phase_transition p.phase TransactionPhase.committed ≡ ok tt
IsAsserted p _ = Unit

asserted :
    (m : Manifest) (p : Progress) (o : Observed) (d : RecoveryDecision)
    → IsGrounded m p o d
    → IsAsserted p d
unfolding IsAsserted IsGrounded
asserted m p o RecoveryDecision.abort (inl e, _) =
    ap (λ phase. assert_phase_transition phase TransactionPhase.aborted) e
asserted m p o RecoveryDecision.abort (inr e, _) =
    ap (λ phase. assert_phase_transition phase TransactionPhase.aborted) e
asserted m p o RecoveryDecision.commit h =
    ap (λ phase. assert_phase_transition phase TransactionPhase.committed) h.phase
asserted m p o (RecoveryDecision.record_published id) h = tt
asserted m p o (RecoveryDecision.publish id) h = tt
asserted m p o (RecoveryDecision.cleanup t) h = tt
asserted m p o (RecoveryDecision.complete t) h = tt
asserted m p o (RecoveryDecision.blocked id) h = tt

-- The recovery loop never throws for an illegal transition: whenever the decision is to abort or
-- to commit, the change of the phase that it asserts is among the legal ones.
pub decide_recovery-IsAsserted :
    (m : Manifest) (p : Progress) (o : Observed) → IsAsserted p (decide_recovery m p o)
decide_recovery-IsAsserted m p o =
    asserted m p o (decide_recovery m p o) (decide_recovery-IsGrounded m p o)
