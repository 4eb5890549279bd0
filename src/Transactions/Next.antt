-- ===== src/Transactions/Next.antt =====
-- What `decidePublishing` answers when destinations and payloads fit.
use kratos_harness.Common.{
  ℕ, zero, suc, ◌-◌, ◌≤◌, ◌<◌, ◌≡◌, refl, List, [], ◌∷◌, none, some, length, get_elem?, arith, sym,
  subst,
}
use kratos_harness.Transactions.Model.{Operation, RecoveryDecision}
use kratos_harness.Transactions.Recovery.{next_publishing}

-- The next step, when `recorded` operations are recorded and `observed` are found published
pub data Next (os : List Operation) (recorded observed : ℕ) : RecoveryDecision → Type 0 where
  record_next :
      (o : Operation)
      → recorded < observed
      → get_elem? os recorded ≡ some o
      → Next os recorded observed (RecoveryDecision.record_published o.operation_id)
  publish_next :
      (o : Operation)
      → recorded ≡ observed
      → get_elem? os observed ≡ some o
      → Next os recorded observed (RecoveryDecision.publish o.operation_id)
  commit_next :
      recorded ≡ observed → observed ≡ length os → Next os recorded observed RecoveryDecision.commit

later :
    {o : Operation} {os : List Operation} {j k : ℕ} {d : RecoveryDecision}
    → Next os j k d
    → Next (o ∷ os) (suc j) (suc k) d
later (Next.record_next o lt e) = Next.record_next o (omega (arith, lt)) e
later (Next.publish_next o eq e) = Next.publish_next o (omega (arith, eq)) e
later (Next.commit_next eq e) = Next.commit_next (omega (arith, eq)) (omega (arith, e))

at_observed :
    (os : List Operation) (k : ℕ)
    → k ≤ length os
    → Next os k k (elim (get_elem? os k) [
      | none ↦ RecoveryDecision.commit
      | some next ↦ RecoveryDecision.publish next.operation_id
    ])
at_observed [] zero le = Next.commit_next refl refl
at_observed [] (suc k) le = absurd (omega (arith, le))
at_observed (o ∷ os) zero le = Next.publish_next o refl refl
at_observed (o ∷ os) (suc k) le = later (at_observed os k (omega (arith, le)))

minus_zero : (k : ℕ) → suc k - 0 ≡ suc k
minus_zero k = omega arith

minus_both : (j k : ℕ) → suc k - suc j ≡ k - j
minus_both j k = omega arith

from_first :
    (o : Operation) (os : List Operation) (k : ℕ)
    → next_publishing (o ∷ os) 0 (suc k) ≡ RecoveryDecision.record_published o.operation_id
unfolding next_publishing
from_first o os k = let e = minus_zero k in rw (next_publishing, e) refl

from_later :
    (o : Operation) (os : List Operation) (j k : ℕ)
    → next_publishing (o ∷ os) (suc j) (suc k) ≡ next_publishing os j k
unfolding next_publishing
from_later o os j k = let e = minus_both j k in rw (next_publishing, e) refl

pub next_publishing-Next :
    (os : List Operation) (j k : ℕ) → j ≤ k → k ≤ length os → Next os j k (next_publishing os j k)
unfolding next_publishing
next_publishing-Next os zero zero le le' = at_observed os zero le'
next_publishing-Next [] zero (suc k) le le' = absurd (omega (arith, le'))
next_publishing-Next (o ∷ os) zero (suc k) le le' =
    subst (λ d. Next (o ∷ os) 0 (suc k) d) (sym (from_first o os k))
      (Next.record_next o (omega arith) refl)
next_publishing-Next os (suc j) zero le le' = absurd (omega (arith, le))
next_publishing-Next [] (suc j) (suc k) le le' = absurd (omega (arith, le'))
next_publishing-Next (o ∷ os) (suc j) (suc k) le le' =
    subst (λ d. Next (o ∷ os) (suc j) (suc k) d) (sym (from_later o os j k))
      (later (next_publishing-Next os j k (omega (arith, le)) (omega (arith, le'))))
