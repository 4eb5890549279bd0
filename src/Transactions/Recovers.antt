-- ===== src/Transactions/Recovers.antt =====
-- That recovery carries a publication to its end, however often it is interrupted.
use kratos_harness.Common.{
  ℕ, zero, suc, ◌+◌, ◌≤◌, ◌≡◌, ◌⊎◌, inl, inr, refl, ◌∙◌, sym, subst, some, length, arith, Text,
  find, ◌==◌, text_eq, nat_eq, ok,
}
use kratos_harness.Transactions.Model.{
  Operation, Manifest, Progress, Observed, Terminal, RecoveryDecision,
}
use kratos_harness.Transactions.Recovery.{decide_recovery}
use kratos_harness.Transactions.Published.{IsAt-le}
use kratos_harness.Transactions.Fencing.{assert_lease_authority}
use kratos_harness.Transactions.Driving.{
  Pass, pass, drive_passes, drive_recovery, Interrupted, publish_operation, driven_authority,
}
use kratos_harness.Transactions.Standing.{IsAt-authority}
use kratos_harness.Transactions.Forward.{IsForward, IsCommitted, committed-decide}
use kratos_harness.Transactions.Steps.{forward-IsPass, killed-IsForward, committed-pass}

-- A publication under way, or committed
unfoldable pub IsOngoing : Manifest → Progress → Observed → Type 0
IsOngoing m p o = ((j : ℕ) × (k : ℕ) × IsForward m p o j k) ⊎ IsCommitted m p o

-- The recovery ends with the commit, within so many passes.
pub IsCarried : ℕ → Manifest → Progress → Observed → Type 0
IsCarried n m p o =
    (q : Progress) × (b : Observed) × (drive_recovery n m p o
      ≡ some (Pass.completed Terminal.committed, q, b))
    × IsCommitted m q b

-- The loop ends with the commit.
IsPassed : ℕ → Manifest → Progress → Observed → Type 0
IsPassed n m p o =
    (q : Progress) × (b : Observed) × (drive_passes n m p o
      ≡ some (Pass.completed Terminal.committed, q, b))
    × IsCommitted m q b

module _ (m : Manifest) where
  drive_continued :
      (n : ℕ) (p : Progress) (o : Observed) {q : Progress} {b : Observed}
      → pass m p o (decide_recovery m p o) ≡ Pass.continued q b
      → drive_passes (suc n) m p o ≡ drive_passes n m q b
  unfolding drive_passes
  drive_continued n p o h = rw (drive_passes, h) refl

  drive_completed :
      (n : ℕ) (p : Progress) (o : Observed) {t : Terminal}
      → pass m p o (decide_recovery m p o) ≡ Pass.completed t
      → drive_passes (suc n) m p o ≡ some (Pass.completed t, p, o)
  unfolding drive_passes
  drive_completed n p o h = rw (drive_passes, h) refl

  carry :
      (n : ℕ) (p : Progress) (o : Observed) {q : Progress} {b : Observed}
      → pass m p o (decide_recovery m p o) ≡ Pass.continued q b
      → IsPassed n m q b
      → IsPassed (suc n) m p o
  unfolding IsPassed
  carry n p o h (r, c, e, k) = (r, c, drive_continued n p o h ∙ e, k)

  committed-IsPassed :
      (n : ℕ) {p : Progress} {o : Observed} → IsCommitted m p o → IsPassed (suc n) m p o
  unfolding IsPassed
  committed-IsPassed n {p} {o} c = (p, o, drive_completed n p o (committed-pass m p o c), c)

  forward-IsPassed :
      (n : ℕ) (p : Progress) (o : Observed) {j k : ℕ}
      → IsForward m p o j k
      → length m.operations ≤ j + n
      → IsPassed (suc (suc n)) m p o
  forward-IsPassed zero p o {j} {k} f le = elim (forward-IsPass m p o f) [
    | inl (q, b, i, h, g) ↦
        let over = IsAt-le b.destinations i m.operations g.destinations in
        let order = g.order in absurd (omega (arith, over, order, le))
    | inr (e, h, c) ↦ carry 1 p o h (committed-IsPassed 0 c)
  ]
  forward-IsPassed (suc n) p o {j} {k} f le = elim (forward-IsPass m p o f) [
    | inl (q, b, i, h, g) ↦ carry (suc (suc n)) p o h (forward-IsPassed n q b g (omega (arith, le)))
    | inr (e, h, c) ↦ carry (suc (suc n)) p o h (committed-IsPassed (suc n) c)
  ]

  continued-injective :
      {p q : Progress} {a b : Observed}
      → Pass.continued p a ≡ Pass.continued q b
      → (p ≡ q) × (a ≡ b)
  continued-injective h = (cc, cc)

  IsOngoing-pass :
      (p : Progress) (o : Observed) {q : Progress} {b : Observed}
      → IsOngoing m p o
      → pass m p o (decide_recovery m p o) ≡ Pass.continued q b
      → IsOngoing m q b
  unfolding IsOngoing
  IsOngoing-pass p o {q} {b} (inl (j, k, f)) h = elim (forward-IsPass m p o f) [
    | inl (r, c, i, e, g) ↦
        let (x, y) = continued-injective (sym e ∙ h) in
        inl (
          suc j,
          i,
          subst (λ s. IsForward m q s (suc j) i) y (subst (λ s. IsForward m s c (suc j) i) x g),
        )
    | inr (l, e, g) ↦
        let (x, y) = continued-injective (sym e ∙ h) in
        inr (subst (λ s. IsCommitted m q s) y (subst (λ s. IsCommitted m s o) x g))
  ]
  IsOngoing-pass p o {q} {b} (inr c) h = let e = committed-pass m p o c in ground arith

  killed-IsOngoing :
      (q : Progress) (b : Observed) {c : Observed} {id : Text} {x : Operation}
      → IsOngoing m q b
      → decide_recovery m q b ≡ RecoveryDecision.publish id
      → find (λ o. o.operation_id == id) m.operations ≡ some x
      → publish_operation m.operations x b ≡ ok c
      → IsOngoing m q c
  unfolding IsOngoing
  killed-IsOngoing q b (inl (j, k, f)) h found left =
      inl (j, suc k, killed-IsForward m q b f h found left)
  killed-IsOngoing q b (inr d) h found left = let e = committed-decide m q b d in ground arith

  pub interrupted-IsOngoing :
      {p q : Progress} {o b : Observed} → IsOngoing m p o → Interrupted m p o q b → IsOngoing m q b
  interrupted-IsOngoing g Interrupted.here = g
  interrupted-IsOngoing g (Interrupted.passed i h) =
      IsOngoing-pass _ _ (interrupted-IsOngoing g i) h
  interrupted-IsOngoing g (Interrupted.killed i h found left) =
      killed-IsOngoing _ _ (interrupted-IsOngoing g i) h found left

  -- The lease that guards a publication under way, or committed, stands.
  forward_authority :
      (p : Progress) (o : Observed) {j k : ℕ}
      → IsForward m p o j k
      → assert_lease_authority (driven_authority m p) o.destinations ≡ ok tt
  forward_authority p o {j} {k} f =
      let e = f.phase in
      let a = IsAt-authority o.destinations k m.operations f.destinations in ground arith

  committed_authority :
      (p : Progress) (o : Observed)
      → IsCommitted m p o
      → assert_lease_authority (driven_authority m p) o.destinations ≡ ok tt
  committed_authority p o c =
      let e = c.phase in
      let a = IsAt-authority o.destinations (length m.operations) m.operations c.destinations in
      ground arith

  authorised :
      (n : ℕ) (p : Progress) (o : Observed)
      → assert_lease_authority (driven_authority m p) o.destinations ≡ ok tt
      → drive_recovery n m p o ≡ drive_passes n m p o
  unfolding drive_recovery
  authorised n p o a = ground arith

  begins :
      (n : ℕ) (p : Progress) (o : Observed)
      → assert_lease_authority (driven_authority m p) o.destinations ≡ ok tt
      → IsPassed n m p o
      → IsCarried n m p o
  unfolding IsPassed IsCarried
  begins n p o a (q, b, e, c) = (q, b, authorised n p o a ∙ e, c)

  pub ongoing-IsCarried :
      (p : Progress) (o : Observed)
      → IsOngoing m p o
      → IsCarried (suc (suc (length m.operations))) m p o
  unfolding IsOngoing
  ongoing-IsCarried p o (inl (j, k, f)) =
      begins (suc (suc (length m.operations))) p o (forward_authority p o f)
        (forward-IsPassed (length m.operations) p o f (omega arith))
  ongoing-IsCarried p o (inr c) =
      begins (suc (suc (length m.operations))) p o (committed_authority p o c)
        (committed-IsPassed (suc (length m.operations)) c)

-- A publication is carried to its end. Start from a publication of which some operations are on
-- disk and some of those are recorded, with the documents of one transaction, every payload of the
-- others in place, results that fit the kinds of their operations, and for each operation a parent
-- that is a directory which no operation touches or an earlier one makes; or from one that is
-- committed. Interrupt its recovery as often as you like, between passes or between a publication
-- and its record, with no other writer. The recovery that follows meets no failure and ends with
-- the commit, after at most two passes more than there are operations; every destination has its
-- result, all is recorded, and no payload is left.
pub interrupted-IsCarried :
    {m : Manifest} {p q : Progress} {o b : Observed}
    → IsOngoing m p o
    → Interrupted m p o q b
    → IsCarried (suc (suc (length m.operations))) m q b
interrupted-IsCarried {m} {p} {q} {o} {b} g i =
    ongoing-IsCarried m q b (interrupted-IsOngoing m g i)
