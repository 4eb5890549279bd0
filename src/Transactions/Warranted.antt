-- ===== src/Transactions/Warranted.antt =====
-- That each decision of a recovery is warranted by what is on disk.
use kratos_harness.Common.{
  drop, ℕ, zero, suc, ◌≤◌, ◌≡◌, refl, Bool, Bool-cases, ◌≢◌, not, sym, subst, true, false, List, [],
  ◌∷◌, Option, none, some, Option-cases, Text, Result, ok, err, ◌⊎◌, inl, inr, length, arith,
}
use kratos_harness.Transactions.Model.{
  Fingerprint, Operation, Manifest, TransactionPhase, Progress, Observed, Terminal,
  RecoveryDecision, is_missing,
}
use kratos_harness.Transactions.Checks.{
  stops_payload, payload_at, inspect_payloads, unexpected_destination, non_result_destination,
  publishing_payload_failure, unpublishable_payload, has_valid_identity, manifest_failure,
}
use kratos_harness.Transactions.Recovery.{
  observed_results, decide_observed, decide_publishing, decide_cleanup, decide_begun, decide_phase,
  decide_recovery, is_coherent,
}
use kratos_harness.Transactions.Published.{
  IsAt, IsStaged, IsStagedAt, observed_results-IsAt, IsAt-le, unexpected_destination-IsAt,
  non_result_destination-IsAt, publishing_payload_failure-IsStagedAt,
}
use kratos_harness.Transactions.Checked.{IsChecked, is_blocked, unblocked-IsChecked}
use kratos_harness.Transactions.Next.{Next, next_publishing-Next}

-- A publication that stands at some operation, with what it must find there
pub record IsPublishing (manifest : Manifest) (progress : Progress) (observation : Observed)
    (decision : RecoveryDecision) : Type 0 where
  pub phase : progress.phase ≡ TransactionPhase.publishing
  pub observed : ℕ
  pub destinations : IsAt observation.destinations observed manifest.operations
  pub payloads : IsStagedAt observation.staged_payloads observed manifest.operations
  pub next : Next manifest.operations (length progress.published_operation_ids) observed decision

-- The results of a terminal phase stand, and its phase is recorded.
pub IsTerminal : Manifest → Progress → Observed → Terminal → Type 0
IsTerminal manifest progress observation Terminal.committed =
    (progress.phase ≡ TransactionPhase.committed)
    × IsAt observation.destinations (length manifest.operations) manifest.operations
IsTerminal manifest progress observation Terminal.aborted =
    progress.phase ≡ TransactionPhase.aborted

-- What each decision presupposes
unfoldable pub IsGrounded : Manifest → Progress → Observed → RecoveryDecision → Type 0
IsGrounded m p o RecoveryDecision.abort =
    ((p.phase ≡ TransactionPhase.begun) ⊎ (p.phase ≡ TransactionPhase.prepared))
    × IsAt o.destinations zero m.operations
IsGrounded m p o RecoveryDecision.commit = IsPublishing m p o RecoveryDecision.commit
IsGrounded m p o (RecoveryDecision.record_published id) =
    IsPublishing m p o (RecoveryDecision.record_published id)
IsGrounded m p o (RecoveryDecision.publish id) = IsPublishing m p o (RecoveryDecision.publish id)
IsGrounded m p o (RecoveryDecision.cleanup t) = IsTerminal m p o t
IsGrounded m p o (RecoveryDecision.complete t) =
    IsTerminal m p o t × IsStagedAt o.staged_payloads (length m.operations) m.operations
IsGrounded m p o (RecoveryDecision.blocked id) = Unit

drop-empty : (j : ℕ) (xs : List Text) → drop j xs ≡ [] → length xs ≤ j
drop-empty zero [] h = omega arith
drop-empty zero (x ∷ xs) h = ground arith
drop-empty (suc j) [] h = omega arith
drop-empty (suc j) (x ∷ xs) h = omega (arith, drop-empty j xs h)

missing_at : (f : Fingerprint) → not (is_missing f) ≡ false → f ≡ Fingerprint.missing
missing_at Fingerprint.missing h = refl
missing_at Fingerprint.directory h = ground arith
missing_at (Fingerprint.file n s) h = ground arith

inspect_payloads-found :
    (ps : List (Text × Fingerprint)) (os : List Operation) → inspect_payloads ps true os ≢ ok false
unfolding inspect_payloads
inspect_payloads-found ps [] h = ground arith
inspect_payloads-found ps (o ∷ os) h = ground (arith, inspect_payloads-found ps os)

pub inspect_payloads-gone :
    (ps : List (Text × Fingerprint)) (os : List Operation)
    → inspect_payloads ps false os ≡ ok false
    → IsStagedAt ps (length os) os
unfolding inspect_payloads
inspect_payloads-gone ps [] h = tt
inspect_payloads-gone ps (o ∷ os) h = (
  gone o.staged_path (ground (arith, inspect_payloads-found ps os)),
  inspect_payloads-gone ps os (ground (arith, inspect_payloads-found ps os)),
)
  where
    gone :
        (staged : Option Text)
        → stops_payload (λ path. not (is_missing (payload_at ps path))) staged ≡ false
        → IsStaged ps Fingerprint.missing staged
    gone none h = tt
    gone (some path) h = missing_at (payload_at ps path) h

List-cases : (xs : List Text) → (xs ≡ []) ⊎ ((x : Text) × (ys : List Text) × (xs ≡ x ∷ ys))
List-cases [] = inl refl
List-cases (x ∷ ys) = inr (x, ys, refl)

Result-cases :
    {A : Type 0} (r : Result Text A) → ((e : Text) × (r ≡ err e)) ⊎ ((a : A) × (r ≡ ok a))
Result-cases (err e) = inl (e, refl)
Result-cases (ok a) = inr (a, refl)

module _ (m : Manifest) (p : Progress) (o : Observed) where
  via : {d e : RecoveryDecision} → d ≡ e → IsGrounded m p o e → IsGrounded m p o d
  via eq w = subst (λ d. IsGrounded m p o d) (sym eq) w

  blocked-IsGrounded :
      {d : RecoveryDecision} {id : Option Text}
      → d ≡ RecoveryDecision.blocked id
      → IsGrounded m p o d
  unfolding IsGrounded
  blocked-IsGrounded eq = via eq tt

  Next-IsGrounded :
      {j k : ℕ} {d : RecoveryDecision}
      → Next m.operations j k d
      → IsPublishing m p o d
      → IsGrounded m p o d
  unfolding IsGrounded
  Next-IsGrounded (Next.record_next x a b) h = h
  Next-IsGrounded (Next.publish_next x a b) h = h
  Next-IsGrounded (Next.commit_next a b) h = h

  decide_observed-IsGrounded :
      (k : ℕ)
      → p.phase ≡ TransactionPhase.publishing
      → IsAt o.destinations k m.operations
      → IsGrounded m p o (decide_observed m p o k)
  unfolding decide_observed
  decide_observed-IsGrounded k phase at = elim (List-cases (drop k p.published_operation_ids)) [
    | inr (id, ids, e) ↦ blocked-IsGrounded {id = some id} (ground (arith, e))
    | inl e ↦ elim (Option-cases (publishing_payload_failure o.staged_payloads k 0 m.operations)) [
      | inr (id, f) ↦ blocked-IsGrounded {id = some id} (ground (arith, e, f))
      | inl f ↦
          let next =
            next_publishing-Next m.operations (length p.published_operation_ids) k
              (drop-empty k p.published_operation_ids e)
              (IsAt-le o.destinations k m.operations at) in
          via (ground (arith, e, f)) (
            Next-IsGrounded next (record {
              phase = phase;
              observed = k;
              destinations = at;
              payloads =
                  (publishing_payload_failure-IsStagedAt o.staged_payloads k k 0 m.operations
                      (omega arith)).0
                    f;
              next = next;
            }))
    ]
  ]

  decide_publishing-IsGrounded :
      p.phase ≡ TransactionPhase.publishing → IsGrounded m p o (decide_publishing m p o)
  unfolding decide_publishing
  decide_publishing-IsGrounded phase =
      elim (Result-cases (observed_results o.destinations 0 false m.operations)) [
        | inl (id, e) ↦ blocked-IsGrounded {id = some id} (ground (arith, e))
        | inr (n, e) ↦
            let (k, eq, at) = observed_results-IsAt o.destinations 0 n m.operations e in
            via (ground (arith, e)) (
              decide_observed-IsGrounded n phase
                (subst (λ j. IsAt o.destinations j m.operations) (omega (arith, eq)) at))
      ]

  cleanup-IsGrounded :
      (t : Terminal) (r : Result Text Bool)
      → inspect_payloads o.staged_payloads false m.operations ≡ r
      → IsTerminal m p o t
      → IsGrounded m p o (decide_cleanup t r)
  unfolding IsGrounded
  cleanup-IsGrounded t (err id) e h = tt
  cleanup-IsGrounded t (ok true) e h = h
  cleanup-IsGrounded t (ok false) e h = (h, inspect_payloads-gone o.staged_payloads m.operations e)

  begun-IsGrounded :
      (r : Result Text Bool)
      → p.phase ≡ TransactionPhase.begun
      → IsAt o.destinations zero m.operations
      → IsGrounded m p o (decide_begun r)
  unfolding IsGrounded
  begun-IsGrounded (err id) e h = tt
  begun-IsGrounded (ok b) e h = (inl e, h)

  phase-IsGrounded :
      (phase : TransactionPhase) → p.phase ≡ phase → IsGrounded m p o (decide_phase m p o)
  unfolding decide_phase IsTerminal IsGrounded
  phase-IsGrounded TransactionPhase.aborted e = via (ground (arith, e)) (
      cleanup-IsGrounded Terminal.aborted (inspect_payloads o.staged_payloads false m.operations)
        refl e)
  phase-IsGrounded TransactionPhase.publishing e =
      via (ground (arith, e)) (decide_publishing-IsGrounded e)
  phase-IsGrounded TransactionPhase.begun e =
      elim (Option-cases (unexpected_destination o.destinations m.operations)) [
        | inr (id, f) ↦ blocked-IsGrounded {id = some id} (ground (arith, e, f))
        | inl f ↦ via (ground (arith, e, f)) (
            begun-IsGrounded (inspect_payloads o.staged_payloads false m.operations) e
              ((unexpected_destination-IsAt o.destinations m.operations).0 f))
      ]
  phase-IsGrounded TransactionPhase.prepared e =
      elim (Option-cases (unexpected_destination o.destinations m.operations)) [
        | inr (id, f) ↦ blocked-IsGrounded {id = some id} (ground (arith, e, f))
        | inl f ↦ elim (Option-cases (unpublishable_payload o.staged_payloads m.operations)) [
          | inr (id, g) ↦ blocked-IsGrounded {id = some id} (ground (arith, e, f, g))
          | inl g ↦
              via {e = RecoveryDecision.abort} (ground (arith, e, f, g))
                (inr e, (unexpected_destination-IsAt o.destinations m.operations).0 f)
        ]
      ]
  phase-IsGrounded TransactionPhase.committed e =
      elim (Option-cases (non_result_destination o.destinations m.operations)) [
        | inr (id, f) ↦ blocked-IsGrounded {id = some id} (ground (arith, e, f))
        | inl f ↦ via (ground (arith, e, f)) (
            cleanup-IsGrounded Terminal.committed
              (inspect_payloads o.staged_payloads false m.operations) refl
              (e, (non_result_destination-IsAt o.destinations m.operations).0 f))
      ]

  decided-IsGrounded : IsGrounded m p o (decide_recovery m p o)
  unfolding decide_recovery
  decided-IsGrounded = elim (Bool-cases (has_valid_identity m p)) [
    | inr bad ↦ blocked-IsGrounded {id = none} (ground (arith, bad))
    | inl good ↦ elim (Option-cases (manifest_failure [] [] [] m.operations)) [
      | inr (failure, f) ↦ blocked-IsGrounded {id = failure} (ground (arith, good, f))
      | inl f ↦ elim (Bool-cases (is_coherent m p o)) [
        | inr bad ↦ blocked-IsGrounded {id = none} (ground (arith, good, f, bad))
        | inl fits ↦ via (ground (arith, good, f, fits)) (phase-IsGrounded p.phase refl)
      ]
    ]
  ]

pub decide_recovery-IsGrounded :
    (m : Manifest) (p : Progress) (o : Observed) → IsGrounded m p o (decide_recovery m p o)
decide_recovery-IsGrounded m p o = decided-IsGrounded m p o

-- What each decision presupposes, on disk and in the documents
abbrev pub IsWarranted : Manifest → Progress → Observed → RecoveryDecision → Type 0
IsWarranted m p o d = IsGrounded m p o d × (is_blocked d ≡ false → IsChecked m p o)

-- Whatever manifest, progress and content of the disk a recovery meets, its decision is warranted.
-- It aborts only before the publication and when every destination is as it was before. While
-- publishing, it publishes only the first operation that is not on disk, with all before it on
-- disk and recorded, all others untouched and every payload in place; records only the next
-- operation that is on disk; and commits only when all are on disk and recorded. It completes a
-- transaction only when no payload is left, and a committed one only when every destination has
-- its result. Unless it blocks, manifest and progress are of one transaction, no two operations
-- share a name, a path or a payload, each changes something, the recorded identifiers are those of
-- the first operations in their order, none before publishing and all behind the commit, and
-- nothing but payloads of the manifest is staged.
pub decide_recovery-IsWarranted :
    (m : Manifest) (p : Progress) (o : Observed) → IsWarranted m p o (decide_recovery m p o)
decide_recovery-IsWarranted m p o = (decide_recovery-IsGrounded m p o, unblocked-IsChecked m p o)
