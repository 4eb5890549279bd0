-- ===== src/Transactions/Recovery.antt =====
-- `decideRecovery` of packages/runtime/src/domain/transactions/recovery.ts: the next step of a
-- transaction that was interrupted, from its manifest, its progress and what is on disk.
use kratos_harness.Common.{
  drop, take, ℕ, suc, ◌-◌, Bool, true, false, ◌&&◌, not, List, [], ◌∷◌, map, none, some, Text,
  Result, ok, err, length, get, get_elem?, nat_eq, text_eq, if◌then◌else◌,
}
use kratos_harness.Transactions.Model.{
  Fingerprint, Operation, Manifest, TransactionPhase, Progress, Observed, Terminal,
  RecoveryDecision,
}
use kratos_harness.Transactions.Checks.{
  manifest_failure, staged_paths, has_unexpected_staged, has_valid_identity, has_valid_prefix,
  deviates, unexpected_destination, non_result_destination, unpublishable_payload,
  publishing_payload_failure, inspect_payloads,
}

-- The first loop of `decidePublishing`: how many operations are found published, or the one that
-- blocks.
unfoldable pub observed_results :
    List (Text × Fingerprint) → ℕ → Bool → List Operation → Result Text ℕ
observed_results ds count found_precondition [] = ok count
observed_results ds count found_precondition (o ∷ os) = elim (deviates (get o.path ds) o.result) [
  | false ↦ elim found_precondition [
    | true ↦ err o.operation_id
    | false ↦ observed_results ds (suc count) false os
  ]
  | true ↦ elim (deviates (get o.path ds) o.expected) [
    | false ↦ observed_results ds count true os
    | true ↦ err o.operation_id
  ]
]

abbrev pub operation_ids : List Operation → List Text
operation_ids os = map (λ o. o.operation_id) os

-- The end of `decidePublishing`, when the destinations and the payloads fit
unfoldable pub next_publishing : List Operation → ℕ → ℕ → RecoveryDecision
next_publishing os recorded observed = elim (take (observed - recorded) (drop recorded os)) [
  | o ∷ _ ↦ RecoveryDecision.record_published o.operation_id
  | [] ↦ elim (get_elem? os observed) [
    | none ↦ RecoveryDecision.commit
    | some next ↦ RecoveryDecision.publish next.operation_id
  ]
]

-- `decidePublishing`, from the count of operations that are found published
unfoldable pub decide_observed : Manifest → Progress → Observed → ℕ → RecoveryDecision
decide_observed manifest progress observation observed =
    elim (drop observed progress.published_operation_ids) [
      | id ∷ _ ↦ RecoveryDecision.blocked (some id)
      | [] ↦
          elim (publishing_payload_failure observation.staged_payloads observed 0
            manifest.operations) [
              | some id ↦ RecoveryDecision.blocked (some id)
              | none ↦
                  next_publishing manifest.operations (length progress.published_operation_ids)
                    observed
            ]
    ]

-- `decidePublishing`
unfoldable pub decide_publishing : Manifest → Progress → Observed → RecoveryDecision
decide_publishing manifest progress observation =
    elim (observed_results observation.destinations 0 false manifest.operations) [
      | err id ↦ RecoveryDecision.blocked (some id)
      | ok observed ↦ decide_observed manifest progress observation observed
    ]

-- What is left to do in a terminal phase, or to abort, from the payloads
abbrev pub decide_cleanup : Terminal → Result Text Bool → RecoveryDecision
decide_cleanup terminal (err id) = RecoveryDecision.blocked (some id)
decide_cleanup terminal (ok true) = RecoveryDecision.cleanup terminal
decide_cleanup terminal (ok false) = RecoveryDecision.complete terminal

abbrev pub decide_begun : Result Text Bool → RecoveryDecision
decide_begun (err id) = RecoveryDecision.blocked (some id)
decide_begun (ok _) = RecoveryDecision.abort

-- The branches of `decideRecovery` by the phase
unfoldable pub decide_phase : Manifest → Progress → Observed → RecoveryDecision
decide_phase manifest progress observation =
    let os = manifest.operations in
    let ps = observation.staged_payloads in
    let ds = observation.destinations in
    elim progress.phase [
      | TransactionPhase.aborted ↦ decide_cleanup Terminal.aborted (inspect_payloads ps false os)
      | TransactionPhase.begun ↦ elim (unexpected_destination ds os) [
        | some id ↦ RecoveryDecision.blocked (some id)
        | none ↦ decide_begun (inspect_payloads ps false os)
      ]
      | TransactionPhase.prepared ↦ elim (unexpected_destination ds os) [
        | some id ↦ RecoveryDecision.blocked (some id)
        | none ↦ elim (unpublishable_payload ps os) [
          | some id ↦ RecoveryDecision.blocked (some id)
          | none ↦ RecoveryDecision.abort
        ]
      ]
      | TransactionPhase.committed ↦ elim (non_result_destination ds os) [
        | some id ↦ RecoveryDecision.blocked (some id)
        | none ↦ decide_cleanup Terminal.committed (inspect_payloads ps false os)
      ]
      | TransactionPhase.publishing ↦ decide_publishing manifest progress observation
    ]

-- The checks that precede every phase: that the three documents belong together
unfoldable pub is_coherent : Manifest → Progress → Observed → Bool
is_coherent manifest progress observation =
    has_valid_prefix progress.phase progress.published_operation_ids
      (operation_ids manifest.operations)
    && not (has_unexpected_staged (staged_paths manifest.operations) observation.staged_payloads)

-- `decideRecovery`
unfoldable pub decide_recovery : Manifest → Progress → Observed → RecoveryDecision
decide_recovery manifest progress observation =
    if not (has_valid_identity manifest progress)
    then RecoveryDecision.blocked none
    else elim (manifest_failure [] [] [] manifest.operations) [
      | some failure ↦ RecoveryDecision.blocked failure
      | none ↦
          if not (is_coherent manifest progress observation)
          then RecoveryDecision.blocked none
          else decide_phase manifest progress observation
    ]
