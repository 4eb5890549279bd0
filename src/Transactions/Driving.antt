-- ===== src/Transactions/Driving.antt =====
-- The loop of `driveRecovery` of packages/runtime/src/composition/transactions.ts: each pass decides
-- on what is observed and does one step, with the checks that throw. Reading, validating and writing
-- the documents and the clean-up of directories are left out, and nobody else writes during a pass. `destinations` answers `inspect`
-- for every path outside the staging area, parents and the artifacts of leases included.
use kratos_harness.Common.{
  ℕ, zero, suc, ◌≡◌, true, false, List, [], ◌∷◌, ◌++◌, Option, none, some, Text, codes, find, put,
  ◌==◌, text_eq, nat_eq, Result, ok, err, ◌>>◌, require,
}
use kratos_harness.Transactions.Model.{
  Operation, Manifest, TransactionPhase, Progress, Observed, Terminal, RecoveryDecision,
  Fingerprint, OperationKind, same_fingerprint,
}
use kratos_harness.Transactions.Recovery.{decide_recovery, operation_ids}
use kratos_harness.Transactions.Checks.{payload_at}
use kratos_harness.Transactions.Legal.{is_legal_transition}
use kratos_harness.Transactions.Fencing.{
  TransactionFailure, parent_of, observe_fingerprint, manifest_authority, assert_lease_authority,
}

-- `recordPublishedOperation`
abbrev pub record_operation : Text → Progress → Progress
record_operation id p = record p {
  published_operation_ids = p.published_operation_ids ++ (id ∷ []);
}

-- The case `commit`
abbrev pub record_commit : Manifest → Progress → Progress
record_commit m p = record p {
  phase = TransactionPhase.committed;
  published_operation_ids = operation_ids m.operations;
}

-- The case `abort`
abbrev pub record_abort : Progress → Progress
record_abort p = record p { phase = TransactionPhase.aborted; published_operation_ids = [] }

-- `assertPersistedPayload`, of a `write_file`
abbrev pub assert_persisted_payload : Operation → Observed → Result TransactionFailure (Unit {0})
assert_persisted_payload x o = elim x.kind [
  | OperationKind.write_file ↦ elim x.staged_path [
    | some path ↦
        require (same_fingerprint (payload_at o.staged_payloads path) x.result)
          (TransactionFailure.state_corrupt path)
    | none ↦ err (TransactionFailure.state_corrupt x.path)
  ]
  | _ ↦ ok tt
]

-- `publishPersistedOperation`: what `createDirectory`, `replaceFile`, which moves the payload to
-- the destination, and `removeFile` leave behind
abbrev pub publish_persisted_operation : Operation → Observed → Observed
publish_persisted_operation x o = elim x.kind [
  | OperationKind.create_directory ↦ record o {
    destinations = put x.path Fingerprint.directory o.destinations;
  }
  | OperationKind.delete_file ↦ record o {
    destinations = put x.path Fingerprint.missing o.destinations;
  }
  | OperationKind.write_file ↦ elim x.staged_path [
    | none ↦ o
    | some path ↦ record {
      destinations = put x.path (payload_at o.staged_payloads path) o.destinations;
      staged_payloads = put path Fingerprint.missing o.staged_payloads;
    }
  ]
]

-- The check of the result behind a publication
abbrev pub assert_result : Operation → Observed → Result TransactionFailure Observed
assert_result x o =
    require (same_fingerprint (observe_fingerprint x.path o.destinations) x.result)
      (TransactionFailure.state_corrupt x.path)
    >> ok o

-- The case `publish` of an operation whose destination has not its result yet. It is reached only
-- while publishing, a phase that no pass enters, so the authority that the loop began with is that
-- of the manifest.
unfoldable pub publish_untouched :
    List Operation → Operation → Observed → Result TransactionFailure Observed
publish_untouched os x o =
    require (same_fingerprint (observe_fingerprint x.path o.destinations) x.expected)
      (TransactionFailure.state_corrupt x.path)
    >> (assert_persisted_payload x o
        >> (assert_lease_authority (manifest_authority os) o.destinations
            >> assert_result x (publish_persisted_operation x o)))

-- The case `publish`, up to the record
unfoldable pub publish_operation :
    List Operation → Operation → Observed → Result TransactionFailure Observed
publish_operation os x o =
    require
      (same_fingerprint (observe_fingerprint (parent_of x.path) o.destinations)
        Fingerprint.directory)
      (TransactionFailure.state_corrupt x.path)
    >> elim (same_fingerprint (observe_fingerprint x.path o.destinations) x.result) [
      | true ↦ ok o
      | false ↦ publish_untouched os x o
    ]

-- The loop over the operations of `cleanupTransaction`
unfoldable pub remove_payloads :
    List Operation
    → List (Text × Fingerprint)
    → Result TransactionFailure (List (Text × Fingerprint))
remove_payloads [] ps = ok ps
remove_payloads (x ∷ xs) ps = elim x.staged_path [
  | none ↦ remove_payloads xs ps
  | some path ↦ elim (payload_at ps path) [
    | Fingerprint.missing ↦ remove_payloads xs ps
    | Fingerprint.file n digest ↦ remove_payloads xs (put path Fingerprint.missing ps)
    | Fingerprint.directory ↦ err (TransactionFailure.state_corrupt path)
  ]
]

-- How a pass of the loop ends
pub data Pass : Type 0 where
  continued : Progress → Observed → Pass
  completed : Terminal → Pass
  stopped : Option Text → Pass
  failed : TransactionFailure → Pass

abbrev pub recorded_pass : Text → Progress → Result TransactionFailure Observed → Pass
recorded_pass id p (ok o) = Pass.continued (record_operation id p) o
recorded_pass id p (err e) = Pass.failed e

abbrev pub cleaned_pass :
    Progress → Observed → Result TransactionFailure (List (Text × Fingerprint)) → Pass
cleaned_pass p o (ok ps) = Pass.continued p (record o { staged_payloads = ps })
cleaned_pass p o (err e) = Pass.failed e

-- A change of the phase behind `assertPhaseTransition`
abbrev pub phase_pass : Progress → TransactionPhase → Progress → Observed → Pass
phase_pass p to q o = elim (is_legal_transition p.phase to) [
  | true ↦ Pass.continued q o
  | false ↦ Pass.failed TransactionFailure.illegal_transition
]

abbrev pub publish_found : Manifest → Option Operation → Progress → Observed → Pass
publish_found m none p o = Pass.failed (TransactionFailure.state_corrupt (codes "manifest.json"))
publish_found m (some x) p o = recorded_pass x.operation_id p (publish_operation m.operations x o)

-- The `switch` of the loop
unfoldable pub pass : Manifest → Progress → Observed → RecoveryDecision → Pass
pass m p o RecoveryDecision.abort = phase_pass p TransactionPhase.aborted (record_abort p) o
pass m p o (RecoveryDecision.record_published id) = Pass.continued (record_operation id p) o
pass m p o (RecoveryDecision.publish id) =
    publish_found m (find (λ x. x.operation_id == id) m.operations) p o
pass m p o RecoveryDecision.commit = phase_pass p TransactionPhase.committed (record_commit m p) o
pass m p o (RecoveryDecision.cleanup t) =
    cleaned_pass p o (remove_payloads m.operations o.staged_payloads)
pass m p o (RecoveryDecision.complete t) = Pass.completed t
pass m p o (RecoveryDecision.blocked id) = Pass.stopped id

-- How the loop ends, and what it leaves; `none` if it has not ended after so many passes.
unfoldable pub drive_passes :
    ℕ → Manifest → Progress → Observed → Option (Pass × Progress × Observed)
drive_passes zero m p o = none
drive_passes (suc n) m p o = elim (pass m p o (decide_recovery m p o)) [
  | Pass.continued p' o' ↦ drive_passes n m p' o'
  | Pass.completed t ↦ some (Pass.completed t, p, o)
  | Pass.stopped id ↦ some (Pass.stopped id, p, o)
  | Pass.failed e ↦ some (Pass.failed e, p, o)
]

-- `progress.phase === "publishing" || progress.phase === "committed" ? manifestAuthority(manifest) :
-- undefined`
abbrev pub driven_authority : Manifest → Progress → List Operation
driven_authority m p = elim p.phase [
  | TransactionPhase.publishing ↦ manifest_authority m.operations
  | TransactionPhase.committed ↦ manifest_authority m.operations
  | _ ↦ []
]

-- `driveRecovery`, from the check of the lease on
unfoldable pub drive_recovery :
    ℕ → Manifest → Progress → Observed → Option (Pass × Progress × Observed)
drive_recovery n m p o = elim (assert_lease_authority (driven_authority m p) o.destinations) [
  | ok _ ↦ drive_passes n m p o
  | err e ↦ some (Pass.failed e, p, o)
]

-- What a process that may be killed at any moment leaves: whole passes, or a publication that was
-- not recorded.
pub data Interrupted (m : Manifest) : Progress → Observed → Progress → Observed → Type 0 where
  here : {p : Progress} {o : Observed} → Interrupted m p o p o
  passed :
      {p q r : Progress} {a b c : Observed}
      → Interrupted m p a q b
      → pass m q b (decide_recovery m q b) ≡ Pass.continued r c
      → Interrupted m p a r c
  killed :
      {p q : Progress} {a b c : Observed} {id : Text} {x : Operation}
      → Interrupted m p a q b
      → decide_recovery m q b ≡ RecoveryDecision.publish id
      → find (λ o. o.operation_id == id) m.operations ≡ some x
      → publish_operation m.operations x b ≡ ok c
      → Interrupted m p a q c
