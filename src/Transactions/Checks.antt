-- ===== src/Transactions/Checks.antt =====
-- The checks of packages/runtime/src/domain/transactions/recovery.ts on the manifest, the progress and
-- what is on disk.
use kratos_harness.Common.{
  ℕ, suc, Bool, true, false, ◌&&◌, ◌||◌, not, List, [], ◌∷◌, Option, none, some, Text, Result, ok,
  err, length, includes, get, get_or, any, is_empty, is_some, ltb, leb, ◌==◌, nat_eq, text_eq,
  if◌then◌else◌,
}
use kratos_harness.Transactions.Model.{
  Fingerprint, Operation, Manifest, TransactionPhase, Progress, same_fingerprint, is_missing,
}

-- `set.has(stagedPath)`, of a path that may be `null`
abbrev pub staged_in : List Text → Option Text → Bool
staged_in staged none = false
staged_in staged (some path) = includes staged path

abbrev pub add_staged : Option Text → List Text → List Text
add_staged none staged = staged
add_staged (some path) staged = path ∷ staged

-- `findManifestFailure`, with the sets of its loop: `none` is `undefined`, `some none` is `null`.
unfoldable pub manifest_failure :
    List Text → List Text → List Text → List Operation → Option (Option Text)
manifest_failure ids paths staged [] = none
manifest_failure ids paths staged (o ∷ os) =
    elim (includes ids o.operation_id || includes paths o.path || staged_in staged o.staged_path) [
      | true ↦ some none
      | false ↦ elim (same_fingerprint o.expected o.result) [
        | true ↦ some (some o.operation_id)
        | false ↦
            manifest_failure (o.operation_id ∷ ids) (o.path ∷ paths)
              (add_staged o.staged_path staged) os
      ]
    ]

abbrev pub staged_paths : List Operation → List Text
staged_paths [] = []
staged_paths (o ∷ os) = add_staged o.staged_path (staged_paths os)

-- `hasUnexpectedStagedContent`
unfoldable pub has_unexpected_staged : List Text → List (Text × Fingerprint) → Bool
has_unexpected_staged known payloads =
    any (λ p. not (includes known p.0) && not (is_missing p.1)) payloads

-- `recoveryToken === manifestDigest`
abbrev pub token_is : Text → Option Text → Bool
token_is token none = false
token_is token (some digest) = token == digest

-- `hasValidIdentity`
unfoldable pub has_valid_identity : Manifest → Progress → Bool
has_valid_identity manifest progress =
    if not (manifest.transaction_id == progress.transaction_id)
      || not (manifest.created_at == progress.created_at)
    then false
    else elim progress.phase [
      | TransactionPhase.begun ↦ true
      | TransactionPhase.aborted ↦
          not (is_some progress.manifest_digest)
          || token_is progress.recovery_token progress.manifest_digest
      | _ ↦ token_is progress.recovery_token progress.manifest_digest
    ]

-- `new Set(xs).size === xs.length`
abbrev pub is_set : List Text → Bool
is_set [] = true
is_set (x ∷ xs) = not (includes xs x) && is_set xs

-- `!published.some((operationId, index) => operationId !== operationIds[index])`
abbrev pub is_prefix : List Text → List Text → Bool
is_prefix [] ids = true
is_prefix (p ∷ ps) [] = false
is_prefix (p ∷ ps) (i ∷ is) = p == i && is_prefix ps is

-- `hasValidPublishedPrefix`
unfoldable pub has_valid_prefix : TransactionPhase → List Text → List Text → Bool
has_valid_prefix phase published ids =
    if not (is_set published)
    then false
    else if not (is_prefix published ids)
    then false
    else elim phase [
      | TransactionPhase.committed ↦ length published == length ids
      | TransactionPhase.publishing ↦ leb (length published) (length ids)
      | _ ↦ is_empty published
    ]

abbrev pub deviates : Option Fingerprint → Fingerprint → Bool
deviates none expected = true
deviates (some found) expected = not (same_fingerprint found expected)

-- `findUnexpectedPrepublicationDestination`
unfoldable pub unexpected_destination : List (Text × Fingerprint) → List Operation → Option Text
unexpected_destination ds [] = none
unexpected_destination ds (o ∷ os) = elim (deviates (get o.path ds) o.expected) [
  | true ↦ some o.operation_id
  | false ↦ unexpected_destination ds os
]

-- `findNonResultDestination`
unfoldable pub non_result_destination : List (Text × Fingerprint) → List Operation → Option Text
non_result_destination ds [] = none
non_result_destination ds (o ∷ os) = elim (deviates (get o.path ds) o.result) [
  | true ↦ some o.operation_id
  | false ↦ non_result_destination ds os
]

-- A staged payload that stops the loop, of an operation that has one
abbrev pub stops_payload : (Text → Bool) → Option Text → Bool
stops_payload test none = false
stops_payload test (some path) = test path

-- `findUnpublishablePayload`
unfoldable pub unpublishable_payload : List (Text × Fingerprint) → List Operation → Option Text
unpublishable_payload ps [] = none
unpublishable_payload ps (o ∷ os) =
    elim (stops_payload (λ path. deviates (get path ps) o.result) o.staged_path) [
      | true ↦ some o.operation_id
      | false ↦ unpublishable_payload ps os
    ]

-- `stagedPayloads.get(path) ?? missing`
abbrev pub payload_at : List (Text × Fingerprint) → Text → Fingerprint
payload_at ps path = get_or (get path ps) Fingerprint.missing

-- `findPublishingPayloadFailure`, from the index of the first operation
unfoldable pub publishing_payload_failure :
    List (Text × Fingerprint) → ℕ → ℕ → List Operation → Option Text
publishing_payload_failure ps observed index [] = none
publishing_payload_failure ps observed index (o ∷ os) =
    elim (stops_payload
      (λ path.
        if ltb index observed
        then not (is_missing (payload_at ps path))
        else not (same_fingerprint (payload_at ps path) o.result))
      o.staged_path) [
        | true ↦ some o.operation_id
        | false ↦ publishing_payload_failure ps observed (suc index) os
      ]

-- `inspectPayloads`: the operation that blocks, else whether a payload is there.
unfoldable pub inspect_payloads :
    List (Text × Fingerprint) → Bool → List Operation → Result Text Bool
inspect_payloads ps has_payload [] = ok has_payload
inspect_payloads ps has_payload (o ∷ os) =
    elim (stops_payload (λ path. not (is_missing (payload_at ps path))) o.staged_path) [
      | false ↦ inspect_payloads ps has_payload os
      | true ↦
          elim (stops_payload (λ path. not (same_fingerprint (payload_at ps path) o.result))
            o.staged_path) [ true ↦ err o.operation_id | false ↦ inspect_payloads ps true os ]
    ]
