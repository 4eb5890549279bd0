-- ===== src/Transactions/Model.antt =====
-- The data of a transaction: `PathFingerprint`, `PersistedManagedOperation`, `TransactionObservation`
-- and `RecoveryDecision` of packages/runtime/src/domain/transactions/model.ts, with the manifest and
-- the progress of packages/contracts/src/generated/contracts.ts.
use kratos_harness.Common.{
  ℕ, ◌≡◌, ◌↔◌, Bool, true, false, ◌&&◌, List, Option, Text, ◌==◌, nat_eq, text_eq, text_iff, arith,
}

-- `PathFingerprint`
pub data Fingerprint : Type 0 where
  missing directory : Fingerprint
  file : ℕ → Text → Fingerprint

pub data OperationKind : Type 0 where
  write_file create_directory delete_file : OperationKind

-- `PersistedManagedOperation`: the staged path is `none` where the source has `null`.
pub record Operation : Type 0 where
  pub operation_id : Text
  pub kind : OperationKind
  pub path : Text
  pub expected : Fingerprint
  pub result : Fingerprint
  pub staged_path : Option Text

-- `TransactionManifestV1`
pub record Manifest : Type 0 where
  pub transaction_id : Text
  pub created_at : Text
  pub operations : List Operation

pub data TransactionPhase : Type 0 where
  begun prepared publishing committed aborted : TransactionPhase

-- `TransactionProgressV1`
pub record Progress : Type 0 where
  pub transaction_id : Text
  pub manifest_digest : Option Text
  pub recovery_token : Text
  pub phase : TransactionPhase
  pub published_operation_ids : List Text
  pub created_at : Text

-- `TransactionObservation`
pub record Observed : Type 0 where
  pub destinations : List (Text × Fingerprint)
  pub staged_payloads : List (Text × Fingerprint)

pub data Terminal : Type 0 where
  committed aborted : Terminal

pub data RecoveryDecision : Type 0 where
  abort commit : RecoveryDecision
  record_published publish : Text → RecoveryDecision
  cleanup complete : Terminal → RecoveryDecision
  blocked : Option Text → RecoveryDecision

-- `sameFingerprint`
abbrev pub same_fingerprint : Fingerprint → Fingerprint → Bool
same_fingerprint Fingerprint.missing Fingerprint.missing = true
same_fingerprint Fingerprint.directory Fingerprint.directory = true
same_fingerprint (Fingerprint.file n s) (Fingerprint.file m t) = n == m && s == t
same_fingerprint _ _ = false

abbrev pub is_missing : Fingerprint → Bool
is_missing Fingerprint.missing = true
is_missing _ = false

pub same_fingerprint_iff : (f g : Fingerprint) → (same_fingerprint f g ≡ true) ↔ (f ≡ g)
same_fingerprint_iff Fingerprint.missing Fingerprint.missing = ground arith
same_fingerprint_iff Fingerprint.missing Fingerprint.directory = ground arith
same_fingerprint_iff Fingerprint.missing (Fingerprint.file m t) = ground arith
same_fingerprint_iff Fingerprint.directory Fingerprint.missing = ground arith
same_fingerprint_iff Fingerprint.directory Fingerprint.directory = ground arith
same_fingerprint_iff Fingerprint.directory (Fingerprint.file m t) = ground arith
same_fingerprint_iff (Fingerprint.file n s) Fingerprint.missing = ground arith
same_fingerprint_iff (Fingerprint.file n s) Fingerprint.directory = ground arith
same_fingerprint_iff (Fingerprint.file n s) (Fingerprint.file m t) = ground (arith, text_iff s t)
