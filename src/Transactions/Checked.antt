-- ===== src/Transactions/Checked.antt =====
-- What `decideRecovery` has checked of the documents when it does not block.
use kratos_harness.Common.{
  ◌≡◌, ◌≢◌, ◌⊎◌, inl, inr, refl, sym, ap, Bool, Bool-cases, true, false, ◌&&◌, not, List, [], ◌∷◌,
  Option, none, some, Option-cases, Text, length, take, includes, any, is_empty, All, arith,
  text_eq, text_iff, nat_eq,
}
use kratos_harness.Transactions.Model.{
  Fingerprint, Manifest, TransactionPhase, Progress, Observed, RecoveryDecision, is_missing,
}
use kratos_harness.Transactions.Checks.{
  manifest_failure, staged_paths, has_unexpected_staged, token_is, has_valid_identity, is_prefix,
  has_valid_prefix,
}
use kratos_harness.Transactions.Recovery.{operation_ids, is_coherent, decide_recovery}
use kratos_harness.Transactions.Separate.{IsSeparate, manifest_failure-IsSeparate}

-- The manifest and the progress are of one transaction, no two operations of which share a name, a
-- path or a payload, and each of which changes something; the identifiers that are recorded are
-- those of its first operations, in their order; and nothing else is staged.
pub record IsChecked (m : Manifest) (p : Progress) (o : Observed) : Type 0 where
  pub transaction : m.transaction_id ≡ p.transaction_id
  pub created : m.created_at ≡ p.created_at
  pub token :
      p.phase ≢ TransactionPhase.begun
      → p.phase ≢ TransactionPhase.aborted
      → p.manifest_digest ≡ some p.recovery_token
  pub separate : IsSeparate m.operations
  pub recorded :
      p.published_operation_ids
      ≡ take (length p.published_operation_ids) (operation_ids m.operations)
  pub unpublished :
      p.phase ≢ TransactionPhase.publishing
      → p.phase ≢ TransactionPhase.committed
      → p.published_operation_ids ≡ []
  pub committed :
      p.phase ≡ TransactionPhase.committed
      → length p.published_operation_ids ≡ length (operation_ids m.operations)
  pub staged :
      All
        (λ e. (includes (staged_paths m.operations) e.0 ≡ true) ⊎ (e.1 ≡ Fingerprint.missing))
        o.staged_payloads

is_prefix-take : (ps ids : List Text) → is_prefix ps ids ≡ true → ps ≡ take (length ps) ids
is_prefix-take [] ids h = refl
is_prefix-take (p ∷ ps) [] h = ground arith
is_prefix-take (p ∷ ps) (i ∷ ids) h = ground (arith, text_iff p i, is_prefix-take ps ids)

unexpected-All :
    (known : List Text) (ps : List (Text × Fingerprint))
    → any (λ p. not (includes known p.0) && not (is_missing p.1)) ps ≡ false
    → All (λ e. (includes known e.0 ≡ true) ⊎ (e.1 ≡ Fingerprint.missing)) ps
unexpected-All known [] h = tt
unexpected-All known ((path, f) ∷ ps) h =
    (known_or f (ground arith), unexpected-All known ps (ground arith))
  where
    known_or :
        (f : Fingerprint)
        → (not (includes known path) && not (is_missing f)) ≡ false
        → (includes known path ≡ true) ⊎ (f ≡ Fingerprint.missing)
    known_or Fingerprint.missing h = inr refl
    known_or Fingerprint.directory h = inl (ground arith)
    known_or (Fingerprint.file n s) h = inl (ground arith)

has_unexpected_staged-All :
    (known : List Text) (ps : List (Text × Fingerprint))
    → has_unexpected_staged known ps ≡ false
    → All (λ e. (includes known e.0 ≡ true) ⊎ (e.1 ≡ Fingerprint.missing)) ps
unfolding has_unexpected_staged
has_unexpected_staged-All known ps h = unexpected-All known ps h

token_is-some : (t : Text) (d : Option Text) → token_is t d ≡ true → d ≡ some t
token_is-some t none h = ground arith
token_is-some t (some d) h = ap some (sym ((text_iff t d).0 h))

valid_token :
    (m : Manifest) (p : Progress) (phase : TransactionPhase)
    → p.phase ≡ phase
    → has_valid_identity m p ≡ true
    → phase ≢ TransactionPhase.begun
    → phase ≢ TransactionPhase.aborted
    → p.manifest_digest ≡ some p.recovery_token
unfolding has_valid_identity
valid_token m p TransactionPhase.begun e h b a = absurd (b refl)
valid_token m p TransactionPhase.aborted e h b a = absurd (a refl)
valid_token m p TransactionPhase.prepared e h b a =
    token_is-some p.recovery_token p.manifest_digest (ground arith)
valid_token m p TransactionPhase.publishing e h b a =
    token_is-some p.recovery_token p.manifest_digest (ground arith)
valid_token m p TransactionPhase.committed e h b a =
    token_is-some p.recovery_token p.manifest_digest (ground arith)

same_names :
    (m : Manifest) (p : Progress)
    → has_valid_identity m p ≡ true
    → (m.transaction_id ≡ p.transaction_id) × (m.created_at ≡ p.created_at)
unfolding has_valid_identity
same_names m p h = (
  (text_iff m.transaction_id p.transaction_id).0 (ground arith),
  (text_iff m.created_at p.created_at).0 (ground arith),
)

empty_list : (xs : List Text) → is_empty xs ≡ true → xs ≡ []
empty_list [] h = refl
empty_list (x ∷ xs) h = ground arith

prefix_recorded :
    (phase : TransactionPhase) (ps ids : List Text)
    → has_valid_prefix phase ps ids ≡ true
    → ps ≡ take (length ps) ids
unfolding has_valid_prefix
prefix_recorded phase ps ids h = is_prefix-take ps ids (ground arith)

prefix_unpublished :
    (phase : TransactionPhase) (ps ids : List Text)
    → has_valid_prefix phase ps ids ≡ true
    → phase ≢ TransactionPhase.publishing
    → phase ≢ TransactionPhase.committed
    → ps ≡ []
unfolding has_valid_prefix
prefix_unpublished TransactionPhase.publishing ps ids h a b = absurd (a refl)
prefix_unpublished TransactionPhase.committed ps ids h a b = absurd (b refl)
prefix_unpublished TransactionPhase.begun ps ids h a b = empty_list ps (ground arith)
prefix_unpublished TransactionPhase.prepared ps ids h a b = empty_list ps (ground arith)
prefix_unpublished TransactionPhase.aborted ps ids h a b = empty_list ps (ground arith)

prefix_committed :
    (phase : TransactionPhase) (ps ids : List Text)
    → has_valid_prefix phase ps ids ≡ true
    → phase ≡ TransactionPhase.committed
    → length ps ≡ length ids
unfolding has_valid_prefix
prefix_committed phase ps ids h e = ground arith

coherent_parts :
    (m : Manifest) (p : Progress) (o : Observed)
    → is_coherent m p o ≡ true
    → (has_valid_prefix p.phase p.published_operation_ids (operation_ids m.operations) ≡ true)
      × (has_unexpected_staged (staged_paths m.operations) o.staged_payloads ≡ false)
unfolding is_coherent
coherent_parts m p o h = (ground arith, ground arith)

pub checks-IsChecked :
    (m : Manifest) (p : Progress) (o : Observed)
    → has_valid_identity m p ≡ true
    → manifest_failure [] [] [] m.operations ≡ none
    → is_coherent m p o ≡ true
    → IsChecked m p o
checks-IsChecked m p o i f c =
    let (prefix, known) = coherent_parts m p o c in
    let ids = operation_ids m.operations in
    record {
      transaction = (same_names m p i).0;
      created = (same_names m p i).1;
      token = valid_token m p p.phase refl i;
      separate = (manifest_failure-IsSeparate [] [] [] m.operations f).1;
      recorded = prefix_recorded p.phase p.published_operation_ids ids prefix;
      unpublished = prefix_unpublished p.phase p.published_operation_ids ids prefix;
      committed = prefix_committed p.phase p.published_operation_ids ids prefix;
      staged = has_unexpected_staged-All (staged_paths m.operations) o.staged_payloads known;
    }

abbrev pub is_blocked : RecoveryDecision → Bool
is_blocked (RecoveryDecision.blocked id) = true
is_blocked _ = false

-- A recovery that does not block has checked the documents.
pub unblocked-IsChecked :
    (m : Manifest) (p : Progress) (o : Observed)
    → is_blocked (decide_recovery m p o) ≡ false
    → IsChecked m p o
unfolding decide_recovery
unblocked-IsChecked m p o h = elim (Bool-cases (has_valid_identity m p)) [
  | inr bad ↦ ground arith
  | inl good ↦ elim (Option-cases (manifest_failure [] [] [] m.operations)) [
    | inr (failure, f) ↦ ground arith
    | inl f ↦ elim (Bool-cases (is_coherent m p o)) [
      | inr bad ↦ ground arith
      | inl fits ↦ checks-IsChecked m p o good f fits
    ]
  ]
]
