-- ===== src/Transactions/Forward.antt =====
-- What `decideRecovery` answers while a publication is under way, and when it is committed.
use kratos_harness.Common.{
  drop, take, ℕ, zero, suc, ◌≤◌, ◌≡◌, refl, ap, ◌∙◌, subst, true, false, not, List, [], ◌∷◌, Option,
  none, some, Text, length, text_eq, text_iff, text_refl, nat_eq, includes, All, arith, ok,
}
use kratos_harness.Transactions.Model.{
  Fingerprint, Operation, Manifest, TransactionPhase, Progress, Observed, Terminal,
  RecoveryDecision, is_missing,
}
use kratos_harness.Transactions.Checks.{
  is_set, is_prefix, has_valid_prefix, has_valid_identity, manifest_failure, staged_paths,
  has_unexpected_staged, inspect_payloads, non_result_destination, publishing_payload_failure,
  payload_at, stops_payload,
}
use kratos_harness.Transactions.Recovery.{
  operation_ids, observed_results, next_publishing, decide_observed, decide_publishing,
  decide_phase, is_coherent, decide_recovery,
}
use kratos_harness.Transactions.Published.{
  IsAt, IsStaged, IsStagedAt, IsAt-observed_results, IsAt-le, non_result_destination-IsAt,
  publishing_payload_failure-IsStagedAt,
}
use kratos_harness.Transactions.Founded.{IsFitting, IsReady}
use kratos_harness.Transactions.Separate.{
  IsOther, IsSeparate, manifest_failure-IsSeparate, IsSeparate-All,
}

-- What holds of the documents of a transaction throughout
pub record IsBound (m : Manifest) (p : Progress) (o : Observed) : Type 0 where
  pub identity : has_valid_identity m p ≡ true
  pub manifest : manifest_failure [] [] [] m.operations ≡ none
  pub known : has_unexpected_staged (staged_paths m.operations) o.staged_payloads ≡ false

-- A publication of which `j` operations are recorded and `k` are on disk, of operations that fit
-- their kind and have a directory for a parent
pub record IsForward (m : Manifest) (p : Progress) (o : Observed) (j k : ℕ) : Type 0 where
  pub bound : IsBound m p o
  pub phase : p.phase ≡ TransactionPhase.publishing
  pub recorded : p.published_operation_ids ≡ take j (operation_ids m.operations)
  pub order : j ≤ k
  pub destinations : IsAt o.destinations k m.operations
  pub payloads : IsStagedAt o.staged_payloads k m.operations
  pub fitting : All IsFitting m.operations
  pub ready : IsReady m.operations o.destinations

-- A publication that is committed
pub record IsCommitted (m : Manifest) (p : Progress) (o : Observed) : Type 0 where
  pub bound : IsBound m p o
  pub phase : p.phase ≡ TransactionPhase.committed
  pub recorded : p.published_operation_ids ≡ operation_ids m.operations
  pub destinations : IsAt o.destinations (length m.operations) m.operations
  pub payloads : IsStagedAt o.staged_payloads (length m.operations) m.operations

length-take : (j : ℕ) (os : List Operation) → j ≤ length os → length (take j (operation_ids os)) ≡ j
length-take zero os le = refl
length-take (suc j) [] le = absurd (omega (arith, le))
length-take (suc j) (o ∷ os) le = ap suc (length-take j os (omega (arith, le)))

length-operation_ids : (os : List Operation) → length (operation_ids os) ≡ length os
length-operation_ids [] = refl
length-operation_ids (o ∷ os) = ap suc (length-operation_ids os)

drop-take : (j k : ℕ) (xs : List Text) → j ≤ k → drop k (take j xs) ≡ []
drop-take zero zero xs le = refl
drop-take zero (suc k) xs le = refl
drop-take (suc j) zero xs le = absurd (omega (arith, le))
drop-take (suc j) (suc k) [] le = refl
drop-take (suc j) (suc k) (x ∷ xs) le = drop-take j k xs (omega (arith, le))

take-absent :
    (x : Operation) (j : ℕ) (os : List Operation)
    → All (IsOther x) os
    → includes (take j (operation_ids os)) x.operation_id ≡ false
take-absent x zero os h = refl
take-absent x (suc j) [] h = refl
take-absent x (suc j) (o ∷ os) (d, h) =
    let e = d.other_id in
    ground (
      arith,
      take-absent x j os h,
      text_iff x.operation_id o.operation_id,
      text_iff o.operation_id x.operation_id,
    )

take-is_set :
    (j : ℕ) (os : List Operation) → IsSeparate os → is_set (take j (operation_ids os)) ≡ true
take-is_set zero os h = refl
take-is_set (suc j) [] h = refl
take-is_set (suc j) (o ∷ os) (_, apart, h) =
    ground (arith, take-absent o j os apart, take-is_set j os h)

take-is_prefix : (j : ℕ) (xs : List Text) → is_prefix (take j xs) xs ≡ true
take-is_prefix zero xs = refl
take-is_prefix (suc j) [] = refl
take-is_prefix (suc j) (x ∷ xs) = ground (arith, text_refl x, take-is_prefix j xs)

take-length : (os : List Operation) → take (length os) (operation_ids os) ≡ operation_ids os
take-length [] = refl
take-length (o ∷ os) = ap (λ ids. o.operation_id ∷ ids) (take-length os)

inspect_payloads-none :
    (ps : List (Text × Fingerprint)) (os : List Operation)
    → IsStagedAt ps (length os) os
    → inspect_payloads ps false os ≡ ok false
unfolding inspect_payloads
inspect_payloads-none ps [] h = refl
inspect_payloads-none ps (o ∷ os) (h, hs) =
    ground (arith, gone o.staged_path h, inspect_payloads-none ps os hs)
  where
    gone :
        (staged : Option Text)
        → IsStaged ps Fingerprint.missing staged
        → stops_payload (λ path. not (is_missing (payload_at ps path))) staged ≡ false
    gone none h = refl
    gone (some path) h = rw h refl

publishing-has_valid_prefix :
    (j : ℕ) (os : List Operation)
    → IsSeparate os
    → j ≤ length os
    → has_valid_prefix TransactionPhase.publishing (take j (operation_ids os)) (operation_ids os)
      ≡ true
unfolding has_valid_prefix
publishing-has_valid_prefix j os s le =
    rw
      (
        take-is_set j os s,
        take-is_prefix j (operation_ids os),
        length-take j os le,
        length-operation_ids os,
      )
      (ground arith)

committed-has_valid_prefix :
    (os : List Operation)
    → IsSeparate os
    → has_valid_prefix TransactionPhase.committed (operation_ids os) (operation_ids os) ≡ true
unfolding has_valid_prefix
committed-has_valid_prefix os s =
    let distinct =
      subst (λ ids. is_set ids ≡ true) (take-length os) (take-is_set (length os) os s) in
    let prefix =
      subst (λ ids. is_prefix ids (operation_ids os) ≡ true) (take-length os)
        (take-is_prefix (length os) (operation_ids os)) in
    rw (distinct, prefix) (ground arith)

decide_observed-forward :
    (m : Manifest) (p : Progress) (o : Observed) (j k : ℕ)
    → p.published_operation_ids ≡ take j (operation_ids m.operations)
    → j ≤ k
    → j ≤ length m.operations
    → publishing_payload_failure o.staged_payloads k 0 m.operations ≡ none
    → decide_observed m p o k ≡ next_publishing m.operations j k
unfolding decide_observed
decide_observed-forward m p o j k recorded le le' fits =
    let n : length p.published_operation_ids ≡ j =
      ap length recorded ∙ length-take j m.operations le' in
    let none_left : drop k p.published_operation_ids ≡ [] =
      ap (drop k) recorded ∙ drop-take j k (operation_ids m.operations) le in
    ground arith

module _ (m : Manifest) (p : Progress) (o : Observed) where
  unfold_recovery :
      IsBound m p o → is_coherent m p o ≡ true → decide_recovery m p o ≡ decide_phase m p o
  unfolding decide_recovery
  unfold_recovery b c = let i = b.identity in let f = b.manifest in ground arith

  pub bound-IsSeparate : IsBound m p o → IsSeparate m.operations
  bound-IsSeparate b = (manifest_failure-IsSeparate [] [] [] m.operations b.manifest).1

  coherent :
      IsBound m p o
      → has_valid_prefix p.phase p.published_operation_ids (operation_ids m.operations) ≡ true
      → is_coherent m p o ≡ true
  unfolding is_coherent
  coherent b h = let e = b.known in ground arith

  publishing-decide :
      (k : ℕ)
      → p.phase ≡ TransactionPhase.publishing
      → observed_results o.destinations 0 false m.operations ≡ ok k
      → decide_phase m p o ≡ decide_observed m p o k
  unfolding decide_phase decide_publishing
  publishing-decide k phase found = ground arith

  pub forward-decide :
      {j k : ℕ} (f : IsForward m p o j k) → decide_recovery m p o ≡ next_publishing m.operations j k
  forward-decide {j} {k} f =
      let s = bound-IsSeparate f.bound in
      let below = IsAt-le o.destinations k m.operations f.destinations in
      let le : j ≤ length m.operations = omega (arith, f.order, below) in
      let prefix : has_valid_prefix p.phase p.published_operation_ids (operation_ids m.operations)
          ≡ true =
        rw (f.phase, f.recorded) (publishing-has_valid_prefix j m.operations s le) in
      unfold_recovery f.bound (coherent f.bound prefix)
      ∙ publishing-decide k f.phase (
          IsAt-observed_results o.destinations 0 k m.operations (IsSeparate-All m.operations s)
            f.destinations
          ∙ ap ok (omega arith))
      ∙ decide_observed-forward m p o j k f.recorded f.order le (
          (publishing_payload_failure-IsStagedAt o.staged_payloads k k 0 m.operations
              (omega arith)).1
            f.payloads)

  committed-phase :
      p.phase ≡ TransactionPhase.committed
      → non_result_destination o.destinations m.operations ≡ none
      → inspect_payloads o.staged_payloads false m.operations ≡ ok false
      → decide_phase m p o ≡ RecoveryDecision.complete Terminal.committed
  unfolding decide_phase
  committed-phase a b c = ground arith

  pub committed-decide :
      (c : IsCommitted m p o) → decide_recovery m p o ≡ RecoveryDecision.complete Terminal.committed
  committed-decide c =
      let s = bound-IsSeparate c.bound in
      let prefix : has_valid_prefix p.phase p.published_operation_ids (operation_ids m.operations)
          ≡ true =
        rw (c.phase, c.recorded) (committed-has_valid_prefix m.operations s) in
      unfold_recovery c.bound (coherent c.bound prefix)
      ∙ committed-phase c.phase
          ((non_result_destination-IsAt o.destinations m.operations).1 c.destinations)
          (inspect_payloads-none o.staged_payloads m.operations c.payloads)
