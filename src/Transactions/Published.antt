-- ===== src/Transactions/Published.antt =====
-- What the loops of `decidePublishing` find on disk: the first operations published, the others not.
use kratos_harness.Common.{
  ℕ, zero, suc, ◌+◌, ◌≤◌, ◌<◌, ◌≡◌, ◌↔◌, refl, Bool, Bool-cases, true, false, not, List, [], ◌∷◌,
  Option, none, some, Text, ok, inl, inr, get, length, arith, All, ltb, if◌then◌else◌,
}
use kratos_harness.Transactions.Model.{
  Fingerprint, Operation, same_fingerprint, same_fingerprint_iff, is_missing,
}
use kratos_harness.Transactions.Checks.{
  deviates, payload_at, stops_payload, publishing_payload_failure, unexpected_destination,
  non_result_destination,
}
use kratos_harness.Transactions.Recovery.{observed_results}

-- The first `k` operations have their result at the destination, the others what they expect there.
abbrev pub IsAt : List (Text × Fingerprint) → ℕ → List Operation → Type 0
IsAt ds zero [] = Unit
IsAt ds (suc k) [] = ⊥
IsAt ds zero (o ∷ os) = (get o.path ds ≡ some o.expected) × IsAt ds zero os
IsAt ds (suc k) (o ∷ os) = (get o.path ds ≡ some o.result) × IsAt ds k os

-- The payload of an operation, if it has one, is a given content.
abbrev pub IsStaged : List (Text × Fingerprint) → Fingerprint → Option Text → Type 0
IsStaged ps f none = Unit
IsStaged ps f (some path) = payload_at ps path ≡ f

-- The first `k` operations have no payload any more, the others have theirs.
abbrev pub IsStagedAt : List (Text × Fingerprint) → ℕ → List Operation → Type 0
IsStagedAt ps k [] = Unit
IsStagedAt ps zero (o ∷ os) = IsStaged ps o.result o.staged_path × IsStagedAt ps zero os
IsStagedAt ps (suc k) (o ∷ os) = IsStaged ps Fingerprint.missing o.staged_path × IsStagedAt ps k os

pub differs_iff :
    (found : Option Fingerprint) (f : Fingerprint) → (deviates found f ≡ false) ↔ (found ≡ some f)
differs_iff none f = ground arith
differs_iff (some g) f = ground (arith, same_fingerprint_iff g f)

module _ (ds : List (Text × Fingerprint)) where
  rest-IsAt :
      (count n : ℕ) (os : List Operation)
      → observed_results ds count true os ≡ ok n
      → (n ≡ count) × IsAt ds zero os
  unfolding observed_results
  rest-IsAt count n [] h = (ground arith, tt)
  rest-IsAt count n (o ∷ os) h = elim (Bool-cases (deviates (get o.path ds) o.result)) [
    | inl other ↦ elim (Bool-cases (deviates (get o.path ds) o.expected)) [
      | inl bad ↦ ground arith
      | inr met ↦
          let (e, k) = rest-IsAt count n os (ground arith) in (e, ((differs_iff _ _).0 met, k))
    ]
    | inr done ↦ ground arith
  ]

  pub observed_results-IsAt :
      (count n : ℕ) (os : List Operation)
      → observed_results ds count false os ≡ ok n
      → (k : ℕ) × (n ≡ count + k) × IsAt ds k os
  unfolding observed_results
  observed_results-IsAt count n [] h = (zero, ground arith, tt)
  observed_results-IsAt count n (o ∷ os) h = elim (Bool-cases (deviates (get o.path ds) o.result)) [
    | inl other ↦ elim (Bool-cases (deviates (get o.path ds) o.expected)) [
      | inl bad ↦ ground arith
      | inr met ↦
          let (e, k) = rest-IsAt count n os (ground arith) in
          (zero, ground arith, ((differs_iff _ _).0 met, k))
    ]
    | inr done ↦
        let (k, e, at) = observed_results-IsAt (suc count) n os (ground arith) in
        (suc k, ground arith, ((differs_iff _ _).0 done, at))
  ]

  IsAt-rest :
      (count : ℕ) (os : List Operation)
      → All (λ o. same_fingerprint o.expected o.result ≡ false) os
      → IsAt ds zero os
      → observed_results ds count true os ≡ ok count
  unfolding observed_results
  IsAt-rest count [] _ _ = refl
  IsAt-rest count (o ∷ os) (d, ds_) (h, hs) =
      ground (arith, IsAt-rest count os ds_ hs, same_fingerprint_iff o.expected o.expected)

  pub IsAt-observed_results :
      (count k : ℕ) (os : List Operation)
      → All (λ o. same_fingerprint o.expected o.result ≡ false) os
      → IsAt ds k os
      → observed_results ds count false os ≡ ok (count + k)
  unfolding observed_results
  IsAt-observed_results count zero [] _ _ = ground arith
  IsAt-observed_results count (suc k) [] _ h = absurd h
  IsAt-observed_results count zero (o ∷ os) (d, ds_) (h, hs) =
      ground (arith, IsAt-rest count os ds_ hs, same_fingerprint_iff o.expected o.expected)
  IsAt-observed_results count (suc k) (o ∷ os) (d, ds_) (h, hs) =
      ground (
        arith,
        IsAt-observed_results (suc count) k os ds_ hs,
        same_fingerprint_iff o.result o.result,
      )

  pub IsAt-le : (k : ℕ) (os : List Operation) → IsAt ds k os → k ≤ length os
  IsAt-le zero os h = omega arith
  IsAt-le (suc k) [] h = absurd h
  IsAt-le (suc k) (o ∷ os) (_, h) = omega (arith, IsAt-le k os h)

  pub unexpected_destination-IsAt :
      (os : List Operation) → (unexpected_destination ds os ≡ none) ↔ IsAt ds zero os
  unfolding unexpected_destination
  unexpected_destination-IsAt [] = (λ _. tt, λ _. refl)
  unexpected_destination-IsAt (o ∷ os) = elim (Bool-cases (deviates (get o.path ds) o.expected)) [
    | inl bad ↦
        (λ h. ground arith, λ (d, h). ground (arith, differs_iff (get o.path ds) o.expected))
    | inr met ↦ (
      λ h. ((differs_iff _ _).0 met, (unexpected_destination-IsAt os).0 (ground arith)),
      λ (d, h). ground (arith, (unexpected_destination-IsAt os).1 h),
    )
  ]

  pub non_result_destination-IsAt :
      (os : List Operation) → (non_result_destination ds os ≡ none) ↔ IsAt ds (length os) os
  unfolding non_result_destination
  non_result_destination-IsAt [] = (λ _. tt, λ _. refl)
  non_result_destination-IsAt (o ∷ os) = elim (Bool-cases (deviates (get o.path ds) o.result)) [
    | inl bad ↦ (λ h. ground arith, λ (d, h). ground (arith, differs_iff (get o.path ds) o.result))
    | inr met ↦ (
      λ h. ((differs_iff _ _).0 met, (non_result_destination-IsAt os).0 (ground arith)),
      λ (d, h). ground (arith, (non_result_destination-IsAt os).1 h),
    )
  ]

module _ (ps : List (Text × Fingerprint)) where
  -- The test of a payload that no payload must stop
  test_at : ℕ → ℕ → Operation → Text → Bool
  test_at observed index o path =
      if ltb index observed
      then not (is_missing (payload_at ps path))
      else not (same_fingerprint (payload_at ps path) o.result)

  is_missing_iff : (f : Fingerprint) → (is_missing f ≡ true) ↔ (f ≡ Fingerprint.missing)
  is_missing_iff Fingerprint.missing = ground arith
  is_missing_iff Fingerprint.directory = ground arith
  is_missing_iff (Fingerprint.file n s) = ground arith

  stops-late :
      (observed index : ℕ) (o : Operation) (staged : Option Text)
      → observed ≤ index
      → (stops_payload (test_at observed index o) staged ≡ false) ↔ IsStaged ps o.result staged
  unfolding test_at
  stops-late observed index o none le = ground arith
  stops-late observed index o (some path) le =
      ground (arith, same_fingerprint_iff (payload_at ps path) o.result)

  stops-early :
      (observed index : ℕ) (o : Operation) (staged : Option Text)
      → index < observed
      → (stops_payload (test_at observed index o) staged ≡ false)
        ↔ IsStaged ps Fingerprint.missing staged
  unfolding test_at
  stops-early observed index o none le = ground arith
  stops-early observed index o (some path) le = ground (arith, is_missing_iff (payload_at ps path))

  pub late-IsStagedAt :
      (observed index : ℕ) (os : List Operation)
      → observed ≤ index
      → (publishing_payload_failure ps observed index os ≡ none) ↔ IsStagedAt ps zero os
  unfolding publishing_payload_failure test_at
  late-IsStagedAt observed index [] le = (λ _. tt, λ _. refl)
  late-IsStagedAt observed index (o ∷ os) le =
      let head = stops-late observed index o o.staged_path le in
      let tail = late-IsStagedAt observed (suc index) os (omega arith) in
      elim (Bool-cases (stops_payload (test_at observed index o) o.staged_path)) [
        | inl bad ↦ (λ h. ground arith, λ (d, h). ground arith)
        | inr good ↦ (λ h. (head.0 good, tail.0 (ground arith)), λ (d, h). ground (arith, tail.1 h))
      ]

  pub publishing_payload_failure-IsStagedAt :
      (observed k index : ℕ) (os : List Operation)
      → observed ≡ index + k
      → (publishing_payload_failure ps observed index os ≡ none) ↔ IsStagedAt ps k os
  unfolding publishing_payload_failure test_at
  publishing_payload_failure-IsStagedAt observed zero index os e =
      late-IsStagedAt observed index os (omega arith)
  publishing_payload_failure-IsStagedAt observed (suc k) index [] e = (λ _. tt, λ _. refl)
  publishing_payload_failure-IsStagedAt observed (suc k) index (o ∷ os) e =
      let head = stops-early observed index o o.staged_path (omega arith) in
      let tail = publishing_payload_failure-IsStagedAt observed k (suc index) os (omega arith) in
      elim (Bool-cases (stops_payload (test_at observed index o) o.staged_path)) [
        | inl bad ↦ (λ h. ground arith, λ (d, h). ground arith)
        | inr good ↦ (λ h. (head.0 good, tail.0 (ground arith)), λ (d, h). ground (arith, tail.1 h))
      ]
