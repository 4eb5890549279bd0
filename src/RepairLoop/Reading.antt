-- ===== src/RepairLoop/Reading.antt =====
-- What the three loops of `decideRepairLoop` establish of the maps that they fill.
use kratos_harness.Common.{
  ℕ, ◌≤◌, ◌<◌, ◌≡◌, refl, inl, inr, true, List, [], ◌∷◌, ◌++◌, some, Text, arith, get_or, get, put,
  get-put, includes, includes-append, All, Bool-cases, nat_eq, text_eq, text_iff, ok,
}
use kratos_harness.RepairLoop.Model.{Attempt, Criterion, Fault}
use kratos_harness.RepairLoop.Decision.{
  read_attempts, read_criteria, read_faults, valid_fault, is_known, is_failed, next_attempts,
  tripping,
}
use kratos_harness.Workflow.Acceptance.{attempt_map, canonical_attempts, at_ceiling}

-- The map of the prior attempts is the one that the reducer builds.
pub read_attempts-attempt_map :
    (k : ℕ) (l : List Attempt) (m : List (Text × ℕ)) {p : List (Text × ℕ)}
    → read_attempts k l m ≡ ok p
    → p ≡ attempt_map l m
unfolding read_attempts attempt_map
read_attempts-attempt_map k [] m h = ground arith
read_attempts-attempt_map k (a ∷ l) m h =
    read_attempts-attempt_map k l (put a.criterion_id a.attempt m) (ground arith)

-- Every count in the map is below the ceiling.
abbrev pub IsBelow : ℕ → List (Text × ℕ) → Type 0
IsBelow k m = (id : Text) → get_or (get id m) 0 < k

pub read_attempts-IsBelow :
    (k : ℕ) (l : List Attempt) (m : List (Text × ℕ)) {p : List (Text × ℕ)}
    → IsBelow k m
    → read_attempts k l m ≡ ok p
    → IsBelow k p
unfolding read_attempts
read_attempts-IsBelow k [] m b h = λ id. ground (arith, b id)
read_attempts-IsBelow k (a ∷ l) m b h =
    read_attempts-IsBelow k l (put a.criterion_id a.attempt m)
      (λ id. ground (arith, b id, get-put a.criterion_id id a.attempt m)) (ground arith)

-- The attempts of the failed criteria are canonical for the reducer.
pub next_attempts-canonical :
    (k : ℕ) (prior : List (Text × ℕ)) (l : List Criterion) (seen counted all_seen : List Text)
    → IsBelow k prior
    → ((id : Text) → includes counted id ≡ true → includes seen id ≡ true)
    → read_criteria l seen ≡ ok all_seen
    → canonical_attempts prior k counted (next_attempts prior l) ≡ true
unfolding read_criteria canonical_attempts next_attempts
next_attempts-canonical k prior [] seen counted all_seen b sub h = refl
next_attempts-canonical k prior (c ∷ l) seen counted all_seen b sub h =
    elim (Bool-cases (is_failed c.outcome)) [
      | inl failed ↦
          let rest : canonical_attempts prior k (counted ++ c.criterion_id ∷ [])
                (next_attempts prior l)
              ≡ true =
            next_attempts-canonical k prior l (seen ++ c.criterion_id ∷ [])
              (counted ++ c.criterion_id ∷ []) all_seen b
              (λ id q. ground (
                arith,
                sub id,
                includes-append seen (c.criterion_id ∷ []) id,
                includes-append counted (c.criterion_id ∷ []) id,
              ))
              (ground arith) in
          ground (arith, failed, rest, sub c.criterion_id, b c.criterion_id)
      | inr spared ↦ rw spared (
          next_attempts-canonical k prior l (seen ++ c.criterion_id ∷ []) counted all_seen b
            (λ id q. ground (arith, sub id q, includes-append seen (c.criterion_id ∷ []) id))
            (ground arith))
    ]

-- Every fault in the map has a known classification.
abbrev pub IsClassified : List (Text × Fault) → Type 0
IsClassified m = (id : Text) (f : Fault) → get id m ≡ some f → is_known f.classification ≡ true

pub read_faults-IsClassified :
    (l : List Fault) (m : List (Text × Fault)) {p : List (Text × Fault)}
    → IsClassified m
    → read_faults l m ≡ ok p
    → IsClassified p
unfolding read_faults valid_fault
read_faults-IsClassified [] m b h = λ id f q. ground (arith, b id f)
read_faults-IsClassified (g ∷ l) m b h =
    read_faults-IsClassified l (put g.criterion_id g m)
      (λ id f q. ground (arith, b id f, get-put g.criterion_id id g m)) (ground arith)

-- Below the ceiling or at it, "at least the ceiling" is "the ceiling".
pub tripping-at_ceiling :
    (k : ℕ) (l : List Attempt)
    → All (λ a. (1 ≤ a.attempt) × (a.attempt ≤ k)) l
    → tripping k l ≡ at_ceiling k l
tripping-at_ceiling k [] _ = refl
tripping-at_ceiling k (a ∷ l) (p, h) = ground (arith, tripping-at_ceiling k l h)

-- The fault that the map holds for a criterion is that criterion's.
abbrev pub IsKeyed : List (Text × Fault) → Type 0
IsKeyed m = (id : Text) (f : Fault) → get id m ≡ some f → f.criterion_id ≡ id

pub read_faults-IsKeyed :
    (l : List Fault) (m : List (Text × Fault)) {p : List (Text × Fault)}
    → IsKeyed m
    → read_faults l m ≡ ok p
    → IsKeyed p
unfolding read_faults
read_faults-IsKeyed [] m b h = λ id f q. ground (arith, b id f)
read_faults-IsKeyed (g ∷ l) m b h =
    read_faults-IsKeyed l (put g.criterion_id g m)
      (λ id f q. ground (arith, b id f, get-put g.criterion_id id g m, text_iff g.criterion_id id))
      (ground arith)
