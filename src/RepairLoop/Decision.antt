-- ===== src/RepairLoop/Decision.antt =====
-- `decideRepairLoop` (repair-loop/decision.ts), one function to a loop of it. A `return refused(…)`
-- inside a loop is an error of the loop's result.
use kratos_harness.Common.{
  ℕ, ◌+◌, Bool, true, false, ◌&&◌, ◌||◌, not, List, [], ◌∷◌, ◌++◌, Option, none, some, Text, leb,
  ltb, if◌then◌else◌, length, any, is_empty, is_control, trim, Result, ok, err, get, has, put, ◌==◌,
  text_eq, includes, get_or, filter, ◌>>=◌, Thrown, error, codes,
}
use kratos_harness.Criterion.{is_acceptance_criterion_id}
use kratos_harness.RepairLoop.Model.{
  CriterionOutcome, Classification, Attempt, Criterion, Fault, Stop, Candidate, Reason, Decision,
}

-- `Number.MAX_SAFE_INTEGER`
abbrev pub max_safe_integer : ℕ
max_safe_integer = 9007199254740991

unfoldable pub valid_positive_integer : ℕ → Bool
valid_positive_integer value = leb value max_safe_integer && ltb 0 value

abbrev pub is_known : Classification → Bool
is_known (Classification.other _) = false
is_known _ = true

abbrev pub is_failed : CriterionOutcome → Bool
is_failed CriterionOutcome.failed = true
is_failed _ = false

abbrev pub is_judged : CriterionOutcome → Bool
is_judged (CriterionOutcome.other _) = false
is_judged _ = true

unfoldable pub valid_fault : Fault → Bool
valid_fault fault =
    is_acceptance_criterion_id fault.criterion_id
    && is_known fault.classification
    && not (is_empty (trim fault.diagnosis))
    && leb (length fault.diagnosis) 2048
    && not (any is_control fault.diagnosis)

-- What a loop refuses with.
abbrev pub Refusal : Type 0
Refusal = Reason × Option Text

-- The loop over `candidate.attempts`, which fills the map `prior`.
unfoldable pub read_attempts : ℕ → List Attempt → List (Text × ℕ) → Result Refusal (List (Text × ℕ))
read_attempts ceiling [] prior = ok prior
read_attempts ceiling (a ∷ rest) prior =
    let continued = read_attempts ceiling rest (put a.criterion_id a.attempt prior) in
    if not (is_acceptance_criterion_id a.criterion_id) || not (valid_positive_integer a.attempt)
    then err (Reason.invalid_attempt, some a.criterion_id)
    else if has a.criterion_id prior
    then err (Reason.duplicate_criterion, some a.criterion_id)
    else if leb ceiling a.attempt
    then err (Reason.active_stop, some a.criterion_id)
    else continued

-- The loop over `candidate.criteria`, which fills the set `criteria`.
unfoldable pub read_criteria : List Criterion → List Text → Result Refusal (List Text)
read_criteria [] seen = ok seen
read_criteria (c ∷ rest) seen =
    let continued = read_criteria rest (seen ++ c.criterion_id ∷ []) in
    if not (is_acceptance_criterion_id c.criterion_id) || not (is_judged c.outcome)
    then err (Reason.invalid_criterion, some c.criterion_id)
    else if includes seen c.criterion_id
    then err (Reason.duplicate_criterion, some c.criterion_id)
    else continued

-- The loop over `candidate.faults`, which fills the map `faults`.
unfoldable pub read_faults : List Fault → List (Text × Fault) → Result Refusal (List (Text × Fault))
read_faults [] faults = ok faults
read_faults (f ∷ rest) faults =
    let continued = read_faults rest (put f.criterion_id f faults) in
    if not (valid_fault f)
    then err (Reason.invalid_fault, some f.criterion_id)
    else if has f.criterion_id faults
    then err (Reason.invalid_fault, some f.criterion_id)
    else continued

-- The `flatMap` over the criteria: one more attempt for each that failed.
unfoldable pub next_attempts : List (Text × ℕ) → List Criterion → List Attempt
next_attempts prior [] = []
next_attempts prior (c ∷ rest) =
    let later = next_attempts prior rest in
    if is_failed c.outcome
    then record { criterion_id = c.criterion_id; attempt = get_or (get c.criterion_id prior) 0 + 1 }
      ∷ later
    else later

-- The attempts that reach the ceiling.
abbrev pub tripping : ℕ → List Attempt → List Attempt
tripping ceiling = filter (λ a. leb ceiling a.attempt)

-- The first tripping attempt without a fault, if there is one.
unfoldable pub missing_fault : List (Text × Fault) → List Attempt → Option Text
missing_fault faults [] = none
missing_fault faults (a ∷ rest) =
    if not (has a.criterion_id faults) then some a.criterion_id else missing_fault faults rest

-- The first fault whose criterion trips nothing, if there is one.
unfoldable pub unexpected_fault : List Attempt → List Fault → Option Text
unexpected_fault trips [] = none
unexpected_fault trips (f ∷ rest) =
    if not (any (λ a. a.criterion_id == f.criterion_id) trips)
    then some f.criterion_id
    else unexpected_fault trips rest

-- The stops, one for each tripping attempt.
unfoldable pub stops_of : List (Text × Fault) → List Attempt → Result Thrown (List Stop)
stops_of faults [] = ok []
stops_of faults (a ∷ rest) = do
  fault ← elim (get a.criterion_id faults) [
    | none ↦ err (error (codes "Missing validated fault"))
    | some f ↦ ok f
  ]
  stops ← stops_of faults rest
  ok (
      record {
        criterion_id = fault.criterion_id;
        classification = fault.classification;
        diagnosis = fault.diagnosis;
        attempt = a.attempt;
      }
      ∷ stops)

-- The end of `decideRepairLoop`, after the three loops.
unfoldable pub decide_verdict :
    Candidate → List (Text × ℕ) → List (Text × Fault) → Result Thrown Decision
decide_verdict candidate prior faults =
    let attempts = next_attempts prior candidate.criteria in
    let trips = tripping candidate.attempt_ceiling attempts in
    let stopping : Result Thrown Decision = (do
      stops ← stops_of faults trips
      ok (Decision.stopped attempts stops)) in
    if is_empty attempts
    then ok (elim candidate.faults [
      | [] ↦ Decision.passed candidate.attempts
      | unexpected ∷ _ ↦ Decision.refused Reason.unexpected_fault (some unexpected.criterion_id)
    ])
    else elim (missing_fault faults trips) [
      | some id ↦ ok (Decision.refused Reason.missing_fault (some id))
      | none ↦ elim (unexpected_fault trips candidate.faults) [
        | some id ↦ ok (Decision.refused Reason.unexpected_fault (some id))
        | none ↦ if is_empty trips then ok (Decision.repair attempts) else stopping
      ]
    ]

-- A refusal of one of the loops ends the decision.
abbrev pub or_refuse {ℓ} :
    {A : Type ℓ} → Result Refusal A → (A → Result Thrown Decision) → Result Thrown Decision
or_refuse (err (reason, id)) k = ok (Decision.refused reason id)
or_refuse (ok a) k = k a

-- `decideRepairLoop`
unfoldable pub decide_repair_loop : Candidate → Result Thrown Decision
decide_repair_loop candidate =
    if not (valid_positive_integer candidate.attempt_ceiling)
    then ok (Decision.refused Reason.invalid_ceiling none)
    else or_refuse (read_attempts candidate.attempt_ceiling candidate.attempts []) λ prior.
      or_refuse (read_criteria candidate.criteria []) λ _.
        or_refuse (read_faults candidate.faults []) λ faults. decide_verdict candidate prior faults
