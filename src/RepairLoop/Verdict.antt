-- ===== src/RepairLoop/Verdict.antt =====
-- `decideRepairLoop` as a whole: it never throws, and what it decides is canonical for the reducer.
use kratos_harness.Common.{
  ℕ, ◌≡◌, refl, ◌⊎◌, inl, inr, true, List, [], ◌∷◌, none, Text, arith, Bool-cases, nat_eq, text_eq,
  Result, ok, err, Thrown, returns,
}
use kratos_harness.RepairLoop.Model.{Attempt, Fault, Candidate, Reason, Decision}
use kratos_harness.RepairLoop.Decision.{
  Refusal, read_attempts, read_criteria, read_faults, valid_positive_integer, next_attempts,
  tripping, missing_fault, stops_of, decide_verdict, or_refuse, decide_repair_loop,
}

-- Where no tripping attempt lacks its fault, every stop is found.
stops_of_found :
    (faults : List (Text × Fault)) (trips : List Attempt) (e : Thrown)
    → missing_fault faults trips ≡ none
    → stops_of faults trips ≡ err e
    → ⊥
unfolding missing_fault stops_of
stops_of_found faults [] e h q = cc
stops_of_found faults (a ∷ trips) e h q = ground (arith, stops_of_found faults trips e)

decide_verdict_quiet :
    (c : Candidate) (prior : List (Text × ℕ)) (faults : List (Text × Fault)) (e : Thrown)
    → decide_verdict c prior faults ≡ err e
    → ⊥
unfolding decide_verdict
decide_verdict_quiet c prior faults e h =
    ground
      (arith, stops_of_found faults (tripping c.attempt_ceiling (next_attempts prior c.criteria)) e)

or_refuse_quiet {ℓ} :
    {A : Type ℓ} (m : Result Refusal A) (k : A → Result Thrown Decision) (e : Thrown)
    → ((a : A) → k a ≡ err e → ⊥)
    → or_refuse m k ≡ err e
    → ⊥
or_refuse_quiet (ok a) k e h q = h a q
or_refuse_quiet (err (reason, id)) k e h q = cc

or_refuse-eq-ok {ℓ} :
    {A : Type ℓ} (m : Result Refusal A) (k : A → Result Thrown Decision) (d : Decision)
    → or_refuse m k ≡ ok d
    → ((r : Refusal) × (d ≡ Decision.refused r.0 r.1)) ⊎ ((a : A) × (m ≡ ok a) × (k a ≡ ok d))
or_refuse-eq-ok (ok a) k d h = inr (a, refl, h)
or_refuse-eq-ok (err (reason, id)) k d h = inl ((reason, id), ground arith)

decide_repair_loop_quiet : (c : Candidate) (e : Thrown) → decide_repair_loop c ≡ err e → ⊥
unfolding decide_repair_loop
decide_repair_loop_quiet c e h = elim (Bool-cases (valid_positive_integer c.attempt_ceiling)) [
  | inl valid ↦
      or_refuse_quiet (read_attempts c.attempt_ceiling c.attempts []) _ e
        (λ prior. or_refuse_quiet (read_criteria c.criteria []) _ e (λ _.
          or_refuse_quiet (read_faults c.faults []) _ e
            (λ faults. decide_verdict_quiet c prior faults e)))
        (rw valid at h)
  | inr invalid ↦ ground (arith, invalid)
]

-- The decision is total: it returns on every candidate, so the error that it ends with, for a stop
-- whose fault is missing, is never thrown.
pub decide_repair_loop_total : (c : Candidate) → (d : Decision) × (decide_repair_loop c ≡ ok d)
decide_repair_loop_total c = returns (decide_repair_loop c) (decide_repair_loop_quiet c)

-- What a decision that is no refusal rests on.
pub record IsDecided (c : Candidate) (d : Decision) : Type 0 where
  pub prior : List (Text × ℕ)
  pub seen : List Text
  pub faults : List (Text × Fault)
  pub ceiling : valid_positive_integer c.attempt_ceiling ≡ true
  pub attempts : read_attempts c.attempt_ceiling c.attempts [] ≡ ok prior
  pub criteria : read_criteria c.criteria [] ≡ ok seen
  pub classified : read_faults c.faults [] ≡ ok faults
  pub verdict : decide_verdict c prior faults ≡ ok d

pub decide_repair_loop-IsDecided :
    (c : Candidate) (d : Decision)
    → decide_repair_loop c ≡ ok d
    → ((r : Refusal) × (d ≡ Decision.refused r.0 r.1)) ⊎ IsDecided c d
unfolding decide_repair_loop
decide_repair_loop-IsDecided c d h = elim (Bool-cases (valid_positive_integer c.attempt_ceiling)) [
  | inr invalid ↦ inl ((Reason.invalid_ceiling, none), ground (arith, invalid))
  | inl valid ↦
      elim (or_refuse-eq-ok (read_attempts c.attempt_ceiling c.attempts []) _ d (rw valid at h)) [
        | inl refusal ↦ inl refusal
        | inr (prior, p, h1) ↦ elim (or_refuse-eq-ok (read_criteria c.criteria []) _ d h1) [
          | inl refusal ↦ inl refusal
          | inr (seen, q, h2) ↦ elim (or_refuse-eq-ok (read_faults c.faults []) _ d h2) [
            | inl refusal ↦ inl refusal
            | inr (faults, r, h3) ↦ inr (record {
              prior = prior;
              seen = seen;
              faults = faults;
              ceiling = valid;
              attempts = p;
              criteria = q;
              classified = r;
              verdict = h3;
            })
          ]
        ]
      ]
]
