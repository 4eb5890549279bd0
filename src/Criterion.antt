-- ===== src/Criterion.antt =====
-- The identifier of an acceptance criterion (packages/contracts/src/acceptance-criteria.ts), with
-- the pattern and the length of schemas/contracts/acceptance-criterion-id.v1.schema.json.
use kratos_harness.Common.{
  ℕ, Bool, true, false, ◌&&◌, [], ◌∷◌, Text, is_digit, leb, length, ◌==◌, nat_eq,
}

-- `\d*`, with the continuation `k` on what follows the longest run of digits.
past_digits : (Text → Bool) → Text → Bool
past_digits k [] = k []
past_digits k (c ∷ s) = elim (is_digit c) [ true ↦ past_digits k s | false ↦ k (c ∷ s) ]

-- `\d+`
some_digits : (Text → Bool) → Text → Bool
unfolding past_digits
some_digits k [] = false
some_digits k (c ∷ s) = is_digit c && past_digits k s

-- `\.`
after_dot : (Text → Bool) → Text → Bool
after_dot k [] = false
after_dot k (c ∷ s) = c == b'.' && k s

-- `$`
at_end : Text → Bool
at_end [] = true
at_end (c ∷ s) = false

-- `E?\d+$`
criterion_number : Text → Bool
unfolding some_digits at_end
criterion_number [] = false
criterion_number (c ∷ s) = elim (c == b'E') [
  | true ↦ some_digits at_end s
  | false ↦ some_digits at_end (c ∷ s)
]

-- `^AC-\d+\.\d+\.E?\d+$`
matches_criterion_pattern : Text → Bool
unfolding some_digits after_dot criterion_number
matches_criterion_pattern (a ∷ c ∷ d ∷ s) =
    a == b'A'
    && c == b'C'
    && d == b'-'
    && some_digits (after_dot (some_digits (after_dot criterion_number))) s
matches_criterion_pattern _ = false

abbrev max_length : ℕ
max_length = 128

-- `isAcceptanceCriterionId`
unfoldable pub is_acceptance_criterion_id : Text → Bool
unfolding matches_criterion_pattern
is_acceptance_criterion_id value = leb (length value) max_length && matches_criterion_pattern value
