-- ===== src/Locks/Decimal.antt =====
-- `String` of a natural number, and that `Number` reads it back.
use kratos_harness.Common.{
  ℕ, zero, suc, ◌+◌, ◌/◌, ◌%◌, ◌<◌, ◌≡◌, refl, true, [], ◌∷◌, Text, arith, ltb, all, is_digit,
  if◌then◌else◌, nat_eq,
}
use kratos_harness.Locks.Lifecycle.{number_from, number, is_token}

abbrev digit : ℕ → ℕ
digit n = b'0' + n % 10

-- The digits of `n` before the text; fuel above `n` is enough, since each round divides by ten.
unfoldable pub decimal_at : ℕ → ℕ → Text → Text
decimal_at zero n s = s
decimal_at (suc fuel) n s =
    let more = decimal_at fuel (n / 10) (digit n ∷ s) in if ltb n 10 then digit n ∷ s else more

-- `String(n)`
unfoldable pub decimal : ℕ → Text
unfolding decimal_at
decimal n = decimal_at (suc n) n []

number_from-decimal_at :
    (fuel n : ℕ) (s : Text) → n < fuel → number_from 0 (decimal_at fuel n s) ≡ number_from n s
unfolding decimal_at number_from
number_from-decimal_at zero n s h = ground arith
number_from-decimal_at (suc fuel) n s h =
    grind (arith, number_from-decimal_at fuel (n / 10) (digit n ∷ s))

pub number-decimal : (n : ℕ) → number (decimal n) ≡ n
unfolding number decimal number_from
number-decimal n = number_from-decimal_at (suc n) n [] (omega arith)

is_token-decimal_at :
    (fuel n : ℕ) (s : Text)
    → n < fuel
    → 0 < n
    → all is_digit s ≡ true
    → is_token (decimal_at fuel n s) ≡ true
unfolding decimal_at is_token
is_token-decimal_at zero n s h p d = ground arith
is_token-decimal_at (suc fuel) n s h p d =
    grind (arith, is_token-decimal_at fuel (n / 10) (digit n ∷ s))

pub is_token-decimal : (n : ℕ) → is_token (decimal n) ≡ true
unfolding decimal decimal_at is_token
is_token-decimal zero = refl
is_token-decimal (suc n) =
    is_token-decimal_at (suc (suc n)) (suc n) [] (omega arith) (omega arith) refl
