-- ===== src/Locks/RunIds.antt =====
-- `encodeRunId` of locks/scope.ts: what it writes can be read back.
use Prim.Native.Nat.{bit_or}
use kratos_harness.Common.{
  ℕ, zero, suc, ◌+◌, ◌*◌, ◌/◌, ◌%◌, ◌-◌, ◌<◌, ◌≡◌, refl, ap, Bool, Bool-cases, true, false, ◌&&◌,
  [], ◌∷◌, Option, some, none, Text, arith, ltb, leb, all, get_elem?, if◌then◌else◌, ◌==◌, nat_eq,
  nat_beq_iff, subst, inl, inr, text_eq,
}
use kratos_harness.Locks.Scope.{base64url, char_at, second_digit, third_digit, encode_run_id}

-- Whether a test holds of every number below the first.
abbrev all_below : ℕ → (ℕ → Bool) → Bool
all_below zero p = true
all_below (suc n) p = p n && all_below n p

all_below-lt : (n : ℕ) (p : ℕ → Bool) (k : ℕ) → all_below n p ≡ true → k < n → p k ≡ true
all_below-lt zero p k h l = ground arith
all_below-lt (suc n) p k h l = elim (Bool-cases (k == n)) [
  | inl yes_ ↦ subst (λ m. p m ≡ true) {x = n} {y = k} (ground arith) (ground arith)
  | inr no_ ↦ all_below-lt n p k (ground arith) (ground arith)
]

cons_eq : {c d : ℕ} {s t : Text} → c ≡ d → s ≡ t → c ∷ s ≡ d ∷ t
cons_eq h k = cc

-- The number that a character of the alphabet stands for.
abbrev digit_value : ℕ → ℕ
digit_value c =
    if leb b'a' c
    then c - 71
    else if c == b'_'
    then 63
    else if leb b'A' c
    then c - 65
    else if c == b'-'
    then 62
    else c + 4

abbrev stands_for : Option ℕ → ℕ → Bool
stands_for none n = false
stands_for (some c) n = digit_value c == n

in_alphabet : (n : ℕ) → n < 64 → stands_for (get_elem? base64url n) n ≡ true
in_alphabet n l = all_below-lt 64 (λ n. stands_for (get_elem? base64url n) n) n refl l

second_or-eq : (x y : ℕ) → x < 4 → y < 16 → bit_or (x * 16) y ≡ x * 16 + y
second_or-eq x y h k = (nat_beq_iff (bit_or (x * 16) y) (x * 16 + y)).0 (
    all_below-lt 16 (λ y. bit_or (x * 16) y == x * 16 + y) y
      (all_below-lt 4 (λ x. all_below 16 (λ y. bit_or (x * 16) y == x * 16 + y)) x refl h) k)

third_or-eq : (x y : ℕ) → x < 16 → y < 4 → bit_or (x * 4) y ≡ x * 4 + y
third_or-eq x y h k = (nat_beq_iff (bit_or (x * 4) y) (x * 4 + y)).0 (
    all_below-lt 4 (λ y. bit_or (x * 4) y == x * 4 + y) y
      (all_below-lt 16 (λ x. all_below 4 (λ y. bit_or (x * 4) y == x * 4 + y)) x refl h) k)

second_digit-eq : (a b : ℕ) → b < 256 → second_digit a b ≡ a % 4 * 16 + b / 16
second_digit-eq a b h = second_or-eq (a % 4) (b / 16) (omega arith) (omega arith)

third_digit-eq : (b c : ℕ) → c < 256 → third_digit b c ≡ b % 16 * 4 + c / 64
third_digit-eq b c h = third_or-eq (b % 16) (c / 64) (omega arith) (omega arith)

digit_of :
    (o : Option ℕ) (n : ℕ)
    → stands_for o n ≡ true
    → (c : ℕ) × (elim o [ none ↦ [] | some c ↦ c ∷ [] ] ≡ c ∷ []) × (digit_value c ≡ n)
digit_of none n h = ground arith
digit_of (some c) n h = (c, refl, (nat_beq_iff (digit_value c) n).0 h)

-- A digit is written as one character, which stands for it.
char_at-digit : (n : ℕ) → n < 64 → (c : ℕ) × (char_at n ≡ c ∷ []) × (digit_value c ≡ n)
unfolding char_at
char_at-digit n l = digit_of (get_elem? base64url n) n (in_alphabet n l)

abbrev first_byte : ℕ → ℕ → ℕ
first_byte w x = digit_value w * 4 + digit_value x / 16

abbrev second_byte : ℕ → ℕ → ℕ
second_byte x y = digit_value x % 16 * 16 + digit_value y / 4

abbrev third_byte : ℕ → ℕ → ℕ
third_byte y z = digit_value y % 4 * 64 + digit_value z

-- The bytes that a text in base64url without padding stands for
unfoldable pub decode_run_id : Text → Text
decode_run_id (w ∷ x ∷ []) = first_byte w x ∷ []
decode_run_id (w ∷ x ∷ y ∷ []) = first_byte w x ∷ second_byte x y ∷ []
decode_run_id (w ∷ x ∷ y ∷ z ∷ s) =
    first_byte w x ∷ second_byte x y ∷ third_byte y z ∷ decode_run_id s
decode_run_id _ = []

abbrev pub is_byte : ℕ → Bool
is_byte c = ltb c 256

first_byte-eq :
    (w x a b : ℕ)
    → a < 256
    → b < 256
    → digit_value w ≡ a / 4
    → digit_value x ≡ second_digit a b
    → first_byte w x ≡ a
first_byte-eq w x a b h k u v = rw u (rw v (omega (arith, second_digit-eq a b k)))

second_byte-eq :
    (x y a b c : ℕ)
    → b < 256
    → c < 256
    → digit_value x ≡ second_digit a b
    → digit_value y ≡ third_digit b c
    → second_byte x y ≡ b
second_byte-eq x y a b c h k u v =
    rw u (rw v (omega (arith, second_digit-eq a b h, third_digit-eq b c k)))

third_byte-eq :
    (y z b c : ℕ)
    → c < 256
    → digit_value y ≡ third_digit b c
    → digit_value z ≡ c % 64
    → third_byte y z ≡ c
third_byte-eq y z b c h u v = rw u (rw v (omega (arith, third_digit-eq b c h)))

high_digit : (a : ℕ) → a < 256 → (w : ℕ) × (char_at (a / 4) ≡ w ∷ []) × (digit_value w ≡ a / 4)
high_digit a h = char_at-digit (a / 4) (omega arith)

middle_digit :
    (a b : ℕ)
    → b < 256
    → (x : ℕ) × (char_at (second_digit a b) ≡ x ∷ []) × (digit_value x ≡ second_digit a b)
middle_digit a b h = char_at-digit (second_digit a b) (omega (arith, second_digit-eq a b h))

low_digit :
    (b c : ℕ)
    → c < 256
    → (y : ℕ) × (char_at (third_digit b c) ≡ y ∷ []) × (digit_value y ≡ third_digit b c)
low_digit b c h = char_at-digit (third_digit b c) (omega (arith, third_digit-eq b c h))

-- Reading back what `encodeRunId` writes gives the text, when its characters have one byte.
pub decode_run_id-encode_run_id :
    (s : Text) → all is_byte s ≡ true → decode_run_id (encode_run_id s) ≡ s
unfolding decode_run_id encode_run_id
decode_run_id-encode_run_id [] h = refl
decode_run_id-encode_run_id (a ∷ []) h =
    let (w, ew, vw) = high_digit a (ground arith) in
    let (x, ex, vx) = middle_digit a 0 (omega arith) in
    rw ew (rw ex (ap (λ d. d ∷ []) (first_byte-eq w x a 0 (ground arith) (omega arith) vw vx)))
decode_run_id-encode_run_id (a ∷ b ∷ []) h =
    let (w, ew, vw) = high_digit a (ground arith) in
    let (x, ex, vx) = middle_digit a b (ground arith) in
    let (y, ey, vy) = low_digit b 0 (omega arith) in
    rw ew (
      rw ex (
        rw ey (
          cons_eq (first_byte-eq w x a b (ground arith) (ground arith) vw vx)
            (cons_eq (second_byte-eq x y a b 0 (ground arith) (omega arith) vx vy) refl))))
decode_run_id-encode_run_id (a ∷ b ∷ c ∷ s) h =
    let (w, ew, vw) = high_digit a (ground arith) in
    let (x, ex, vx) = middle_digit a b (ground arith) in
    let (y, ey, vy) = low_digit b c (ground arith) in
    let (z, ez, vz) = char_at-digit (c % 64) (omega arith) in
    rw ew (
      rw ex (
        rw ey (
          rw ez (
            cons_eq (first_byte-eq w x a b (ground arith) (ground arith) vw vx) (
              cons_eq (second_byte-eq x y a b c (ground arith) (ground arith) vx vy) (
                cons_eq (third_byte-eq y z b c (ground arith) vy vz)
                  (decode_run_id-encode_run_id s (ground arith))))))))
