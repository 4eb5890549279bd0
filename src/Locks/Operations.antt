-- ===== src/Locks/Operations.antt =====
-- The operation text that `prepareLeaseTransition` writes, and that `parseLockOperation` reads it back.
use kratos_harness.Common.{
  ℕ, ◌≤◌, ◌≡◌, refl, Bool, true, ◌&&◌, not, List, [], ◌∷◌, ◌++◌, some, text_beq, Text, codes, arith,
  all, is_digit, split, ap, ◌∙◌, Bool-cases, inl, inr, ◌==◌, nat_eq, text_eq, ok,
}
use kratos_harness.Locks.Model.{Action}
use kratos_harness.Locks.Decimal.{decimal, number-decimal, is_token-decimal}
use kratos_harness.Locks.Lifecycle.{
  is_hex, parse_action, is_token, is_digest, parse_token, parse_parts, parse_lock_operation,
}

unfoldable pub action_name : Action → Text
action_name Action.acquire = codes "acquire"
action_name Action.renew = codes "renew"
action_name Action.release = codes "release"
action_name Action.takeover = codes "takeover"

-- `lock.${action}.t${String(token)}.d${digest}`
unfoldable pub lock_operation : Action → ℕ → Text → Text
lock_operation action token digest =
    codes "lock."
    ++ (action_name action ++ (codes ".t" ++ (decimal token ++ (codes ".d" ++ digest))))

abbrev is_dotless : Text → Bool
is_dotless [] = true
is_dotless (c ∷ s) = not (c == b'.') && is_dotless s

split_parts_more :
    (c : ℕ) (s part : Text) (parts : List Text)
    → split b'.' s ≡ part ∷ parts
    → (first : Text) × (rest : List Text) × (split b'.' (c ∷ s) ≡ first ∷ rest)
unfolding split
split_parts_more c s part parts h = elim (Bool-cases (c == b'.')) [
  | inl yes_ ↦ ([], part ∷ parts, rw h (rw yes_ refl))
  | inr no_ ↦ (c ∷ part, parts, rw h (rw no_ refl))
]

-- Splitting gives a first part.
split_parts : (s : Text) → (part : Text) × (parts : List Text) × (split b'.' s ≡ part ∷ parts)
unfolding split
split_parts [] = ([], [], refl)
split_parts (c ∷ s) = let (part, parts, h) = split_parts s in split_parts_more c s part parts h

split-dot : (s t : Text) → is_dotless s ≡ true → split b'.' (s ++ b'.' ∷ t) ≡ s ∷ split b'.' t
unfolding split
split-dot [] t h = let (part, parts, e) = split_parts t in rw e refl
split-dot (c ∷ s) t h = elim (Bool-cases (c == b'.')) [
  | inl yes_ ↦ ground arith
  | inr no_ ↦ rw (split-dot s t (ground arith)) (rw no_ refl)
]

split-last : (s : Text) → is_dotless s ≡ true → split b'.' s ≡ s ∷ []
unfolding split
split-last [] h = refl
split-last (c ∷ s) h = elim (Bool-cases (c == b'.')) [
  | inl yes_ ↦ ground arith
  | inr no_ ↦ rw (split-last s (ground arith)) (rw no_ refl)
]

digits-is_dotless : (s : Text) → all is_digit s ≡ true → is_dotless s ≡ true
digits-is_dotless [] h = refl
digits-is_dotless (c ∷ s) h = ground (arith, digits-is_dotless s)

hex-is_dotless : (s : Text) → all is_hex s ≡ true → is_dotless s ≡ true
hex-is_dotless [] h = refl
hex-is_dotless (c ∷ s) h = ground (arith, hex-is_dotless s)

is_token-is_dotless : (s : Text) → is_token s ≡ true → is_dotless s ≡ true
unfolding is_token
is_token-is_dotless [] h = refl
is_token-is_dotless (c ∷ []) h = ground arith
is_token-is_dotless (c ∷ d ∷ s) h = ground (arith, digits-is_dotless (d ∷ s))

is_digest-is_dotless : (s : Text) → is_digest s ≡ true → is_dotless s ≡ true
unfolding is_digest
is_digest-is_dotless s h = hex-is_dotless s (ground arith)

-- The parts of an operation after its action
split-token :
    (token digest : Text)
    → is_dotless token ≡ true
    → is_dotless digest ≡ true
    → split b'.' (b't' ∷ token ++ (codes ".d" ++ digest)) ≡ (b't' ∷ token) ∷ (b'd' ∷ digest) ∷ []
split-token token digest h k =
    split-dot (b't' ∷ token) (b'd' ∷ digest) h
    ∙ ap (◌∷◌ (b't' ∷ token)) (split-last (b'd' ∷ digest) k)

action_name-is_dotless : (action : Action) → is_dotless (action_name action) ≡ true
unfolding action_name
action_name-is_dotless Action.acquire = refl
action_name-is_dotless Action.renew = refl
action_name-is_dotless Action.release = refl
action_name-is_dotless Action.takeover = refl

split-lock_operation :
    (action : Action) (token : ℕ) (digest : Text)
    → is_digest digest ≡ true
    → split b'.' (lock_operation action token digest)
      ≡ codes "lock" ∷ action_name action ∷ (b't' ∷ decimal token) ∷ (b'd' ∷ digest) ∷ []
unfolding lock_operation
split-lock_operation action token digest h =
    let rest = b't' ∷ decimal token ++ (codes ".d" ++ digest) in
    let name = action_name action in
    split-dot (codes "lock") (name ++ b'.' ∷ rest) refl
    ∙ ap (◌∷◌ (codes "lock")) (
        split-dot name rest (action_name-is_dotless action)
        ∙ ap (◌∷◌ name) (
            split-token (decimal token) digest
              (is_token-is_dotless (decimal token) (is_token-decimal token))
              (is_digest-is_dotless digest h)))

parse_action-action_name : (action : Action) → parse_action (action_name action) ≡ some action
unfolding parse_action action_name text_beq
parse_action-action_name Action.acquire = refl
parse_action-action_name Action.renew = refl
parse_action-action_name Action.release = refl
parse_action-action_name Action.takeover = refl

parse_token-decimal :
    (action : Action) (token : ℕ) (digest : Text)
    → token ≤ 9007199254740991
    → is_digest digest ≡ true
    → parse_token action (b't' ∷ decimal token) (b'd' ∷ digest)
      ≡ ok (record { action = action; token = token; digest = digest })
unfolding parse_token
parse_token-decimal action token digest le h =
    rw (number-decimal token) (ground (arith, is_token-decimal token))

-- The operation that an event records is read back as it was written: its action, its token, up to
-- the largest safe integer, and its digest, when that has the form of one.
pub parse_lock_operation-lock_operation :
    (action : Action) (token : ℕ) (digest : Text)
    → token ≤ 9007199254740991
    → is_digest digest ≡ true
    → parse_lock_operation (lock_operation action token digest)
      ≡ ok (record { action = action; token = token; digest = digest })
unfolding parse_lock_operation parse_parts text_beq
parse_lock_operation-lock_operation action token digest le h =
    rw (split-lock_operation action token digest h)
      (rw (parse_action-action_name action) (parse_token-decimal action token digest le h))
