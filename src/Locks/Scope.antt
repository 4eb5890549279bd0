-- ===== src/Locks/Scope.antt =====
-- locks/scope.ts: where a lease is kept, who may own it, and how its time is classified.
use Prim.Native.Nat.{bit_or}
use kratos_harness.Common.{
  ℕ, ◌+◌, ◌*◌, ◌/◌, ◌%◌, Bool, false, ◌&&◌, ◌||◌, not, List, [], ◌∷◌, ◌++◌, Option, none, some,
  Text, codes, leb, ltb, all, length, is_alphanumeric, starts_with, split, get_elem?, if◌then◌else◌,
  ◌==◌, nat_eq, text_eq, Result, ok, err,
}
use kratos_harness.Grammar.{is_id}
use kratos_harness.Locks.Model.{
  Date, TimeState, PolicyError, lease_skew_ms, min_lease_ttl_ms, max_lease_ttl_ms,
}

abbrev pub base64url : Text
base64url = codes "ABCDEFGHIJKLMNOPQRSTUVWXYZabcdefghijklmnopqrstuvwxyz0123456789-_"

-- `base64url.charAt(n)`, empty beyond the alphabet
unfoldable pub char_at : ℕ → Text
char_at n = elim (get_elem? base64url n) [ none ↦ [] | some c ↦ c ∷ [] ]

-- `((first & 0x03) << 4) | (second >> 4)` and `((second & 0x0f) << 2) | (third >> 6)`
abbrev pub second_digit : ℕ → ℕ → ℕ
second_digit first second = bit_or (first % 4 * 16) (second / 16)

abbrev pub third_digit : ℕ → ℕ → ℕ
third_digit second third = bit_or (second % 16 * 4) (third / 64)

-- `encodeRunId`, a round of its loop for each clause
unfoldable pub encode_run_id : Text → Text
encode_run_id [] = []
encode_run_id (a ∷ []) = char_at (a / 4) ++ char_at (second_digit a 0)
encode_run_id (a ∷ b ∷ []) =
    char_at (a / 4) ++ (char_at (second_digit a b) ++ char_at (third_digit b 0))
encode_run_id (a ∷ b ∷ c ∷ s) =
    char_at (a / 4)
    ++ (char_at (second_digit a b)
        ++ (char_at (third_digit b c) ++ (char_at (c % 64) ++ encode_run_id s)))

pub record LockPaths : Type 0 where
  pub root : Text
  pub lease : Text
  pub events : Text
  pub claim : Text
  pub claim_record : Text
  pub admission_claim : Text
  pub admission_record : Text

abbrev pub drop_four : Text → Text
drop_four (a ∷ b ∷ c ∷ d ∷ s) = s
drop_four _ = []

-- The `root` of `lockPaths`
unfoldable pub lock_root : Text → Option Text
lock_root input =
    if input == codes "project"
    then some (codes ".brain/locks/project")
    else if starts_with input (codes "run:") && is_id (drop_four input)
    then some (codes ".brain/locks/runs/" ++ encode_run_id (drop_four input))
    else none

-- `lockPaths`
unfoldable pub lock_paths : Text → Result PolicyError LockPaths
lock_paths input = elim (lock_root input) [
  | none ↦ err PolicyError.invalid_input
  | some root ↦ ok (record {
    root = root;
    lease = root ++ codes "/lease.json";
    events = root ++ codes "/events.jsonl";
    claim = root ++ codes "/claim";
    claim_record = root ++ codes "/claim/claim.json";
    admission_claim = codes ".brain/locks/.admission/claim";
    admission_record = codes ".brain/locks/.admission/claim/claim.json";
  })
]

-- `/^[A-Za-z0-9][A-Za-z0-9._-]{0,62}$/u`
unfoldable pub is_owner_part : Text → Bool
is_owner_part [] = false
is_owner_part (c ∷ s) =
    is_alphanumeric c
    && all (λ d. is_alphanumeric d || d == b'.' || d == b'_' || d == b'-') s
    && leb (length s) 62

-- The two parts that `parseOwner` tests.
abbrev owner_parts : List Text → Bool
owner_parts (host ∷ session ∷ []) = is_owner_part host && is_owner_part session
owner_parts _ = false

-- `parseOwner`, of which the policy uses only that it throws
unfoldable pub parse_owner : Text → Result PolicyError Text
parse_owner value =
    if owner_parts (split b':' value) then ok value else err PolicyError.invalid_input

-- `Number.MAX_SAFE_INTEGER`
abbrev pub max_safe_integer : ℕ
max_safe_integer = 9007199254740991

-- `validateTtl`
unfoldable pub validate_ttl : ℕ → Result PolicyError ℕ
validate_ttl ttl =
    if not (leb ttl max_safe_integer) || ltb ttl min_lease_ttl_ms || ltb max_lease_ttl_ms ttl
    then err PolicyError.invalid_input
    else ok ttl

-- `classifyLeaseTime`
unfoldable pub classify_lease_time : Date → Date → Result PolicyError TimeState
classify_lease_time (some current) (some expiry) = ok (
    if ltb current expiry
    then TimeState.writable
    else if ltb current (expiry + lease_skew_ms)
    then TimeState.skew
    else TimeState.takeover_eligible)
classify_lease_time none expiry = err PolicyError.invalid_input
classify_lease_time (some current) none = err PolicyError.invalid_input
