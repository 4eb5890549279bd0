-- ===== src/Locks/Lifecycle.antt =====
-- locks/lifecycle.ts: the order and the tokens that the events of a lease must have.
use kratos_harness.Common.{
  ℕ, ◌+◌, ◌*◌, ◌-◌, Bool, true, false, ◌&&◌, ◌||◌, not, List, [], ◌∷◌, Option, none, some, Text,
  codes, leb, ltb, all, length, is_digit, is_empty, split, if◌then◌else◌, ◌==◌, nat_eq, text_eq,
  Result, ok, err, ◌>>=◌, ◌>>◌, require,
}
use kratos_harness.Locks.Model.{Action}
use kratos_harness.Locks.Scope.{max_safe_integer}

-- `LeaseIntegrityError`
pub data IntegrityError : Type 0 where
  integrity : IntegrityError

abbrev pub opens_epoch : Action → Bool
opens_epoch Action.acquire = true
opens_epoch Action.takeover = true
opens_epoch _ = false

-- `validateTokenTransition`
unfoldable pub validate_token_transition : Action → ℕ → ℕ → Result IntegrityError (Unit {0})
validate_token_transition action prior next =
    let expected = if opens_epoch action then prior + 1 else prior in
    if not (leb prior max_safe_integer)
      || not (leb next max_safe_integer)
      || not (leb expected max_safe_integer)
      || not (next == expected)
    then err IntegrityError.integrity
    else ok tt

-- `allowed` of `validateActionOrder`
unfoldable pub is_allowed : Action → Option Action → Bool
is_allowed Action.acquire none = true
is_allowed _ none = false
is_allowed Action.acquire (some Action.release) = true
is_allowed Action.acquire (some _) = false
is_allowed _ (some Action.release) = false
is_allowed _ (some _) = true

-- `validateActionOrder`
unfoldable pub validate_action_order : Action → Option Action → Result IntegrityError (Unit {0})
validate_action_order action previous =
    require (is_allowed action previous) IntegrityError.integrity

-- The first group of `LOCK_OPERATION_PATTERN`
unfoldable pub parse_action : Text → Option Action
parse_action s =
    if s == codes "acquire"
    then some Action.acquire
    else if s == codes "renew"
    then some Action.renew
    else if s == codes "release"
    then some Action.release
    else if s == codes "takeover"
    then some Action.takeover
    else none

-- `(0|[1-9][0-9]*)`
unfoldable pub is_token : Text → Bool
is_token [] = false
is_token (c ∷ s) = (c == b'0' && is_empty s) || (ltb b'0' c && leb c b'9' && all is_digit s)

-- `[a-f0-9]{64}`
abbrev pub is_hex : ℕ → Bool
is_hex c = is_digit c || (leb b'a' c && leb c b'f')

unfoldable pub is_digest : Text → Bool
is_digest s = all is_hex s && length s == 64

-- `Number` of a text of digits, after the digits read
unfoldable pub number_from : ℕ → Text → ℕ
number_from n [] = n
number_from n (c ∷ s) = number_from (n * 10 + (c - b'0')) s

unfoldable pub number : Text → ℕ
unfolding number_from
number s = number_from 0 s

-- The result of `parseLockOperation`
pub record Operation : Type 0 where
  pub action : Action
  pub token : ℕ
  pub digest : Text

-- What stands behind the action: the `t` and its token, the `d` and its digest.
unfoldable pub parse_token : Action → Text → Text → Result IntegrityError Operation
parse_token action (t ∷ token) (d ∷ digest) =
    if t == b't'
      && is_token token
      && (d == b'd' && is_digest digest)
      && leb (number token) max_safe_integer
    then ok (record { action = action; token = number token; digest = digest })
    else err IntegrityError.integrity
parse_token action _ _ = err IntegrityError.integrity

-- The four parts of an operation between its three dots: no group of the pattern has a dot.
unfoldable pub parse_parts : List Text → Result IntegrityError Operation
parse_parts (lock ∷ action ∷ token ∷ digest ∷ []) =
    if lock == codes "lock"
    then elim (parse_action action) [
      | none ↦ err IntegrityError.integrity
      | some a ↦ parse_token a token digest
    ]
    else err IntegrityError.integrity
parse_parts _ = err IntegrityError.integrity

-- `parseLockOperation`
unfoldable pub parse_lock_operation : Text → Result IntegrityError Operation
parse_lock_operation operation = parse_parts (split b'.' operation)

-- The fields of an event that `validateLifecycleEvents` reads
pub record LockEvent : Type 0 where
  pub operation : Text
  pub event_type : Text
  pub policy_version : Text
  pub reason_code : Text
  pub effect : Text
  pub artifact_refs : List Text
  pub evidence_refs : List Text

-- `eventType` of `LOCK_EVENT_FACTS`; the reason and the effect are the same for all actions.
unfoldable pub fact_event_type : Action → Text
fact_event_type Action.takeover = codes "recovery"
fact_event_type _ = codes "operation"

abbrev pub is_only : Text → List Text → Bool
is_only ref (x ∷ []) = x == ref
is_only ref _ = false

-- The test of an event against the facts of its action and the lease it is about.
unfoldable pub matches_fact : Action → Text → LockEvent → Bool
matches_fact action lease_ref event =
    event.event_type == fact_event_type action
    && event.policy_version == codes "locks-v1"
    && event.reason_code == codes "trail.ok"
    && event.effect == codes "state"
    && is_only lease_ref event.artifact_refs
    && is_empty event.evidence_refs

-- What the loop of `validateLifecycleEvents` carries: `previousAction` (and `finalAction`, which is
-- always the same) and `previousToken`.
pub record Progress : Type 0 where
  pub previous_action : Option Action
  pub previous_token : ℕ

-- A round of the loop
unfoldable pub validate_event : Text → Progress → LockEvent → Result IntegrityError Progress
validate_event lease_ref progress event = do
  parsed ← parse_lock_operation event.operation
  validate_action_order parsed.action progress.previous_action
  validate_token_transition parsed.action progress.previous_token parsed.token
  require (matches_fact parsed.action lease_ref event) IntegrityError.integrity
  ok (record { previous_action = some parsed.action; previous_token = parsed.token })

unfoldable pub validate_events : Text → Progress → List LockEvent → Result IntegrityError Progress
validate_events lease_ref progress [] = ok progress
validate_events lease_ref progress (event ∷ events) = do
  next ← validate_event lease_ref progress event
  validate_events lease_ref next events

abbrev pub no_progress : Progress
no_progress = record { previous_action = none; previous_token = 0 }

-- `validateLifecycleEvents`
unfoldable pub validate_lifecycle_events : List LockEvent → Text → Result IntegrityError Action
validate_lifecycle_events events lease_ref = do
  final ← validate_events lease_ref no_progress events
  elim final.previous_action [ none ↦ err IntegrityError.integrity | some action ↦ ok action ]
