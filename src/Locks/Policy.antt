-- ===== src/Locks/Policy.antt =====
-- locks/policy.ts: what an operation on a lease decides.
use kratos_harness.Common.{
  ℕ, ◌+◌, Bool, true, false, ◌&&◌, ◌||◌, not, Option, none, some, Text, codes, ◌++◌, leb, ltb,
  if◌then◌else◌, ◌==◌, nat_eq, text_eq, Result, ok, err, ◌>>=◌, ◌>>◌,
}
use kratos_harness.Locks.Model.{
  Date, Moment, TimeState, Action, Lease, Identity, Binding, PolicyError, Decision, year_limit,
}
use kratos_harness.Locks.Scope.{
  lock_paths, parse_owner, validate_ttl, classify_lease_time, max_safe_integer,
}

-- `validNow`: the moment that the timestamp denotes
unfoldable pub valid_now : Date → Result PolicyError Moment
valid_now none = err PolicyError.invalid_input
valid_now (some time) = if ltb time year_limit then ok time else err PolicyError.invalid_input

-- `validateLeaseId`
unfoldable pub validate_lease_id : Text → Result PolicyError (Unit {0})
validate_lease_id lease_id = do _ ← lock_paths (codes "run:" ++ lease_id); ok tt

-- `validRevision`
unfoldable pub valid_revision : ℕ → Result PolicyError ℕ
valid_revision value =
    if not (leb value max_safe_integer) then err PolicyError.invalid_input else ok value

-- `exactIdentity`
unfoldable pub exact_identity : Lease → Identity → Bool
exact_identity lease expected =
    lease.resource == expected.resource
    && lease.owner == expected.owner
    && lease.lease_id == expected.lease_id
    && lease.fencing_token == expected.fencing_token
    && lease.state_revision == expected.state_revision

-- `nextExpiry`, at the moment that `now` is
unfoldable pub next_expiry : Moment → ℕ → Result PolicyError Moment
next_expiry now ttl = do valid ← validate_ttl ttl; valid_now (some (now + valid))

-- `nextFencingToken`
unfoldable pub next_fencing_token : ℕ → Result PolicyError ℕ
next_fencing_token token =
    if not (leb token max_safe_integer) || leb max_safe_integer token
    then err PolicyError.invalid_transition
    else ok (token + 1)

-- `currentState`
unfoldable pub current_state : Binding → Moment → Result PolicyError TimeState
current_state current now = classify_lease_time (some now) (some current.lease.expires_at)

abbrev pub is_release : Action → Bool
is_release Action.release = true
is_release _ = false

abbrev pub is_writable : TimeState → Bool
is_writable TimeState.writable = true
is_writable _ = false

abbrev pub is_takeover_eligible : TimeState → Bool
is_takeover_eligible TimeState.takeover_eligible = true
is_takeover_eligible _ = false

-- `DecideAcquireInput`
pub record AcquireInput : Type 0 where
  pub now : Date
  pub current : Option Binding
  pub state_revision : ℕ
  pub resource : Text
  pub owner : Text
  pub lease_id : Text
  pub ttl_ms : ℕ

-- `decideAcquire`, the branch of a resource without a lease
unfoldable pub acquire_first : AcquireInput → Moment → ℕ → Result PolicyError Decision
acquire_first input acquired_at revision = do
  expires_at ← next_expiry acquired_at input.ttl_ms
  ok (
      Decision.transition Action.acquire (record {
        resource = input.resource;
        owner = input.owner;
        lease_id = input.lease_id;
        acquired_at = acquired_at;
        expires_at = expires_at;
        fencing_token = 1;
        state_revision = revision;
      }))

-- `decideAcquire`, the branch of a released lease
unfoldable pub acquire_released : AcquireInput → Lease → Moment → ℕ → Result PolicyError Decision
acquire_released input lease acquired_at revision =
    if not (lease.resource == input.resource) then err PolicyError.invalid_transition else (do
      expires_at ← next_expiry acquired_at input.ttl_ms
      token ← next_fencing_token lease.fencing_token
      ok (
          Decision.transition Action.acquire (record lease {
            owner = input.owner;
            lease_id = input.lease_id;
            acquired_at = acquired_at;
            expires_at = expires_at;
            fencing_token = token;
            state_revision = revision;
          })))

-- `decideAcquire`, the branch of a lease that is held
unfoldable pub acquire_held : Binding → Moment → Result PolicyError Decision
acquire_held current now = do
  state ← current_state current now
  ok (if is_takeover_eligible state then Decision.takeover_required else Decision.conflict)

-- `decideAcquire`, by what is there
unfoldable pub acquire_over :
    Option Binding → AcquireInput → Moment → ℕ → Result PolicyError Decision
acquire_over none input acquired_at revision = acquire_first input acquired_at revision
acquire_over (some current) input acquired_at revision =
    if is_release current.action
    then acquire_released input current.lease acquired_at revision
    else acquire_held current acquired_at

-- `decideAcquire`
unfoldable pub decide_acquire : AcquireInput → Result PolicyError Decision
decide_acquire input = do
  acquired_at ← valid_now input.now
  revision ← valid_revision input.state_revision
  lock_paths input.resource
  parse_owner input.owner
  validate_lease_id input.lease_id
  validate_ttl input.ttl_ms
  acquire_over input.current input acquired_at revision

-- `DecideRenewInput`; `DecideReleaseInput` has no `ttlMs`
pub record HolderInput : Type 0 where
  pub now : Date
  pub current : Binding
  pub state_revision : ℕ
  pub expected_identity : Identity
  pub ttl_ms : ℕ

-- The guards that renewal and release share: the lease that is expected, held, in its time.
unfoldable pub as_holder :
    Binding → Identity → Moment → Result PolicyError Decision → Result PolicyError Decision
as_holder current expected now continue =
    if not (exact_identity current.lease expected)
    then ok Decision.conflict
    else if is_release current.action
    then ok Decision.conflict
    else (do
      state ← current_state current now
      if not (is_writable state) then ok Decision.conflict else continue)

-- `decideRenew`
unfoldable pub decide_renew : HolderInput → Result PolicyError Decision
decide_renew input = do
  now ← valid_now input.now
  revision ← valid_revision input.state_revision
  as_holder input.current input.expected_identity now do
    expires_at ← next_expiry now input.ttl_ms
    ok (
        Decision.transition Action.renew (
          let lease = input.current.lease in
          record lease { expires_at = expires_at; state_revision = revision }))

-- `decideRelease`
unfoldable pub decide_release : HolderInput → Result PolicyError Decision
decide_release input = do
  released_at ← valid_now input.now
  revision ← valid_revision input.state_revision
  as_holder input.current input.expected_identity released_at (
      ok (
        Decision.transition Action.release (
          let lease = input.current.lease in
          record lease { expires_at = released_at; state_revision = revision })))

-- `DecideTakeoverInput`
pub record TakeoverInput : Type 0 where
  pub now : Date
  pub current : Binding
  pub state_revision : ℕ
  pub expected_identity : Identity
  pub owner : Text
  pub lease_id : Text
  pub ttl_ms : ℕ

-- `decideTakeover`, by the state of the lease
unfoldable pub takeover_in : TimeState → TakeoverInput → Moment → ℕ → Result PolicyError Decision
takeover_in state input acquired_at revision =
    if not (is_takeover_eligible state) then ok Decision.conflict else (do
      expires_at ← next_expiry acquired_at input.ttl_ms
      token ← next_fencing_token input.current.lease.fencing_token
      ok (
          Decision.transition Action.takeover (
            let lease = input.current.lease in
            record lease {
              owner = input.owner;
              lease_id = input.lease_id;
              acquired_at = acquired_at;
              expires_at = expires_at;
              fencing_token = token;
              state_revision = revision;
            })))

-- `decideTakeover`, after its input checks
unfoldable pub takeover_of : TakeoverInput → Moment → ℕ → Result PolicyError Decision
takeover_of input acquired_at revision =
    if not (exact_identity input.current.lease input.expected_identity)
    then ok Decision.conflict
    else if is_release input.current.action
    then ok Decision.conflict
    else (do
      state ← current_state input.current acquired_at
      takeover_in state input acquired_at revision)

-- `decideTakeover`
unfoldable pub decide_takeover : TakeoverInput → Result PolicyError Decision
decide_takeover input = do
  acquired_at ← valid_now input.now
  revision ← valid_revision input.state_revision
  parse_owner input.owner
  validate_lease_id input.lease_id
  validate_ttl input.ttl_ms
  takeover_of input acquired_at revision
