-- ===== src/Locks/Successor.antt =====
-- What a transition of the policy may do to a lease.
use kratos_harness.Common.{
  ℕ, ◌+◌, ◌≤◌, ◌<◌, ◌≡◌, ◌≢◌, true, text_eq, Option, none, some, arith, ok, text_iff,
}
use kratos_harness.Locks.Model.{Moment, Action, Lease, Binding, Decision}
use kratos_harness.Locks.Scope.{validate_ttl, classify_lease_time}
use kratos_harness.Locks.Policy.{
  valid_now, valid_revision, exact_identity, next_expiry, next_fencing_token, current_state,
  as_holder, HolderInput, decide_renew, decide_release, TakeoverInput, takeover_in, takeover_of,
  decide_takeover, AcquireInput, acquire_first, acquire_released, acquire_held, acquire_over,
  decide_acquire,
}

-- A lease that runs from `now` for a time between the bounds of a TTL.
pub record IsWindow (now expires_at : Moment) : Type 0 where
  pub lower : now + 5000 ≤ expires_at
  pub upper : expires_at ≤ now + 300000

-- The holder of both leases is the same: nothing but the expiry and the revision differs.
pub record IsSameHolder (prior next : Lease) : Type 0 where
  pub resource : next.resource ≡ prior.resource
  pub owner : next.owner ≡ prior.owner
  pub lease_id : next.lease_id ≡ prior.lease_id
  pub acquired_at : next.acquired_at ≡ prior.acquired_at
  pub token : next.fencing_token ≡ prior.fencing_token

-- A new epoch of the resource begins at `now`.
pub record IsNewEpoch (now : Moment) (prior next : Lease) : Type 0 where
  pub resource : next.resource ≡ prior.resource
  pub token : next.fencing_token ≡ prior.fencing_token + 1
  pub bound : next.fencing_token ≤ 9007199254740991
  pub acquired_at : next.acquired_at ≡ now
  pub window : IsWindow now next.expires_at

-- The lease that an action may leave at the moment `now`.
unfoldable pub IsSuccessor : Moment → Binding → Action → Lease → Type 0
IsSuccessor now current Action.acquire next =
    (current.action ≡ Action.release) × IsNewEpoch now current.lease next
IsSuccessor now current Action.renew next =
    (current.action ≢ Action.release)
    × (now < current.lease.expires_at)
    × IsSameHolder current.lease next
    × IsWindow now next.expires_at
IsSuccessor now current Action.release next =
    (current.action ≢ Action.release)
    × (now < current.lease.expires_at)
    × IsSameHolder current.lease next
    × (next.expires_at ≡ now)
IsSuccessor now current Action.takeover next =
    (current.action ≢ Action.release)
    × (current.lease.expires_at + 5000 ≤ now)
    × IsNewEpoch now current.lease next

pub decide_renew_lem :
    (input : HolderInput) {now : Moment} {action : Action} {next : Lease}
    → input.now ≡ some now
    → decide_renew input ≡ ok (Decision.transition action next)
    → (action ≡ Action.renew)
      × (exact_identity input.current.lease input.expected_identity ≡ true)
      × (next.state_revision ≡ input.state_revision)
      × IsSuccessor now input.current Action.renew next
unfolding decide_renew as_holder valid_now valid_revision next_expiry current_state
    classify_lease_time validate_ttl IsSuccessor
decide_renew_lem input t h = ground arith

pub decide_release_lem :
    (input : HolderInput) {now : Moment} {action : Action} {next : Lease}
    → input.now ≡ some now
    → decide_release input ≡ ok (Decision.transition action next)
    → (action ≡ Action.release)
      × (exact_identity input.current.lease input.expected_identity ≡ true)
      × (next.state_revision ≡ input.state_revision)
      × IsSuccessor now input.current Action.release next
unfolding decide_release as_holder valid_now valid_revision current_state classify_lease_time
    IsSuccessor
decide_release_lem input t h = ground arith

pub decide_takeover_lem :
    (input : TakeoverInput) {now : Moment} {action : Action} {next : Lease}
    → input.now ≡ some now
    → decide_takeover input ≡ ok (Decision.transition action next)
    → (action ≡ Action.takeover)
      × (exact_identity input.current.lease input.expected_identity ≡ true)
      × (next.owner ≡ input.owner)
      × (next.lease_id ≡ input.lease_id)
      × (next.state_revision ≡ input.state_revision)
      × IsSuccessor now input.current Action.takeover next
unfolding decide_takeover takeover_of takeover_in valid_now valid_revision next_expiry
    next_fencing_token current_state classify_lease_time validate_ttl IsSuccessor
decide_takeover_lem input t h = ground arith

-- The first lease of a resource.
pub record IsFirst (now : Moment) (next : Lease) : Type 0 where
  pub token : next.fencing_token ≡ 1
  pub acquired_at : next.acquired_at ≡ now
  pub window : IsWindow now next.expires_at

unfoldable pub IsGranted : Moment → Option Binding → Action → Lease → Type 0
IsGranted now none action next = (action ≡ Action.acquire) × IsFirst now next
IsGranted now (some current) action next = IsSuccessor now current action next

acquire_over_lem :
    (input : AcquireInput) (current : Option Binding) (now : Moment) (revision : ℕ)
    {action : Action} {next : Lease}
    → acquire_over current input now revision ≡ ok (Decision.transition action next)
    → (action ≡ Action.acquire)
      × (next.owner ≡ input.owner)
      × (next.resource ≡ input.resource)
      × (next.lease_id ≡ input.lease_id)
      × (next.state_revision ≡ revision)
      × IsGranted now current Action.acquire next
unfolding acquire_over acquire_first acquire_released acquire_held valid_now next_expiry
    next_fencing_token validate_ttl IsSuccessor IsGranted
acquire_over_lem input none now revision h = ground arith
acquire_over_lem input (some current) now revision h =
    ground (arith, text_iff current.lease.resource input.resource)

decide_acquire-acquire_over :
    (input : AcquireInput) {now : Moment} {decision : Decision}
    → input.now ≡ some now
    → decide_acquire input ≡ ok decision
    → acquire_over input.current input now input.state_revision ≡ ok decision
unfolding decide_acquire valid_now valid_revision
decide_acquire-acquire_over input t h = ground arith

pub decide_acquire_lem :
    (input : AcquireInput) {now : Moment} {action : Action} {next : Lease}
    → input.now ≡ some now
    → decide_acquire input ≡ ok (Decision.transition action next)
    → (action ≡ Action.acquire)
      × (next.owner ≡ input.owner)
      × (next.resource ≡ input.resource)
      × (next.lease_id ≡ input.lease_id)
      × (next.state_revision ≡ input.state_revision)
      × IsGranted now input.current Action.acquire next
decide_acquire_lem input {now} t h =
    acquire_over_lem input input.current now input.state_revision
      (decide_acquire-acquire_over input t h)
