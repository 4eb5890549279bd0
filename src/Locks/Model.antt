-- ===== src/Locks/Model.antt =====
-- locks/model.ts and the contract `LockLeaseV1`. A moment is the number of milliseconds since
-- 0000-01-01T00:00:00Z: a contract timestamp has four digits for its year, so every moment that the
-- code accepts is one, and a `Date` that is invalid or lies before is `none`, which the code refuses
-- in the same way. A number of the source that is no natural number is refused by the range tests
-- and has no counterpart here.
use kratos_harness.Common.{ℕ, Option, Text}

abbrev pub Moment : Type 0
Moment = ℕ

abbrev pub Date : Type 0
Date = Option Moment

abbrev pub lease_skew_ms : ℕ
lease_skew_ms = 5000

abbrev pub min_lease_ttl_ms : ℕ
min_lease_ttl_ms = 5000

abbrev pub max_lease_ttl_ms : ℕ
max_lease_ttl_ms = 300000

-- The first moment of the year 10000.
abbrev pub year_limit : Moment
year_limit = 315569520000000

pub data TimeState : Type 0 where
  writable skew takeover_eligible : TimeState

-- `LockLifecycleAction`
pub data Action : Type 0 where
  acquire renew release takeover : Action

-- `LockLeaseV1`, less its two constant version fields
pub record Lease : Type 0 where
  pub resource : Text
  pub owner : Text
  pub lease_id : Text
  pub acquired_at : Moment
  pub expires_at : Moment
  pub fencing_token : ℕ
  pub state_revision : ℕ

-- `ExpectedLeaseIdentity`
pub record Identity : Type 0 where
  pub resource : Text
  pub owner : Text
  pub lease_id : Text
  pub fencing_token : ℕ
  pub state_revision : ℕ

-- `LeasePolicyBinding`
pub record Binding : Type 0 where
  pub action : Action
  pub lease : Lease

-- `LeasePolicyError`
pub data PolicyError : Type 0 where
  invalid_input invalid_transition : PolicyError

-- `LeasePolicyDecision`
pub data Decision : Type 0 where
  transition : Action → Lease → Decision
  conflict takeover_required : Decision
