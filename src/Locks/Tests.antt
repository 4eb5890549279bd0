-- ===== src/Locks/Tests.antt =====
-- Two processes that take the lease on the project in turn, and the theorems about it there.
use kratos_harness.Common.{
  ◌≡◌, ◌≢◌, refl, true, [], ◌∷◌, some, none, Text, codes, ok, nat_eq, text_eq, arith, text_beq,
  split,
}
use kratos_harness.Grammar.{is_id}
use kratos_harness.Locks.Model.{Action, Lease, Identity, Binding, Decision}
use kratos_harness.Locks.Scope.{
  lock_paths, lock_root, parse_owner, is_owner_part, validate_ttl, classify_lease_time,
  encode_run_id, char_at,
}
use kratos_harness.Locks.Policy.{
  valid_now, valid_revision, validate_lease_id, exact_identity, next_expiry, next_fencing_token,
  current_state, as_holder, HolderInput, decide_renew, decide_release, TakeoverInput, takeover_in,
  takeover_of, decide_takeover, AcquireInput, acquire_first, acquire_released, acquire_held,
  acquire_over, decide_acquire,
}
use kratos_harness.Locks.Lifecycle.{is_digest, validate_lifecycle_events, parse_lock_operation}
use kratos_harness.Locks.Operations.{lock_operation, parse_lock_operation-lock_operation}
use kratos_harness.Locks.History.{
  Granted, Granted-IsGranted, IsExact, Grant, History, current_of, token_of,
}
use kratos_harness.Locks.Successor.{IsGranted}
use kratos_harness.Locks.Trail.{events_of, validate_lifecycle_events-History}
use kratos_harness.Locks.Epochs.{epochs, token_of-epochs}
use kratos_harness.Locks.Roots.{distinct_roots}

-- All that a decision computes with.
policy : Unit {0}
unfolding decide_acquire acquire_over acquire_first acquire_released acquire_held decide_renew
    decide_release as_holder decide_takeover takeover_of takeover_in valid_now valid_revision
    validate_lease_id exact_identity next_expiry next_fencing_token current_state lock_paths
    lock_root parse_owner is_owner_part validate_ttl classify_lease_time encode_run_id char_at is_id
    text_beq split is_digest
policy = tt

abbrev first_lease : Lease
first_lease = record {
  resource = codes "project";
  owner = codes "host:one";
  lease_id = codes "lease-1";
  acquired_at = 63000000000000;
  expires_at = 63000000060000;
  fencing_token = 1;
  state_revision = 4;
}

abbrev acquisition : AcquireInput
acquisition = record {
  now = some 63000000000000;
  current = none;
  state_revision = 4;
  resource = codes "project";
  owner = codes "host:one";
  lease_id = codes "lease-1";
  ttl_ms = 60000;
}

acquires : decide_acquire acquisition ≡ ok (Decision.transition Action.acquire first_lease)
unfolding policy
acquires = refl

abbrev held : Binding
held = record { action = Action.acquire; lease = first_lease }

-- The identity of the first lease.
abbrev identity : Identity
identity = record {
  resource = codes "project";
  owner = codes "host:one";
  lease_id = codes "lease-1";
  fencing_token = 1;
  state_revision = 4;
}

abbrev takeover : TakeoverInput
takeover = record {
  now = some 63000000065000;
  current = held;
  state_revision = 5;
  expected_identity = identity;
  owner = codes "host:two";
  lease_id = codes "lease-2";
  ttl_ms = 60000;
}

abbrev second_lease : Lease
second_lease = record {
  resource = codes "project";
  owner = codes "host:two";
  lease_id = codes "lease-2";
  acquired_at = 63000000065000;
  expires_at = 63000000125000;
  fencing_token = 2;
  state_revision = 5;
}

takes_over : decide_takeover takeover ≡ ok (Decision.transition Action.takeover second_lease)
unfolding policy
takes_over = refl

-- A millisecond before, the lease is not yet free.
too_early : decide_takeover (record takeover { now = some 63000000064999 }) ≡ ok Decision.conflict
unfolding policy
too_early = refl

abbrev renewal : HolderInput
renewal = record {
  now = some 63000000050000;
  current = held;
  state_revision = 5;
  expected_identity = identity;
  ttl_ms = 60000;
}

abbrev digest : Text
digest = codes "0123456789abcdef0123456789abcdef0123456789abcdef0123456789abcdef"

digest-is_digest : is_digest digest ≡ true
unfolding is_digest
digest-is_digest = refl

abbrev first_grant : Grant
first_grant = record {
  now = 63000000000000;
  action = Action.acquire;
  lease = first_lease;
  digest = digest;
}

abbrev second_grant : Grant
second_grant = record {
  now = 63000000065000;
  action = Action.takeover;
  lease = second_lease;
  digest = digest;
}

acquired_first : Granted (current_of []) first_grant.now first_grant.action first_grant.lease
acquired_first = Granted.acquired acquisition refl refl acquires

taken_second :
    Granted (current_of (first_grant ∷ [])) second_grant.now second_grant.action second_grant.lease
taken_second = Granted.taken_over takeover refl refl takes_over

history : History (second_grant ∷ first_grant ∷ [])
history =
    History.grant second_grant (History.grant first_grant History.empty acquired_first) taken_second

Granted-IsGranted_example :
    IsGranted 63000000065000 (some held) Action.takeover second_lease × IsExact taken_second
Granted-IsGranted_example =
    Granted-IsGranted {current = some held} {now = 63000000065000} {action = Action.takeover}
      {next = second_lease} taken_second

validate_lifecycle_events-History_example :
    validate_lifecycle_events
      (events_of (codes ".brain/locks/project/lease.json") (second_grant ∷ first_grant ∷ []))
      (codes ".brain/locks/project/lease.json")
    ≡ ok Action.takeover
validate_lifecycle_events-History_example =
    validate_lifecycle_events-History (codes ".brain/locks/project/lease.json") second_grant
      {gs = first_grant ∷ []} history (digest-is_digest, (digest-is_digest, tt))

token_of-epochs_example :
    token_of (current_of (second_grant ∷ first_grant ∷ []))
    ≡ epochs (second_grant ∷ first_grant ∷ [])
token_of-epochs_example = token_of-epochs {gs = second_grant ∷ first_grant ∷ []} history

parse_lock_operation-lock_operation_example :
    parse_lock_operation (lock_operation Action.renew 120 digest)
    ≡ ok (record { action = Action.renew; token = 120; digest = digest })
parse_lock_operation-lock_operation_example =
    parse_lock_operation-lock_operation Action.renew 120 digest (omega arith) digest-is_digest

renews :
    decide_renew renewal
    ≡ ok (
        Decision.transition Action.renew
          (record first_lease { expires_at = 63000000110000; state_revision = 5 }))
unfolding policy
renews = refl

-- The lease is not renewed under another token.
misnamed_refused :
    decide_renew (record renewal { expected_identity = record identity { fencing_token = 9 } })
    ≡ ok Decision.conflict
unfolding policy
misnamed_refused = refl

abbrev run_root : Text
run_root = codes ".brain/locks/runs/cnVuLTE"

run_root-eq : lock_root (codes "run:run-1") ≡ some run_root
unfolding policy
run_root-eq = refl

project-run : codes "project" ≢ codes "run:run-1"
project-run h = ground arith

project_root-eq : lock_root (codes "project") ≡ some (codes ".brain/locks/project")
unfolding policy
project_root-eq = refl

distinct_roots_example : codes ".brain/locks/project" ≢ run_root
distinct_roots_example =
    distinct_roots (codes "project") (codes "run:run-1") {p = codes ".brain/locks/project"}
      {o = run_root} project-run project_root-eq run_root-eq

-- The encoding of a run distinguishes capitals, so two runs may have roots that differ by them alone.
capital_root : lock_root (codes "run:abG") ≡ some (codes ".brain/locks/runs/YWJH")
unfolding policy
capital_root = refl

small_root : lock_root (codes "run:aba") ≡ some (codes ".brain/locks/runs/YWJh")
unfolding policy
small_root = refl
