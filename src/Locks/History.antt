-- ===== src/Locks/History.antt =====
-- The leases that the policy grants one after another, and the events that record them.
use kratos_harness.Common.{
  ℕ, ◌≤◌, ◌≡◌, sym, subst, true, List, [], ◌∷◌, Option, none, some, Text, arith, ok, text_iff,
  text_eq, nat_eq,
}
use kratos_harness.Locks.Model.{Identity, Moment, Action, Lease, Binding, Decision}
use kratos_harness.Locks.Policy.{
  exact_identity, HolderInput, decide_renew, decide_release, TakeoverInput, decide_takeover,
  AcquireInput, decide_acquire,
}
use kratos_harness.Locks.Lifecycle.{validate_token_transition, is_allowed}
use kratos_harness.Locks.Successor.{
  IsGranted, IsSuccessor, decide_acquire_lem, decide_renew_lem, decide_release_lem,
  decide_takeover_lem,
}

-- A transition that one of the four operations decides at a moment over what is there.
pub data Granted (current : Option Binding) (now : Moment) (action : Action) (next : Lease)
    : Type 0 where
  acquired :
      (input : AcquireInput)
      → input.now ≡ some now
      → input.current ≡ current
      → decide_acquire input ≡ ok (Decision.transition action next)
      → Granted current now action next
  renewed :
      (input : HolderInput)
      → input.now ≡ some now
      → some input.current ≡ current
      → decide_renew input ≡ ok (Decision.transition action next)
      → Granted current now action next
  released :
      (input : HolderInput)
      → input.now ≡ some now
      → some input.current ≡ current
      → decide_release input ≡ ok (Decision.transition action next)
      → Granted current now action next
  taken_over :
      (input : TakeoverInput)
      → input.now ≡ some now
      → some input.current ≡ current
      → decide_takeover input ≡ ok (Decision.transition action next)
      → Granted current now action next

-- The lease that a decision allows next, in the order of time.
pub grant_allowed :
    {current : Option Binding} {now : Moment} {action : Action} {next : Lease}
    → Granted current now action next
    → IsGranted now current action next
unfolding IsGranted
grant_allowed {current} {now} {action} {next} (Granted.acquired input t e h) =
    let (is, _, _, _, _, s) = decide_acquire_lem input t h in
    subst (λ c. IsGranted now c action next) e
      (subst (λ a. IsGranted now input.current a next) (sym is) s)
grant_allowed {current} {now} {action} {next} (Granted.renewed input t e h) =
    let (is, _, _, s) = decide_renew_lem input t h in
    subst (λ c. IsGranted now c action next) e
      (subst (λ a. IsSuccessor now input.current a next) (sym is) s)
grant_allowed {current} {now} {action} {next} (Granted.released input t e h) =
    let (is, _, _, s) = decide_release_lem input t h in
    subst (λ c. IsGranted now c action next) e
      (subst (λ a. IsSuccessor now input.current a next) (sym is) s)
grant_allowed {current} {now} {action} {next} (Granted.taken_over input t e h) =
    let (is, _, _, _, _, s) = decide_takeover_lem input t h in
    subst (λ c. IsGranted now c action next) e
      (subst (λ a. IsSuccessor now input.current a next) (sym is) s)

-- A lease by its names: resource, owner, identifier, token and revision
pub record IsNamed (lease : Lease) (identity : Identity) : Type 0 where
  pub resource : lease.resource ≡ identity.resource
  pub owner : lease.owner ≡ identity.owner
  pub lease_id : lease.lease_id ≡ identity.lease_id
  pub token : lease.fencing_token ≡ identity.fencing_token
  pub revision : lease.state_revision ≡ identity.state_revision

exact_identity-IsNamed :
    (lease : Lease) (identity : Identity)
    → exact_identity lease identity ≡ true
    → IsNamed lease identity
unfolding exact_identity
exact_identity-IsNamed lease identity h = record {
  resource = (text_iff lease.resource identity.resource).0 (ground arith);
  owner = (text_iff lease.owner identity.owner).0 (ground arith);
  lease_id = (text_iff lease.lease_id identity.lease_id).0 (ground arith);
  token = ground arith;
  revision = ground arith;
}

-- Whoever acts on a lease names it exactly; who acquires has no lease to name.
pub IsExact :
    {current : Option Binding} {now : Moment} {action : Action} {next : Lease}
    → Granted current now action next
    → Type 0
IsExact (Granted.acquired input t e h) = Unit
IsExact (Granted.renewed input t e h) = IsNamed input.current.lease input.expected_identity
IsExact (Granted.released input t e h) = IsNamed input.current.lease input.expected_identity
IsExact (Granted.taken_over input t e h) = IsNamed input.current.lease input.expected_identity

Granted-IsExact :
    {current : Option Binding} {now : Moment} {action : Action} {next : Lease}
    (granted : Granted current now action next)
    → IsExact granted
unfolding IsExact
Granted-IsExact (Granted.acquired input t e h) = tt
Granted-IsExact (Granted.renewed input t e h) =
    exact_identity-IsNamed _ input.expected_identity (decide_renew_lem input t h).1
Granted-IsExact (Granted.released input t e h) =
    exact_identity-IsNamed _ input.expected_identity (decide_release_lem input t h).1
Granted-IsExact (Granted.taken_over input t e h) =
    exact_identity-IsNamed _ input.expected_identity (decide_takeover_lem input t h).1

-- Whatever the four decisions on a lease grant is what the state before allows. A resource without
-- a lease is only acquired, with token one. A released lease is only acquired, with the next
-- token. A held lease is never acquired: it is renewed or released before it expires, and keeps
-- its resource, owner, identifier, time of acquisition and token; a takeover waits until five
-- seconds after its expiry and takes the next token. Every new expiry lies five seconds to five
-- minutes ahead, but for a release, which expires at once. And who renews, releases or takes over
-- names the lease exactly: its resource, owner, identifier, token and revision.
pub Granted-IsGranted :
    {current : Option Binding} {now : Moment} {action : Action} {next : Lease}
    (granted : Granted current now action next)
    → IsGranted now current action next × IsExact granted
Granted-IsGranted granted = (grant_allowed granted, Granted-IsExact granted)

abbrev pub token_of : Option Binding → ℕ
token_of none = 0
token_of (some current) = current.lease.fencing_token

abbrev pub action_of : Option Binding → Option Action
action_of none = none
action_of (some current) = some current.action

pub IsGranted-is_allowed :
    (current : Option Binding) (now : Moment) (action : Action) (next : Lease)
    → IsGranted now current action next
    → is_allowed action (action_of current) ≡ true
unfolding IsGranted IsSuccessor is_allowed
IsGranted-is_allowed none now action next g = ground arith
IsGranted-is_allowed (some current) now Action.acquire next g = ground arith
IsGranted-is_allowed (some current) now Action.renew next g = ground arith
IsGranted-is_allowed (some current) now Action.release next g = ground arith
IsGranted-is_allowed (some current) now Action.takeover next g = ground arith

pub IsGranted-bound :
    (current : Option Binding) (now : Moment) (action : Action) (next : Lease)
    → token_of current ≤ 9007199254740991
    → IsGranted now current action next
    → next.fencing_token ≤ 9007199254740991
unfolding IsGranted IsSuccessor
IsGranted-bound none now action next b g = ground arith
IsGranted-bound (some current) now Action.acquire next b g = ground arith
IsGranted-bound (some current) now Action.renew next b g = ground arith
IsGranted-bound (some current) now Action.release next b g = ground arith
IsGranted-bound (some current) now Action.takeover next b g = ground arith

pub IsGranted-validate_token_transition :
    (current : Option Binding) (now : Moment) (action : Action) (next : Lease)
    → token_of current ≤ 9007199254740991
    → IsGranted now current action next
    → validate_token_transition action (token_of current) next.fencing_token ≡ ok tt
unfolding IsGranted IsSuccessor validate_token_transition
IsGranted-validate_token_transition none now action next b g = ground arith
IsGranted-validate_token_transition (some current) now Action.acquire next b g = ground arith
IsGranted-validate_token_transition (some current) now Action.renew next b g = ground arith
IsGranted-validate_token_transition (some current) now Action.release next b g = ground arith
IsGranted-validate_token_transition (some current) now Action.takeover next b g = ground arith

-- A transition, with the digest of the lease that its event records.
pub record Grant : Type 0 where
  pub now : Moment
  pub action : Action
  pub lease : Lease
  pub digest : Text

-- The binding that the newest transition leaves.
abbrev pub current_of : List Grant → Option Binding
current_of [] = none
current_of (g ∷ gs) = some (record { action = g.action; lease = g.lease })

-- The transitions of a resource, the newest first.
pub data History : List Grant → Type 0 where
  empty : History []
  grant :
      {gs : List Grant} (g : Grant)
      → History gs
      → Granted (current_of gs) g.now g.action g.lease
      → History (g ∷ gs)

pub History-bound : {gs : List Grant} → History gs → token_of (current_of gs) ≤ 9007199254740991
History-bound History.empty = omega arith
History-bound (History.grant {gs} g h granted) =
    IsGranted-bound (current_of gs) g.now g.action g.lease (History-bound h) (grant_allowed granted)
