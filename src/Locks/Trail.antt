-- ===== src/Locks/Trail.antt =====
-- The events that record a history of leases: what `prepareLeaseTransition` writes into its draft,
-- and that the validation of a lifecycle accepts the stream of them.
use kratos_harness.Common.{
  ◌≤◌, ◌≡◌, refl, true, List, [], ◌∷◌, ◌++◌, Text, text_refl, text_beq, >>=-assoc, codes, ok, ◌>>=◌,
  All,
}
use kratos_harness.Locks.Lifecycle.{
  LockEvent, Progress, no_progress, is_digest, fact_event_type, matches_fact, validate_event,
  validate_events, validate_lifecycle_events, validate_action_order, validate_token_transition,
  is_allowed,
}
use kratos_harness.Locks.Operations.{lock_operation, parse_lock_operation-lock_operation}
use kratos_harness.Locks.History.{
  Grant, History, History-bound, grant_allowed, IsGranted-bound, IsGranted-is_allowed,
  IsGranted-validate_token_transition, current_of, token_of, action_of,
}

-- The draft of `prepareLeaseTransition`
unfoldable pub event_of : Text → Grant → LockEvent
event_of lease_ref g = record {
  operation = lock_operation g.action g.lease.fencing_token g.digest;
  event_type = fact_event_type g.action;
  policy_version = codes "locks-v1";
  reason_code = codes "trail.ok";
  effect = codes "state";
  artifact_refs = lease_ref ∷ [];
  evidence_refs = [];
}

-- Each event is appended to those before it.
unfoldable pub events_of : Text → List Grant → List LockEvent
events_of lease_ref [] = []
events_of lease_ref (g ∷ gs) = events_of lease_ref gs ++ (event_of lease_ref g ∷ [])

progress_of : List Grant → Progress
progress_of gs = record {
  previous_action = action_of (current_of gs);
  previous_token = token_of (current_of gs);
}

matches_fact-event_of :
    (lease_ref : Text) (g : Grant) → matches_fact g.action lease_ref (event_of lease_ref g) ≡ true
unfolding matches_fact event_of text_beq
matches_fact-event_of lease_ref g =
    rw (text_refl (fact_event_type g.action)) (rw (text_refl lease_ref) refl)

validate_event-event_of :
    (lease_ref : Text) (g : Grant) (gs : List Grant)
    → is_digest g.digest ≡ true
    → g.lease.fencing_token ≤ 9007199254740991
    → is_allowed g.action (action_of (current_of gs)) ≡ true
    → validate_token_transition g.action (token_of (current_of gs)) g.lease.fencing_token ≡ ok tt
    → validate_event lease_ref (progress_of gs) (event_of lease_ref g) ≡ ok (progress_of (g ∷ gs))
unfolding validate_event validate_action_order progress_of event_of
validate_event-event_of lease_ref g gs d b a t =
    rw (parse_lock_operation-lock_operation g.action g.lease.fencing_token g.digest b d)
      (rw a (rw t (rw (matches_fact-event_of lease_ref g) refl)))

validate_events-append :
    (lease_ref : Text) (p : Progress) (xs ys : List LockEvent)
    → validate_events lease_ref p (xs ++ ys)
      ≡ (validate_events lease_ref p xs >>= λ q. validate_events lease_ref q ys)
unfolding validate_events
validate_events-append lease_ref p [] ys = refl
validate_events-append lease_ref p (x ∷ xs) ys =
    >>=-assoc (validate_event lease_ref p x) (λ q. validate_events lease_ref q xs)
      (λ q. validate_events lease_ref q ys) (λ q. validate_events-append lease_ref q xs ys)

validate_events-History :
    (lease_ref : Text) {gs : List Grant}
    → History gs
    → All (λ g. is_digest g.digest ≡ true) gs
    → validate_events lease_ref no_progress (events_of lease_ref gs) ≡ ok (progress_of gs)
unfolding validate_events progress_of events_of
validate_events-History lease_ref History.empty _ = refl
validate_events-History lease_ref (History.grant {gs} g h granted) (d, ds) =
    let is = grant_allowed granted in
    let current = current_of gs in
    let within = History-bound h in
    rw
      (validate_events-append lease_ref no_progress (events_of lease_ref gs)
        (event_of lease_ref g ∷ []))
      (rw (validate_events-History lease_ref h ds) (
        rw
          (validate_event-event_of lease_ref g gs d
            (IsGranted-bound current g.now g.action g.lease within is)
            (IsGranted-is_allowed current g.now g.action g.lease is)
            (IsGranted-validate_token_transition current g.now g.action g.lease within is))
          refl))

-- The lifecycle validation accepts the trail of the policy: when each transition of a history was
-- granted over the one before, the events that record them, with digests of the right form, are
-- accepted in their order, and the action found at the end is the last one granted.
pub validate_lifecycle_events-History :
    (lease_ref : Text) (g : Grant) {gs : List Grant}
    → History (g ∷ gs)
    → All (λ g. is_digest g.digest ≡ true) (g ∷ gs)
    → validate_lifecycle_events (events_of lease_ref (g ∷ gs)) lease_ref ≡ ok g.action
unfolding validate_lifecycle_events progress_of
validate_lifecycle_events-History lease_ref g {gs} h d =
    rw (validate_events-History lease_ref h d) refl
