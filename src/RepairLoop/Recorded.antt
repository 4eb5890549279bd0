-- ===== src/RepairLoop/Recorded.antt =====
-- From a decision to the event that records it: the metadata that `buildAcceptanceDecisionMetadata`
-- binds is what the reducer checks for.
use kratos_harness.Common.{
  ◌≡◌, refl, true, List, [], ◌∷◌, Option, none, some, Text, arith, length, get, put, get-put,
  includes, All, nat_eq, text_eq, text_refl, Result, ok, err, Thrown,
}
use kratos_harness.RepairLoop.Model.{Attempt, Fault, Stop}
use kratos_harness.RepairLoop.Decision.{stops_of}
use kratos_harness.RepairLoop.Artifact.{Binding, binding_map, bind_stops}
use kratos_harness.RepairLoop.Reading.{IsClassified, IsKeyed}
use kratos_harness.Workflow.Model.{RepairStop}
use kratos_harness.Workflow.Acceptance.{stops_match}

-- Every binding in the map refers to an artifact among `refs`.
abbrev pub IsCited : List Text → List (Text × Binding) → Type 0
IsCited refs m = (id : Text) (b : Binding) → get id m ≡ some b → includes refs b.artifact_ref ≡ true

pub binding_map-IsCited :
    (refs : List Text) (l : List Binding) (m : List (Text × Binding))
    → IsCited refs m
    → All (λ b. includes refs b.artifact_ref ≡ true) l
    → IsCited refs (binding_map l m)
unfolding binding_map
binding_map-IsCited refs [] m c _ = c
binding_map-IsCited refs (a ∷ l) m c (p, h) =
    binding_map-IsCited refs l (put a.criterion_id a m)
      (λ id b q. ground (arith, c id b, get-put a.criterion_id id a m)) h

abbrev stop_of : Fault → Attempt → Stop
stop_of f a = record {
  criterion_id = f.criterion_id;
  classification = f.classification;
  diagnosis = f.diagnosis;
  attempt = a.attempt;
}

stops_of-cons :
    (faults : List (Text × Fault)) (a : Attempt) (trips : List Attempt) (stops : List Stop)
    → stops_of faults (a ∷ trips) ≡ ok stops
    → (f : Fault) × (rest : List Stop) × (get a.criterion_id faults ≡ some f)
      × (stops_of faults trips ≡ ok rest)
      × (stops ≡ stop_of f a ∷ rest)
unfolding stops_of
stops_of-cons faults a trips stops h =
    go (get a.criterion_id faults) refl (stops_of faults trips) refl
  where
    go :
        (o : Option Fault)
        → get a.criterion_id faults ≡ o
        → (m : Result Thrown (List Stop)) → stops_of faults trips ≡ m
        → (f : Fault) × (rest : List Stop) × (get a.criterion_id faults ≡ some f)
          × (stops_of faults trips ≡ ok rest)
          × (stops ≡ stop_of f a ∷ rest)
    go none p m q = absurd (ground (arith, p))
    go (some f) p (err e) q = absurd (ground (arith, p, q))
    go (some f) p (ok rest) q = (f, rest, p, q, ground (arith, p, q))

abbrev bound_stop : Stop → Binding → RepairStop
bound_stop s b = record {
  criterion_id = s.criterion_id;
  attempt = s.attempt;
  classification = s.classification;
  artifact_ref = b.artifact_ref;
  artifact_digest = b.artifact_digest;
}

bind_stops-cons :
    (m : List (Text × Binding)) (s : Stop) (stops : List Stop) (bound : List RepairStop)
    → bind_stops m (s ∷ stops) ≡ ok bound
    → (b : Binding) × (rest : List RepairStop) × (get s.criterion_id m ≡ some b)
      × (bind_stops m stops ≡ ok rest)
      × (bound ≡ bound_stop s b ∷ rest)
unfolding bind_stops
bind_stops-cons m s stops bound h = go (get s.criterion_id m) refl (bind_stops m stops) refl
  where
    go :
        (o : Option Binding)
        → get s.criterion_id m ≡ o
        → (r : Result Thrown (List RepairStop)) → bind_stops m stops ≡ r
        → (b : Binding) × (rest : List RepairStop) × (get s.criterion_id m ≡ some b)
          × (bind_stops m stops ≡ ok rest)
          × (bound ≡ bound_stop s b ∷ rest)
    go none p r q = absurd (ground (arith, p))
    go (some b) p (err e) q = absurd (ground (arith, p, q))
    go (some b) p (ok rest) q = (b, rest, p, q, ground (arith, p, q))

-- The stops that a decision makes and that bindings complete match the attempts that trip.
pub bound-stops_match :
    (refs : List Text) (faults : List (Text × Fault)) (bindings : List (Text × Binding))
    (trips : List Attempt) (stops : List Stop) (bound : List RepairStop)
    → IsClassified faults
    → IsKeyed faults
    → IsCited refs bindings
    → stops_of faults trips ≡ ok stops
    → bind_stops bindings stops ≡ ok bound
    → (length bound ≡ length trips) × (stops_match refs bound trips ≡ true)
unfolding stops_of bind_stops stops_match
bound-stops_match refs faults bindings [] stops bound k i c p q = ground arith
bound-stops_match refs faults bindings (a ∷ trips) stops bound k i c p q =
    let (f, more, found, p1, same) = stops_of-cons faults a trips stops p in
    let (b, rest, cited, q1, made) =
      bind_stops-cons bindings (stop_of f a) more bound (rw same at q) in
    let ih = bound-stops_match refs faults bindings trips more rest k i c p1 q1 in
    rw made (
      ground (
        arith,
        ih,
        i a.criterion_id f found,
        k a.criterion_id f found,
        c f.criterion_id b cited,
        text_refl a.criterion_id,
      ))
