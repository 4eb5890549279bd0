-- ===== src/Transactions/Placed.antt =====
-- That the next operation of a publication goes through, and what it leaves behind.
use kratos_harness.Common.{
  ℕ, zero, suc, ◌≡◌, refl, subst, false, List, [], ◌∷◌, some, Text, get, get_elem?, put, get-put,
  All, arith, text_eq, text_refl, nat_eq, ok,
}
use kratos_harness.Transactions.Model.{
  Fingerprint, OperationKind, Operation, Observed, same_fingerprint, same_fingerprint_iff,
}
use kratos_harness.Transactions.Checks.{payload_at}
use kratos_harness.Transactions.Published.{IsAt, IsStaged, IsStagedAt}
use kratos_harness.Transactions.Separate.{consume, IsSeparate, All-get_elem?}
use kratos_harness.Transactions.Fencing.{manifest_authority, assert_lease_authority}
use kratos_harness.Transactions.Driving.{
  assert_persisted_payload, publish_persisted_operation, assert_result, publish_untouched,
  publish_operation,
}
use kratos_harness.Transactions.Founded.{
  IsMadeBy, IsFitting, IsReady, some_same, parented-get, paths_of,
}
use kratos_harness.Transactions.Standing.{IsAt-authority}

-- What a publication that goes through leaves behind
abbrev pub place : Operation → Observed → Observed
place x o = record {
  destinations = put x.path x.result o.destinations;
  staged_payloads = consume x.staged_path o.staged_payloads;
}

persisted :
    (x : Operation) (o : Observed) (kind : OperationKind)
    → x.kind ≡ kind
    → IsMadeBy kind x.result x.staged_path
    → IsStaged o.staged_payloads x.result x.staged_path
    → assert_persisted_payload x o ≡ ok tt
persisted x o OperationKind.create_directory e f s = ground arith
persisted x o OperationKind.delete_file e f s = ground arith
persisted x o OperationKind.write_file e (path, f) s =
    let same = subst (λ t. IsStaged o.staged_payloads x.result t) f s in
    ground (arith, same_fingerprint_iff (payload_at o.staged_payloads path) x.result)

published :
    (x : Operation) (o : Observed) (kind : OperationKind)
    → x.kind ≡ kind
    → IsMadeBy kind x.result x.staged_path
    → IsStaged o.staged_payloads x.result x.staged_path
    → publish_persisted_operation x o ≡ place x o
published x o OperationKind.create_directory e f s = ground arith
published x o OperationKind.delete_file e f s = ground arith
published x o OperationKind.write_file e (path, f) s =
    let same = subst (λ t. IsStaged o.staged_payloads x.result t) f s in ground arith

placed_result : (x : Operation) (o : Observed) → assert_result x (place x o) ≡ ok (place x o)
placed_result x o = ground (
  arith,
  get-put x.path x.path x.result o.destinations,
  text_refl x.path,
  same_fingerprint_iff x.result x.result,
)

untouched :
    (os : List Operation) (x : Operation) (o : Observed)
    → get x.path o.destinations ≡ some x.expected
    → IsFitting x
    → IsStaged o.staged_payloads x.result x.staged_path
    → assert_lease_authority (manifest_authority os) o.destinations ≡ ok tt
    → publish_untouched os x o ≡ ok (place x o)
unfolding publish_untouched
untouched os x o g f s l =
    let a = persisted x o x.kind refl f s in
    let b = published x o x.kind refl f s in
    let c = placed_result x o in ground (arith, same_fingerprint_iff x.expected x.expected)

IsStaged-get_elem? :
    (ps : List (Text × Fingerprint)) (k : ℕ) (os : List Operation) {x : Operation}
    → IsStagedAt ps k os
    → get_elem? os k ≡ some x
    → IsStaged ps x.result x.staged_path
IsStaged-get_elem? ps k [] h e = ground arith
IsStaged-get_elem? ps zero (o ∷ os) (s, h) e =
    subst (λ (y : Operation). IsStaged ps y.result y.staged_path) (some_same e) s
IsStaged-get_elem? ps (suc k) (o ∷ os) (s, h) e = IsStaged-get_elem? ps k os h e

expected-get_elem? :
    (ds : List (Text × Fingerprint)) (k : ℕ) (os : List Operation) {x : Operation}
    → IsAt ds k os
    → get_elem? os k ≡ some x
    → get x.path ds ≡ some x.expected
expected-get_elem? ds k [] h e = ground arith
expected-get_elem? ds zero (o ∷ os) (s, h) e =
    subst (λ (y : Operation). get y.path ds ≡ some y.expected) (some_same e) s
expected-get_elem? ds (suc k) (o ∷ os) (s, h) e = expected-get_elem? ds k os h e

differs-get_elem? :
    (os : List Operation) (k : ℕ) {x : Operation}
    → IsSeparate os
    → get_elem? os k ≡ some x
    → same_fingerprint x.expected x.result ≡ false
differs-get_elem? [] k h e = ground arith
differs-get_elem? (o ∷ os) zero (d, _, h) e =
    subst (λ (y : Operation). same_fingerprint y.expected y.result ≡ false) (some_same e) d
differs-get_elem? (o ∷ os) (suc k) (d, _, h) e = differs-get_elem? os k h e

-- The next operation goes through.
pub publish_operation-place :
    (os : List Operation) (o : Observed) (k : ℕ) {x : Operation}
    → IsSeparate os
    → All IsFitting os
    → IsReady os o.destinations
    → IsAt o.destinations k os
    → IsStagedAt o.staged_payloads k os
    → get_elem? os k ≡ some x
    → publish_operation os x o ≡ ok (place x o)
unfolding publish_operation IsReady
publish_operation-place os o k {x} s f r a p e =
    let found = expected-get_elem? o.destinations k os a e in
    let parent = parented-get (paths_of os) [] o.destinations k os r (λ d i. ground arith) a e in
    let differ = differs-get_elem? os k s e in
    let rest =
      untouched os x o found (All-get_elem? IsFitting os k f e)
        (IsStaged-get_elem? o.staged_payloads k os p e) (IsAt-authority o.destinations k os a) in
    ground arith
