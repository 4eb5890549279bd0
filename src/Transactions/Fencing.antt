-- ===== src/Transactions/Fencing.antt =====
-- `parentOf`, `reservedGuardPath`, `manifestAuthority` and `assertLeaseAuthority` of
-- packages/runtime/src/composition/transactions.ts: what a publication asks of the leases.
use kratos_harness.Common.{
  ℕ, zero, suc, Bool, true, false, ◌&&◌, ◌||◌, List, [], ◌∷◌, ◌++◌, Option, none, some, Text, codes,
  get, get_or, ◌==◌, text_eq, nat_eq, is_empty, starts_with, drop, length, Result, ok, ◌>>◌,
  require,
}
use kratos_harness.Grammar.{id_character}
use kratos_harness.Transactions.Model.{Operation, Fingerprint, same_fingerprint}

-- How the loop may throw: the evidence of a corrupt state, that of a lease of another writer, and a
-- transition that is not legal
pub data TransactionFailure : Type 0 where
  state_corrupt lease_conflict : Text → TransactionFailure
  illegal_transition : TransactionFailure

-- `parentOf`, from the text before the last `/`
unfoldable pub before_last_slash : Text → Option Text
before_last_slash [] = none
before_last_slash (c ∷ s) = elim (before_last_slash s) [
  | some before ↦ some (c ∷ before)
  | none ↦ elim (c == b'/') [ true ↦ some [] | false ↦ none ]
]

abbrev pub parent_of : Text → Text
parent_of path = get_or (before_last_slash path) (codes ".")

-- `observeFingerprint`: what `inspect` answers for a path
abbrev pub observe_fingerprint : Text → List (Text × Fingerprint) → Fingerprint
observe_fingerprint path entries = get_or (get path entries) Fingerprint.missing

-- `path.endsWith(end)`
unfoldable pub ends_with : Text → Text → Bool
ends_with [] end = is_empty end
ends_with (c ∷ s) end = elim (c ∷ s == end) [ true ↦ true | false ↦ ends_with s end ]

-- `[a-zA-Z0-9._:-]{0,n}\/`
unfoldable pub scope_tail : ℕ → Text → Bool
scope_tail n [] = false
scope_tail zero (c ∷ s) = c == b'/'
scope_tail (suc n) (c ∷ s) = elim (c == b'/') [
  | true ↦ true
  | false ↦ elim (id_character c) [ true ↦ scope_tail n s | false ↦ false ]
]

-- `[a-zA-Z0-9._:-]{1,128}\/`
abbrev pub scope_run : Text → Bool
scope_run [] = false
scope_run (c ∷ s) = id_character c && scope_tail 127 s

-- `lockScope`
unfoldable pub in_lock_scope : Text → Bool
in_lock_scope path =
    starts_with path (codes ".brain/locks/project/")
    || (starts_with path (codes ".brain/locks/runs/")
        && scope_run (drop (length (codes ".brain/locks/runs/")) path))

-- `reservedGuardPath`
abbrev pub reserved_guard_path : Text → Text → Bool
reserved_guard_path path name = in_lock_scope path && ends_with path (codes "/" ++ name)

-- `manifestAuthority`: the operations on the two artifacts of a guarding lease, if there are any.
unfoldable pub manifest_authority : List Operation → List Operation
manifest_authority (events ∷ lease ∷ other ∷ rest) =
    elim (reserved_guard_path events.path (codes "events.jsonl")
      && reserved_guard_path lease.path (codes "lease.json")) [
        | true ↦ events ∷ lease ∷ []
        | false ↦ []
      ]
manifest_authority _ = []

-- `assertLeaseAuthority`
unfoldable pub assert_lease_authority :
    List Operation → List (Text × Fingerprint) → Result TransactionFailure (Unit {0})
assert_lease_authority [] entries = ok tt
assert_lease_authority (artifact ∷ authority) entries =
    let observed = observe_fingerprint artifact.path entries in
    require
      (same_fingerprint observed artifact.expected || same_fingerprint observed artifact.result)
      (TransactionFailure.lease_conflict artifact.path)
    >> assert_lease_authority authority entries
