-- ===== src/Transactions/Standing.antt =====
-- That the leases which guard a publication stand while it is under way.
use kratos_harness.Common.{
  ℕ, zero, suc, ◌≡◌, ◌⊎◌, inl, inr, refl, Bool, true, false, ◌&&◌, List, [], ◌∷◌, some, Text, codes,
  get, All, arith, text_eq, nat_eq, ok,
}
use kratos_harness.Transactions.Model.{Fingerprint, Operation, same_fingerprint_iff}
use kratos_harness.Transactions.Published.{IsAt}
use kratos_harness.Transactions.Fencing.{
  manifest_authority, assert_lease_authority, reserved_guard_path,
}

abbrev IsStanding : List (Text × Fingerprint) → Operation → Type 0
IsStanding ds o = (get o.path ds ≡ some o.expected) ⊎ (get o.path ds ≡ some o.result)

IsAt-IsStanding :
    (ds : List (Text × Fingerprint)) (k : ℕ) (os : List Operation)
    → IsAt ds k os
    → All (IsStanding ds) os
IsAt-IsStanding ds k [] h = tt
IsAt-IsStanding ds zero (o ∷ os) (g, h) = (inl g, IsAt-IsStanding ds zero os h)
IsAt-IsStanding ds (suc k) (o ∷ os) (g, h) = (inr g, IsAt-IsStanding ds k os h)

authority-All :
    (P : Operation → Type 0) (os : List Operation) → All P os → All P (manifest_authority os)
unfolding manifest_authority
authority-All P [] h = tt
authority-All P (a ∷ []) h = tt
authority-All P (a ∷ b ∷ []) h = tt
authority-All P (a ∷ b ∷ c ∷ os) (x, (y, h)) = by_test (
    reserved_guard_path a.path (codes "events.jsonl")
    && reserved_guard_path b.path (codes "lease.json"))
  where
    by_test : (t : Bool) → All P (elim t [ true ↦ a ∷ b ∷ [] | false ↦ [] ])
    by_test true = (x, (y, tt))
    by_test false = tt

standing-ok :
    (ds : List (Text × Fingerprint)) (authority : List Operation)
    → All (IsStanding ds) authority
    → assert_lease_authority authority ds ≡ ok tt
unfolding assert_lease_authority
standing-ok ds [] h = refl
standing-ok ds (a ∷ authority) (inl g, h) =
    ground (arith, standing-ok ds authority h, same_fingerprint_iff a.expected a.expected)
standing-ok ds (a ∷ authority) (inr g, h) =
    ground (arith, standing-ok ds authority h, same_fingerprint_iff a.result a.result)

-- A lease that guards a publication under way stands.
pub IsAt-authority :
    (ds : List (Text × Fingerprint)) (k : ℕ) (os : List Operation)
    → IsAt ds k os
    → assert_lease_authority (manifest_authority os) ds ≡ ok tt
IsAt-authority ds k os h =
    standing-ok ds (manifest_authority os)
      (authority-All (IsStanding ds) os (IsAt-IsStanding ds k os h))
