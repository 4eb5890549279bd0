-- ===== src/Objective/Named.antt =====
-- That the name of a feature is well formed.
use kratos_harness.Common.{
  ℕ, zero, suc, ◌≤◌, ◌≡◌, refl, Bool, true, false, ◌||◌, [], ◌∷◌, some, Text, ◌==◌, nat_eq,
  is_empty, is_lower, is_digit, subst, all, length, take, arith,
}
use kratos_harness.Grammar.{is_feature}
use kratos_harness.Objective.Lifecycle.{
  is_slug_letter, dashed, drop_dash, drop_last_dash, slug_of, feature_identity,
}

-- `[a-z0-9-]`
abbrev is_slug_character : ℕ → Bool
is_slug_character c = is_lower c || is_digit c || c == b'-'

abbrev begins_well : Text → Bool
begins_well [] = true
begins_well (c ∷ s) = is_slug_letter c

dashed-begins_well : (s : Text) → begins_well (dashed true s) ≡ true
unfolding dashed
dashed-begins_well [] = refl
dashed-begins_well (c ∷ s) = ground (arith, dashed-begins_well s)

drop_dash-begins_well : (s : Text) → begins_well (drop_dash (dashed false s)) ≡ true
unfolding dashed
drop_dash-begins_well [] = refl
drop_dash-begins_well (c ∷ s) = ground (arith, dashed-begins_well s)

drop_last-begins_well : (s : Text) → begins_well s ≡ true → begins_well (drop_last_dash s) ≡ true
unfolding drop_last_dash
drop_last-begins_well [] h = refl
drop_last-begins_well (c ∷ []) h = ground arith
drop_last-begins_well (c ∷ d ∷ s) h = h

take-begins_well : (n : ℕ) (s : Text) → begins_well s ≡ true → begins_well (take n s) ≡ true
take-begins_well zero s h = refl
take-begins_well (suc n) [] h = refl
take-begins_well (suc n) (c ∷ s) h = h

dashed-all : (inside : Bool) (s : Text) → all is_slug_character (dashed inside s) ≡ true
unfolding dashed
dashed-all inside [] = refl
dashed-all inside (c ∷ s) = ground (arith, dashed-all true s, dashed-all false s)

drop_dash-all :
    (s : Text) → all is_slug_character s ≡ true → all is_slug_character (drop_dash s) ≡ true
drop_dash-all [] h = refl
drop_dash-all (c ∷ s) h = ground arith

drop_last-all :
    (s : Text) → all is_slug_character s ≡ true → all is_slug_character (drop_last_dash s) ≡ true
unfolding drop_last_dash
drop_last-all [] h = refl
drop_last-all (c ∷ []) h = ground arith
drop_last-all (c ∷ d ∷ s) h = ground (arith, drop_last-all (d ∷ s))

take-all :
    (n : ℕ) (s : Text) → all is_slug_character s ≡ true → all is_slug_character (take n s) ≡ true
take-all zero s h = refl
take-all (suc n) [] h = refl
take-all (suc n) (c ∷ s) h = ground (arith, take-all n s)

drop_last-le : (s : Text) → length (drop_last_dash s) ≤ length s
unfolding drop_last_dash
drop_last-le [] = omega arith
drop_last-le (c ∷ []) = ground arith
drop_last-le (c ∷ d ∷ s) = omega (arith, drop_last-le (d ∷ s))

take-le : (n : ℕ) (s : Text) → length (take n s) ≤ n
take-le zero s = omega arith
take-le (suc n) [] = omega arith
take-le (suc n) (c ∷ s) = omega (arith, take-le n s)

well_formed :
    (s : Text)
    → is_empty s ≡ false
    → begins_well s ≡ true
    → all is_slug_character s ≡ true
    → length s ≤ 64
    → is_feature s ≡ true
unfolding is_feature
well_formed [] e b a l = ground arith
well_formed (c ∷ s) e b a l = ground arith

slug_of-is_feature : (s : Text) → is_empty (slug_of s) ≡ false → is_feature (slug_of s) ≡ true
unfolding slug_of
slug_of-is_feature s e =
    let trimmed = drop_last_dash (drop_dash (dashed false s)) in
    well_formed (drop_last_dash (take 64 trimmed)) e
      (drop_last-begins_well (take 64 trimmed) (
        take-begins_well 64 trimmed
          (drop_last-begins_well (drop_dash (dashed false s)) (drop_dash-begins_well s))))
      (drop_last-all (take 64 trimmed) (
        take-all 64 trimmed (
          drop_last-all (drop_dash (dashed false s))
            (drop_dash-all (dashed false s) (dashed-all false s)))))
      (omega (arith, drop_last-le (take 64 trimmed), take-le 64 trimmed))

identity_slug :
    (fold : Text → Text) (text : Text) {feature : Text}
    → feature_identity fold text ≡ some feature
    → (is_empty (slug_of (fold text)) ≡ false) × (slug_of (fold text) ≡ feature)
unfolding feature_identity
identity_slug fold text h = (ground arith, ground arith)

-- However a text is folded, the name that it gives to a feature is one that the decisions of a
-- workflow accept: a lower-case letter or a digit, then at most 63 of those and dashes.
pub feature_identity-is_feature :
    (fold : Text → Text) (text : Text) {feature : Text}
    → feature_identity fold text ≡ some feature
    → is_feature feature ≡ true
feature_identity-is_feature fold text h =
    let (e, same) = identity_slug fold text h in
    subst (λ s. is_feature s ≡ true) same (slug_of-is_feature (fold text) e)
