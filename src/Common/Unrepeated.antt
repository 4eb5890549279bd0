-- ===== src/Common/Unrepeated.antt =====
-- Lists of texts without a repetition, by the test that the source uses (`includes`, `Set.has`).
use mathlib.Core.Path.{◌≡◌, refl}
use mathlib.Core.Logic.{inl, inr}
use mathlib.Core.Bool.{Bool, false, ◌||◌}
use mathlib.Core.List.{List, [], ◌∷◌, ◌++◌, map}
use native.Mathlib.Omega.{arith}
use kratos_harness.Common.Tests.{Bool-cases}
use kratos_harness.Common.Texts.{Text, text_eq, text_iff, includes}
use kratos_harness.Common.Lists.{All, filter}

abbrev pub Distinct : List Text → Type 0
Distinct [] = Unit
Distinct (x ∷ xs) = (includes xs x ≡ false) × Distinct xs

pub includes-append :
    (xs ys : List Text) (s : Text) → includes (xs ++ ys) s ≡ (includes xs s || includes ys s)
includes-append [] ys s = refl
includes-append (x ∷ xs) ys s = ground (arith, includes-append xs ys s)

pub Distinct-append :
    (xs ys : List Text)
    → Distinct xs
    → Distinct ys
    → All (λ y. includes xs y ≡ false) ys
    → Distinct (xs ++ ys)
Distinct-append [] ys dx dy apart = dy
Distinct-append (x ∷ xs) ys (fresh, dx) dy apart = (
  rw (includes-append xs ys x, fresh) (outside x xs ys apart),
  Distinct-append xs ys dx dy (others x xs ys apart),
)
  where
    outside :
        (x : Text) (xs ys : List Text)
        → All (λ y. includes (x ∷ xs) y ≡ false) ys
        → includes ys x ≡ false
    outside x xs [] _ = refl
    outside x xs (y ∷ ys) (p, h) = ground (arith, outside x xs ys h, text_iff x y, text_iff y x)

    others :
        (x : Text) (xs ys : List Text)
        → All (λ y. includes (x ∷ xs) y ≡ false) ys
        → All (λ y. includes xs y ≡ false) ys
    others x xs [] _ = tt
    others x xs (y ∷ ys) (p, h) = (ground arith, others x xs ys h)

module _ {A : Type 0} (id : A → Text) (p : A → Bool) where
  pub includes-map-filter :
      (xs : List A) (s : Text)
      → includes (map id xs) s ≡ false
      → includes (map id (filter p xs)) s ≡ false
  includes-map-filter [] s h = refl
  includes-map-filter (x ∷ xs) s h = ground (arith, includes-map-filter xs s)

  pub Distinct-map-filter : (xs : List A) → Distinct (map id xs) → Distinct (map id (filter p xs))
  Distinct-map-filter [] _ = tt
  Distinct-map-filter (x ∷ xs) (fresh, d) = elim (Bool-cases (p x)) [
    | inl kept ↦ rw kept (includes-map-filter xs (id x) fresh, Distinct-map-filter xs d)
    | inr dropped ↦ rw dropped (Distinct-map-filter xs d)
  ]
