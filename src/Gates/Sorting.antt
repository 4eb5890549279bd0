-- ===== src/Gates/Sorting.antt =====
-- The failures that an aggregation shows: those that it was given, the gravest first.
use native.Mathlib.Nat.{le_trans}
use kratos_harness.Common.{
  ℕ, ◌+◌, ◌≤◌, ◌≡◌, refl, Bool, Bool-cases, true, false, List, [], ◌∷◌, arith, All, All-mono, inl,
  inr, if◌then◌else◌,
}
use kratos_harness.Gates.Model.{GateId, Failure}
use kratos_harness.Gates.Policy.{failure_severity, is_before, insert, sort}

-- Each failure is at most as grave as those before it.
unfoldable pub IsGraded : List Failure → Type 0
IsGraded [] = Unit
IsGraded (f ∷ fs) = All (λ g. failure_severity f ≤ failure_severity g) fs × IsGraded fs

-- How many failures of a list a test holds of
unfoldable pub count : (Failure → Bool) → List Failure → ℕ
count p [] = 0
count p (f ∷ fs) = let rest = count p fs in if p f then rest + 1 else rest

module _ (locale_before : GateId → GateId → Bool) where
  count-insert :
      (p : Failure → Bool) (f : Failure) (fs : List Failure)
      → count p (insert locale_before f fs) ≡ count p (f ∷ fs)
  unfolding count insert
  count-insert p f [] = refl
  count-insert p f (g ∷ gs) = ground (arith, count-insert p f gs)

  pub count-sort :
      (p : Failure → Bool) (fs : List Failure) → count p (sort locale_before fs) ≡ count p fs
  unfolding count sort
  count-sort p [] = refl
  count-sort p (f ∷ fs) = ground (arith, count-insert p f (sort locale_before fs), count-sort p fs)

  insert-All :
      (P : Failure → Type 0) (f : Failure) (fs : List Failure)
      → P f
      → All P fs
      → All P (insert locale_before f fs)
  unfolding insert
  insert-All P f [] h hs = (h, tt)
  insert-All P f (g ∷ gs) h (k, ks) = elim (Bool-cases (is_before locale_before g f)) [
    | inl before ↦ rw before (k, insert-All P f gs h ks)
    | inr behind ↦ rw behind (h, (k, ks))
  ]

  -- A failure that need not come before another is at most as grave.
  is_before-severity :
      (f g : Failure) → is_before locale_before g f ≡ true → failure_severity g ≤ failure_severity f
  unfolding is_before
  is_before-severity f g h = ground arith

  not_before-severity :
      (f g : Failure)
      → is_before locale_before g f ≡ false
      → failure_severity f ≤ failure_severity g
  unfolding is_before
  not_before-severity f g h = ground arith

  insert-IsGraded :
      (f : Failure) (fs : List Failure) → IsGraded fs → IsGraded (insert locale_before f fs)
  unfolding insert IsGraded
  insert-IsGraded f [] _ = (tt, tt)
  insert-IsGraded f (g ∷ gs) (h, hs) = elim (Bool-cases (is_before locale_before g f)) [
    | inl before ↦ rw before (
      insert-All (λ x. failure_severity g ≤ failure_severity x) f gs (is_before-severity f g before)
          h,
      insert-IsGraded f gs hs,
    )
    | inr behind ↦ rw behind (
      (
        not_before-severity f g behind,
        All-mono _ _ (λ x le. le_trans (not_before-severity f g behind) le) gs h,
      ),
      (h, hs),
    )
  ]

  pub sort-IsGraded : (fs : List Failure) → IsGraded (sort locale_before fs)
  unfolding sort IsGraded
  sort-IsGraded [] = tt
  sort-IsGraded (f ∷ fs) = insert-IsGraded f (sort locale_before fs) (sort-IsGraded fs)
